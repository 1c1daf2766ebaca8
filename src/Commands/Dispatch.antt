-- ===== src/Commands/Dispatch.antt =====
-- The tables of actions of display/threads/commands.c, `call_action` and `run`.
use ttds.Prelude.{Bool, true, false, List, [], ◌∷◌, some, if◌then◌else◌}
use ttds.Prelude.Text.{Bytes, codes, equal}
use ttds.Prelude.Run.{Run, done, fault, double_free, out_of_bounds, ◌>>=◌}
use ttds.Commands.{Argv, null, live, dangling, Command}
use ttds.Commands.Values.{no_such_action}
use ttds.Commands.Actions.{
  Display, World, Act, Answer, act_create, act_remove, act_rect, act_circle, act_line,
  act_copy_rect, act_bezier2, act_triangle, act_term, act_save, act_count,
}

abbrev pub Table : Type 0
Table = List (Bytes × Act)

abbrev pub actions : World → Table
actions w =
    (codes "CREATE", act_create w)
    ∷ (codes "REMOVE", act_remove w)
    ∷ (codes "RECT", act_rect w)
    ∷ (codes "CIRCLE", act_circle w)
    ∷ (codes "LINE", act_line w)
    ∷ (codes "COPY_RECT", act_copy_rect w)
    ∷ (codes "BEZIER2", act_bezier2 w)
    ∷ (codes "TRIANGLE", act_triangle w)
    ∷ []

abbrev pub root_actions : World → Table
root_actions w =
    (codes "TERMINATE", act_term) ∷ (codes "SAVE", act_save w) ∷ (codes "COUNT", act_count w) ∷ []

-- `if (c->argv) free(c->argv)`.
abbrev pub release : Argv → Run Argv
release null = done null
release (live args) = done dangling
release dangling = fault double_free

-- Whether the table has the action, what becomes of `argv`, and the answer. The flag says whether
-- there is memory for the message that there is no such action; it is written without a test.
unfoldable pub call_action : Bool → Table → Display → Bytes → Command → Run (Bool × Argv × Answer)
call_action memory [] u target c =
    if memory
    then done (false, c.argv, (some (no_such_action c.action), u))
    else fault out_of_bounds
call_action memory ((name, hook) ∷ table) u target c =
    let rest = call_action memory table u target c in
    if equal c.action name
    then (hook u target c.argc c.argv >>= λ answer.
        release c.argv >>= λ argv. done (true, argv, answer))
    else rest

unfoldable pub run : World → Display → Bytes → Command → Run (Argv × Answer)
run w u target c =
    let as_usual = (call_action w.memory_ok (actions w) u target c >>= λ s. done (s.1, s.2)) in
    if equal target (codes "root")
    then (call_action w.memory_ok (root_actions w) u target c >>= λ r.
        if r.0 then done (r.1, r.2) else as_usual)
    else as_usual
