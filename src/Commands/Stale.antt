-- ===== src/Commands/Stale.antt =====
-- A command of display/threads/commands.c that still has the array of the command before it, which
-- `call_action` has freed.
use ttds.Prelude.{true, ◌≡◌, Bool, false, [], ◌∷◌, some, inl, inr, Bool-cases, arith}
use ttds.Prelude.Text.{Bytes, codes, equal}
use ttds.Prelude.Run.{Run, done, fault, spent, double_free, ◌>>=◌, >>=-eq-done}
use ttds.Commands.{Argv, dangling, Command}
use ttds.Commands.Values.{no_such_action}
use ttds.Commands.Actions.{Display, World, Answer}
use ttds.Commands.Dispatch.{Table, actions, root_actions, call_action, run}

-- Freeing an array twice ends every run in a fault.
never_done :
    {r : Bool × Argv × Answer} (m : Run Answer)
    → ◌≡◌ {A = Run (Bool × Argv × Answer)} (m >>= λ a. fault double_free) (done r)
    → ⊥
never_done (done a) e = cc
never_done (fault f) e = cc
never_done spent e = cc

call_action-dangling :
    (memory : Bool) (table : Table) (u : Display) (target : Bytes) (c : Command)
    (r : Bool × Argv × Answer)
    → c.argv ≡ dangling
    → call_action memory table u target c ≡ done r
    → (r.0 ≡ false) × (r.2 ≡ (some (no_such_action c.action), u))
unfolding call_action
call_action-dangling false [] u target c r freed e = cc
call_action-dangling true [] u target c r freed e = ground arith
call_action-dangling memory ((name, hook) ∷ table) u target c r freed e =
    elim (Bool-cases (equal c.action name)) [
      | inl hit ↦ absurd (never_done (hook u target c.argc dangling) (rw (hit, freed) at e))
      | inr miss ↦ call_action-dangling memory table u target c r freed (rw miss at e)
    ]

as_usual-dangling :
    (w : World) (u : Display) (target : Bytes) (c : Command) (r : Argv × Answer)
    → c.argv ≡ dangling
    → (call_action w.memory_ok (actions w) u target c >>= λ s. done (s.1, s.2)) ≡ done r
    → r.1 ≡ (some (no_such_action c.action), u)
as_usual-dangling w u target c r freed e =
    let (s, called, same) = >>=-eq-done (call_action w.memory_ok (actions w) u target c) _ e in
    let (unfound, answer) =
      call_action-dangling w.memory_ok (actions w) u target c s freed called in
    cc

-- If `run` returns for a command whose array of arguments has been freed, then its answer is that
-- there is no action of that name, and nothing has changed.
pub run-dangling :
    (w : World) (u : Display) (target : Bytes) (c : Command) (r : Argv × Answer)
    → c.argv ≡ dangling
    → run w u target c ≡ done r
    → r.1 ≡ (some (no_such_action c.action), u)
unfolding run
run-dangling w u target c r freed e = elim (Bool-cases (equal target (codes "root"))) [
  | inr other ↦ as_usual-dangling w u target c r freed (rw other at e)
  | inl root ↦
      let (s, called, same) =
        >>=-eq-done (call_action w.memory_ok (root_actions w) u target c) _ (rw root at e) in
      let (unfound, answer) =
        call_action-dangling w.memory_ok (root_actions w) u target c s freed called in
      as_usual-dangling w u target c r freed (rw unfound at same)
]
