-- ===== src/Commands/Reader.antt =====
-- `cmd_inner` of display/threads/commands.c from `fgets` on: what one line in the buffer does. The
-- messages that it prints are the list of the outputs, the last one first; printing `OK` and the
-- call of `ui_sync` end the line.
use ttds.Prelude.{
  ℕ, zero, suc, Bool, true, false, List, [], ◌∷◌, Option, none, some, if◌then◌else◌, ◌==◌,
}
use ttds.Prelude.Text.{Bytes, length}
use ttds.Prelude.Run.{Run, done, spent, ◌>>=◌}
use ttds.Commands.{null, Command, find_target, parse, cmd_should_ignore}
use ttds.Commands.Values.{Reply}
use ttds.Commands.Actions.{Display, World}
use ttds.Commands.Dispatch.{run}

pub data Output : Type 0 where
  target_missing ok : Output
  answered : Reply → Output

-- `line[len - 1] = '\0'` for a line of `len >= 1` bytes, in the array that holds the line.
unfoldable pub trim : Bytes → Bytes
trim [] = []
trim (c ∷ []) = c ∷ []
trim (c ∷ d ∷ cs) =
    let rest = trim (d ∷ cs) in
    if c == 0 then c ∷ d ∷ cs else if d == 0 then 0 ∷ d ∷ cs else c ∷ rest

-- The state of the loop over the commands of a line: `line_cursor`, `r`, `failed`, what was printed,
-- and the state that the actions change.
pub record Progress : Type 0 where
  pub cursor : Bytes
  pub result : Command
  pub has_failed : Bool
  pub printed : List Output
  pub display : Display

abbrev pub after_run : Progress → Bytes → Command → Option Reply → Display → Progress
after_run p cursor c none u = record p { cursor = cursor; result = c; display = u }
after_run p cursor c (some reply) u = record {
  cursor = cursor;
  result = c;
  has_failed = true;
  printed = answered reply ∷ p.printed;
  display = u;
}

-- The loop `while (parse(&line_cursor, &r))`, which an answer ends. `parse` sets `ok` in
-- every result, so the branch for a failed parse is never taken. `worlds` gives the environment of
-- each command, by the rounds that are left.
unfoldable pub command_loop : ℕ → (ℕ → World) → Bytes → Progress → Run Progress
command_loop zero worlds target p = spent
command_loop (suc fuel) worlds target p =
    parse (worlds fuel).memory_ok p.cursor p.result >>= λ parsed. elim parsed.0 [
      | false ↦ done p
      | true ↦ run (worlds fuel) p.display target parsed.2 >>= λ r.
          let next = after_run p parsed.1 (record parsed.2 { argv = r.0 }) r.1.0 r.1.1 in
          elim r.1.0 [ some reply ↦ done next | none ↦ command_loop fuel worlds target next ]
    ]

abbrev pub zeroed : Command
zeroed = record { action = []; argc = 0; argv = null }

-- What one line does: the outputs, whether `ui_sync` is called, and the state. A line has fewer
-- commands than bytes.
unfoldable pub handle_line : (ℕ → World) → Bytes → Display → Run (List Output × Bool × Display)
handle_line worlds buffer u =
    let line = trim buffer in
    (cmd_should_ignore line >>= λ ignored.
    if ignored
    then done ([], false, u)
    else (find_target line >>= λ found. elim found [
      | none ↦ done (target_missing ∷ [], false, u)
      | some (target, cursor) ↦
          command_loop (suc (length line)) worlds target (record {
            cursor = cursor;
            result = zeroed;
            has_failed = false;
            printed = [];
            display = u;
          })
          >>= λ p. done (if p.has_failed then p.printed else ok ∷ p.printed, true, p.display)
    ]))
