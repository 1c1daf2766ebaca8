-- ===== src/Commands/Tests/Lines.antt =====
-- The reader's loop of display/threads/commands.c on concrete lines.
use ttds.Prelude.{refl, true, false, List, ◌++◌, ◌∷◌, []}
use ttds.Prelude.Text.{codes}
use ttds.Commands.Session.{
  Line, fetched, end_of_file, broken, Fetched, Wait, IsProper, comment, commands, cmd_thread,
}
use ttds.Commands.Session.Ran.{Reads, stop, idle, read, finish, AllProper, Ran, cmd_thread-Ran}
use ttds.Commands.Tests.{
  world, display, display-Sound, two_texts, two_named, two-Batch, two-Lacks, two-NoCurve,
  root-IsWord, world-Serving,
}

abbrev ready : Fetched → Wait
ready input = record { poll_ok = true; cancelled = false; readable = true; input = input }

abbrev remark : Line
remark = record { text = codes "# a\n"; stale = codes "old"; worlds = λ k. world }

abbrev work : Line
work = record {
  text = codes "root:" ++ (two_texts ++ b'\n' ∷ []);
  stale = codes "old";
  worlds = λ k. world;
}

-- A wait that nothing came of, a comment, a line of commands, the end of the input, and the end.
abbrev waits : List Wait
waits =
    record { poll_ok = true; cancelled = false; readable = false; input = broken }
    ∷ ready (fetched remark)
    ∷ ready (fetched work)
    ∷ ready end_of_file
    ∷ ready (fetched work)
    ∷ record { poll_ok = true; cancelled = true; readable = true; input = broken }
    ∷ []

waits-Reads : Reads true waits (remark ∷ work ∷ [])
waits-Reads = idle refl refl refl (
    read refl refl refl refl (
      read refl refl refl refl (finish refl refl refl refl (idle refl refl refl (stop refl refl)))))

work-IsProper : IsProper work
work-IsProper =
    commands b'r' (codes "oot") two_texts two_named root-IsWord refl two-Lacks two-Batch two-NoCurve
      refl

lines-AllProper : AllProper (remark ∷ work ∷ [])
lines-AllProper = (
  comment (codes " a") (refl, (refl, tt)) refl,
  (λ k. world-Serving),
  (work-IsProper, (λ k. world-Serving), tt),
)

cmd_thread-Ran_example : Ran (remark ∷ work ∷ []) display (cmd_thread true true true waits display)
cmd_thread-Ran_example =
    cmd_thread-Ran waits (remark ∷ work ∷ []) display waits-Reads lines-AllProper display-Sound
