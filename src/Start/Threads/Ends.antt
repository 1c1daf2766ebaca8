-- ===== src/Start/Threads/Ends.antt =====
-- That the threads of display/main.c wait for the signal and that all of them can end after it.
use ttds.Prelude.{◌+◌, ◌≤◌, ◌<◌, ◌≡◌, true, false, List, some}
use ttds.Prelude.Text.{length}
use ttds.Termination.{Termination}
use ttds.Start.Threads.{over, ended, Pair, returned, Program, Turn, step, run_turns}
use ttds.Start.Threads.Pairs.{passed}
use ttds.Start.Threads.Places.{all_left, is_ending}
use ttds.Start.Threads.Turns.{After}

-- A turn takes one of the turns that are left.
abbrev CanLower : Program → Type 0
CanLower p = (turn : Turn) × (q : Program) × (step turn p ≡ some q) × (all_left q < all_left p)

abbrev pub finished : Pair
finished = record { parent = over; worker = ended }

-- The three threads and their workers are at their ends.
abbrev pub AllOver : Program → Type 0
AllOver p = (p.ui ≡ finished) × (p.input ≡ finished) × (p.cmd ≡ finished)

-- As many turns as are left, at most, lead to the end of `main`.
pub record Finishes (p : Program) : Type 0 where
  pub turns : List Turn
  pub enough : length turns ≤ all_left p
  pub returns : (run_turns turns p).place ≡ returned
  pub all_over : AllOver (run_turns turns p)

-- A turn past the signal adds nothing to the turns that are left.
abbrev pub AddsNothing : Program → Program → Type 0
AddsNothing p q = (is_ending q.place ≡ true) × (all_left q ≤ all_left p)

-- Where the program stands: before the signal with no thread past `term_block`, or past it with at
-- most 18 turns left, to which no turn adds, and which lead to the end.
pub data Ends (p : Program) : Type 0 where
  asleep :
      is_ending p.place ≡ false
      → passed p.ui.parent + passed p.input.parent + passed p.cmd.parent ≡ 0
      → Ends p
  ending :
      is_ending p.place ≡ true
      → all_left p ≤ 18
      → ((turn : Turn) → After (AddsNothing p) (step turn p))
      → Finishes p
      → Ends p
