-- ===== src/Rotation.antt =====
-- The thread that shows the panes in turn, of display/threads/ui.c: `cancellable_sleep` and
-- `rotate_panes`, and `ui_thread`, which starts and ends it. What `poll` and the clock answer in a round is an input; a failure of `poll` ends
-- the process. The thread holds the mutex while it looks for the pane and shows it, so the storage
-- is one value in a round; it may be another in the next one.
pub mod Sleep
pub mod Turns
pub mod Ends
mod Tests
use package.ttds.Prelude.{
  ℕ, ◌+◌, zero, suc, ◌-◌, ◌%◌, ◌^◌, Bool, true, false, not, List, [], ◌∷◌, Option, none, some,
}
use package.ttds.Prelude.{ltb, leb, if◌then◌else◌}
use package.ttds.Prelude.Int.{ℤ, pos, negsuc, pos_part, neg_part, ◌+ℤ◌, ◌-ℤ◌, ltb_ℤ, leb_ℤ}
use package.ttds.Prelude.Run.{Run, done, fault, fatal, spent, ◌>>=◌}
use package.ttds.Panes.{Pane, Storage, pane_at}

-- `enum sleep_result`.
pub data SleepResult : Type 0 where
  should_cancel should_switch should_sync : SleepResult

-- What the system answers: whether `poll` succeeds, whether each pipe has a byte, and the clock in
-- milliseconds before and after.
pub record Wake : Type 0 where
  pub poll_ok : Bool
  pub cancelled : Bool
  pub synced : Bool
  pub prior : ℕ
  pub post : ℕ

-- `PANE_DELAY`.
abbrev pub pane_delay : ℤ
pane_delay = pos 5000

-- `(int)post - prior` in an `int`.
unfoldable pub elapsed : Wake → ℤ
elapsed wake =
    let n = (wake.post % 2 ^ 32 + 2 ^ 32 - wake.prior % 2 ^ 32) % 2 ^ 32 in
    if ltb n (2 ^ 31) then pos n else negsuc (2 ^ 32 - 1 - n)

-- `delta`, which counts a short time longer.
unfoldable pub delta : Wake → ℤ
delta wake = if ltb_ℤ (elapsed wake) (pos 20) then elapsed wake +ℤ pos 20 else elapsed wake

unfoldable pub cancellable_sleep : Wake → ℤ → Run (SleepResult × ℤ)
cancellable_sleep wake sleep_time =
    if ltb_ℤ sleep_time (pos 50)
    then done (should_switch, pane_delay)
    else if wake.poll_ok
    then if wake.cancelled
      then done (should_cancel, pane_delay)
      else if wake.synced
      then if leb_ℤ sleep_time (delta wake)
        then done (should_switch, pane_delay)
        else done (should_sync, sleep_time -ℤ delta wake)
      else done (should_switch, pane_delay)
    else fault fatal

-- The variables of the loop of `rotate_panes`.
pub record Rotation : Type 0 where
  pub i : ℕ
  pub sleep_time : ℤ
  pub switching : Bool

unfoldable pub next_index : ℕ → Rotation → ℕ
next_index count r = let i = r.i + (if r.switching then 1 else 0) in if leb count i then 0 else i

-- The end of a round: the loop goes on with new variables, or it returns.
abbrev pub after_sleep : ℕ → SleepResult → ℤ → Option Rotation
after_sleep i should_switch sleep_time =
    some (record { i = i; sleep_time = sleep_time; switching = true })
after_sleep i should_sync sleep_time =
    some (record { i = i; sleep_time = sleep_time; switching = false })
after_sleep i should_cancel sleep_time = none

-- One round: the pane that it hands to `rendering_show`, and how it ends.
unfoldable pub rotate_round : Storage → Wake → Rotation → Run (Pane × Option Rotation)
rotate_round st wake r =
    let i = next_index st.count r in
    (pane_at st i >>= λ p.
    cancellable_sleep wake r.sleep_time >>= λ s. done (p, after_sleep i s.0 s.1))

-- Rounds one after another, each with the storage that it finds: the panes shown.
unfoldable pub rotate_panes : List (Storage × Wake) → Rotation → Run (List Pane × Option Rotation)
rotate_panes [] r = done ([], some r)
rotate_panes ((st, wake) ∷ rounds) r = rotate_round st wake r >>= λ s. elim s.1 [
  | none ↦ done (s.0 ∷ [], none)
  | some r' ↦ rotate_panes rounds r' >>= λ t. done (s.0 ∷ t.0, t.1)
]

-- The variables before the first round.
abbrev pub initial : Rotation
initial = record { i = 0; sleep_time = pane_delay; switching = true }

-- The loop at the end of `ui_thread`, with `left` rounds to go: the panes whose canvas and name it
-- frees.
unfoldable pub free_panes : ℕ → ℕ → Storage → Run (List Pane)
free_panes zero i st = done []
free_panes (suc left) i st =
    pane_at st i >>= λ p. free_panes left (suc i) st >>= λ rest. done (p ∷ rest)

-- `ui_thread`, with whether `pipe`, `write` and the lock succeed, the rounds of the rotation, and the
-- storage that it locks at the end: the panes shown and the panes freed. The rotation runs while this
-- thread waits in `term_block`, and finds the byte that it writes then; it is joined before the end.
-- The result of `pthread_create` is not looked at.
unfoldable pub ui_thread :
    Bool → Bool → Bool → List (Storage × Wake) → Storage → Run (List Pane × List Pane)
ui_thread pipe_ok write_ok lock_ok rounds st =
    if not pipe_ok
    then fault fatal
    else if not write_ok
    then fault fatal
    else (rotate_panes rounds initial >>= λ t. elim t.1 [
      | some waiting ↦ spent
      | none ↦
          if lock_ok then (free_panes st.count 0 st >>= λ freed. done (t.0, freed)) else fault fatal
    ])
