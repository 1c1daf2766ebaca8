-- ===== src/Rotation/Turns.antt =====
-- Which panes `rotate_panes` of display/threads/ui.c shows.
use ttds.Prelude.{
  ℕ, zero, suc, ◌+◌, ◌<◌, ◌≡◌, true, false, List, [], ◌∷◌, Option, some, refl, arith,
}
use ttds.Prelude.{◌==◌, ◌∙◌, ap, if◌then◌else◌}
use ttds.Prelude.Text.{length}
use ttds.Prelude.Int.{ℤ, pos}
use ttds.Prelude.Run.{Run, done}
use ttds.Panes.{Pane, Slot, owned, Storage}
use ttds.Panes.Registry.{Holds, Represents}
use ttds.Panes.Lookup.{pane_at-owned}
use ttds.Panes.Draw.{StandsAt, first, later}
use ttds.Rotation.{
  SleepResult, should_cancel, should_switch, should_sync, Wake, Rotation, after_sleep, next_index,
  cancellable_sleep, rotate_round, rotate_panes, pane_delay,
}
use ttds.Rotation.Sleep.{Monotonic, cancellable_sleep-Slept, Slept}

-- The pane at a position of the list, in its slot.
Holds-StandsAt :
    (ps : List Pane) (slots : ℕ → Slot) (i j : ℕ)
    → Holds slots i ps
    → j < length ps
    → (p : Pane) × (slots (i + j) ≡ owned p) × StandsAt ps j p
Holds-StandsAt [] slots i j h below = absurd (omega arith)
Holds-StandsAt (p ∷ ps) slots i zero (here, more) below = (p, ap slots (omega arith) ∙ here, first)
Holds-StandsAt (p ∷ ps) slots i (suc j) (here, more) below =
    let (q, slot, at) = Holds-StandsAt ps slots (suc i) j more (omega arith) in
    (q, ap slots (omega arith) ∙ slot, later at)

pub next_index-lt : (count : ℕ) (r : Rotation) → 0 < count → next_index count r < count
unfolding next_index
next_index-lt count r some_pane = ground arith

-- The round shows the pane at `i` and ends as the sleep says, which starts from the sleep time.
pub record Shown (ps : List Pane) (i before : ℕ) (r : Run (Pane × Option Rotation)) : Type 0 where
  pub pane : Pane
  pub result : SleepResult
  pub time : ℤ
  pub returns : r ≡ done (pane, after_sleep i result time)
  pub stands : StandsAt ps i pane
  pub slept : Slept before result time

-- What a round that goes on leaves.
pub after_sleep-time :
    (i before : ℕ) (result : SleepResult) (time : ℤ) (next : Rotation)
    → Slept before result time
    → after_sleep i result time ≡ some next
    → (n : ℕ) × (next.sleep_time ≡ pos n)
after_sleep-time i before should_switch time next slept e = (5000, ground arith)
after_sleep-time i before should_sync time next slept e = (slept.0, ground arith)
after_sleep-time i before should_cancel time next slept e = cc

-- A round whose sleep is known.
pub rotate_round-sleep :
    (st : Storage) (ps : List Pane) (wake : Wake) (r : Rotation) (result : SleepResult) (time : ℤ)
    → Represents st ps
    → 0 < length ps
    → cancellable_sleep wake r.sleep_time ≡ done (result, time)
    → (p : Pane) × StandsAt ps (next_index st.count r) p
      × (rotate_round st wake r ≡ done (p, after_sleep (next_index st.count r) result time))
unfolding rotate_round
rotate_round-sleep st ps wake r result time rep some_pane sleeps =
    let i = next_index st.count r in
    let below : i < length ps =
      omega (arith, next_index-lt st.count r (omega (arith, rep.counted)), rep.counted) in
    let (p, slot, at) = Holds-StandsAt ps st.slots 0 i rep.held below in
    let slot_i : st.slots i ≡ owned p = ap st.slots (omega arith) ∙ slot in
    (p, at, rw (pane_at-owned st i p (omega (arith, rep.bounded)) slot_i, sleeps) refl)

-- While there is a pane, a round never faults: it shows the pane of the list that stands at the next
-- index, whatever happened to the list since the round before, and goes on as the sleep says.
pub rotate_round-Shown :
    (st : Storage) (ps : List Pane) (wake : Wake) (r : Rotation) (before : ℕ)
    → Represents st ps
    → 0 < length ps
    → r.sleep_time ≡ pos before
    → wake.poll_ok ≡ true
    → Monotonic wake
    → Shown ps (next_index st.count r) before (rotate_round st wake r)
rotate_round-Shown st ps wake r before rep some_pane time ok mono =
    let (result, left, sleeps, slept) = cancellable_sleep-Slept wake before ok mono in
    let (p, at, returns) =
      rotate_round-sleep st ps wake r result left rep some_pane
        (ap (cancellable_sleep wake) time ∙ sleeps) in
    record { pane = p; result = result; time = left; returns = returns; stands = at; slept = slept }

-- The place behind `i` in a circle of `n` places.
abbrev pub turn : ℕ → ℕ → ℕ
turn n i = if i + 1 == n then 0 else i + 1

-- The panes of the list from the one behind `i` on, in a circle.
abbrev pub InTurn : List Pane → ℕ → List Pane → Type 0
InTurn ps i [] = Unit {0}
InTurn ps i (p ∷ shown) = StandsAt ps (turn (length ps) i) p × InTurn ps (turn (length ps) i) shown

abbrev pub repeat : ℕ → Storage × Wake → List (Storage × Wake)
repeat zero round = []
repeat (suc k) round = round ∷ repeat k round

-- The variables after a switch.
abbrev pub switched : ℕ → Rotation
switched i = record { i = i; sleep_time = pane_delay; switching = true }

turn-lt : (n i : ℕ) → i < n → turn n i < n
turn-lt n i h = ground arith

next_index-turn : (n i : ℕ) → i < n → next_index n (switched i) ≡ turn n i
unfolding next_index
next_index-turn n i h = ground arith

-- A round that nothing interrupts.
quiet_round :
    (st : Storage) (ps : List Pane) (wake : Wake) (i : ℕ)
    → Represents st ps
    → i < length ps
    → wake.poll_ok ≡ true
    → (wake.cancelled ≡ false) × (wake.synced ≡ false)
    → (p : Pane) × (StandsAt ps (turn (length ps) i) p)
      × (rotate_round st wake (switched i) ≡ done (p, some (switched (turn (length ps) i))))
unfolding rotate_round cancellable_sleep
quiet_round st ps wake i rep below ok quiet =
    let n = length ps in
    let j = turn n i in
    let place : next_index st.count (switched i) ≡ j =
      ap (λ k. next_index k (switched i)) rep.counted ∙ next_index-turn n i below in
    let inside : j < n = turn-lt n i below in
    let (p, slot, at) = Holds-StandsAt ps st.slots 0 j rep.held inside in
    let slot_j : st.slots j ≡ owned p = ap st.slots (omega arith) ∙ slot in
    (p, at, rw (place, pane_at-owned st j p (omega (arith, rep.bounded)) slot_j) (ground arith))

-- While nobody touches the list and nothing interrupts the sleeps, the thread shows one pane per
-- round, in the order of the list and from its end to its beginning again: any number of rounds
-- returns that many panes, in turn.
pub rotate_panes-InTurn :
    (k : ℕ) (st : Storage) (ps : List Pane) (wake : Wake) (i : ℕ)
    → Represents st ps
    → i < length ps
    → wake.poll_ok ≡ true
    → (wake.cancelled ≡ false) × (wake.synced ≡ false)
    → (shown : List Pane) × (j : ℕ) × (rotate_panes (repeat k (st, wake)) (switched i)
        ≡ done (shown, some (switched j)))
      × (length shown ≡ k)
      × InTurn ps i shown
unfolding rotate_panes
rotate_panes-InTurn zero st ps wake i rep below ok quiet = ([], i, refl, refl, tt)
rotate_panes-InTurn (suc k) st ps wake i rep below ok quiet =
    let (p, at, round) = quiet_round st ps wake i rep below ok quiet in
    let (shown, j, rounds, long, order) =
      rotate_panes-InTurn k st ps wake (turn (length ps) i) rep (turn-lt (length ps) i below) ok
        quiet in
    (p ∷ shown, j, rw (round, rounds) refl, omega arith, (at, order))
