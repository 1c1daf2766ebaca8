-- ===== src/Rotation/Ends.antt =====
-- The end of the thread that shows the panes: the rounds of `rotate_panes` after the cancellation, and
-- what `ui_thread` frees, in display/threads/ui.c.
use ttds.Prelude.{
  ℕ, suc, ◌+◌, ◌<◌, ◌≤◌, ◌≡◌, ◌⊎◌, inl, inr, ltb, true, List, [], ◌∷◌, none, some, refl, ap, arith,
  ◌∙◌, Bool-cases, Option-cases,
}
use ttds.Prelude.Text.{length}
use ttds.Prelude.Int.{pos}
use ttds.Prelude.Run.{done}
use ttds.Panes.{Pane, Storage, max_panes}
use ttds.Panes.Registry.{Holds, Represents}
use ttds.Panes.Lookup.{pane_at-owned}
use ttds.Rotation.{
  SleepResult, should_cancel, should_switch, Wake, Rotation, after_sleep, next_index,
  cancellable_sleep, rotate_round, rotate_panes, pane_delay, initial, free_panes, ui_thread,
}
use ttds.Rotation.Sleep.{Monotonic}
use ttds.Rotation.Turns.{rotate_round-Shown, after_sleep-time, rotate_round-sleep}

-- A round that finds a list of panes, a working `poll` and a clock that does not go back.
pub record IsUsual (round : Storage × Wake) : Type 0 where
  pub panes : List Pane
  pub represents : Represents round.0 panes
  pub some_pane : 0 < length panes
  pub poll_ok : round.1.poll_ok ≡ true
  pub monotonic : Monotonic round.1

-- Usual rounds, of which two in a row find the byte that ends the thread.
pub data Cancels : List (Storage × Wake) → Type 0 where
  twice :
      {st st' : Storage} {wake wake' : Wake} {later : List (Storage × Wake)}
      → IsUsual (st, wake)
      → wake.cancelled ≡ true
      → IsUsual (st', wake')
      → wake'.cancelled ≡ true
      → Cancels ((st, wake) ∷ (st', wake') ∷ later)
  before :
      {st : Storage} {wake : Wake} {more : List (Storage × Wake)}
      → IsUsual (st, wake)
      → Cancels more
      → Cancels ((st, wake) ∷ more)

-- A sleep that finds the byte ends the thread, or starts the full time anew.
abbrev IsCut : SleepResult → Type 0
IsCut result = (result ≡ should_switch) ⊎ (result ≡ should_cancel)

cancelled_sleep :
    (wake : Wake) (n : ℕ)
    → wake.poll_ok ≡ true
    → wake.cancelled ≡ true
    → (result : SleepResult) × (cancellable_sleep wake (pos n) ≡ done (result, pane_delay))
      × IsCut result
unfolding cancellable_sleep
cancelled_sleep wake n ok stop = elim (Bool-cases (ltb n 50)) [
  | inl low ↦ (should_switch, ground arith, inl refl)
  | inr enough ↦ (should_cancel, ground arith, inr refl)
]

full_sleep :
    (wake : Wake)
    → wake.poll_ok ≡ true
    → wake.cancelled ≡ true
    → cancellable_sleep wake pane_delay ≡ done (should_cancel, pane_delay)
unfolding cancellable_sleep
full_sleep wake ok stop = ground arith

-- The loop returns.
record Stopped (rounds : List (Storage × Wake)) (r : Rotation) : Type 0 where
  shown : List Pane
  returns : rotate_panes rounds r ≡ done (shown, none)

module _ {st : Storage} {wake : Wake} {more : List (Storage × Wake)} (r : Rotation) where
  Stopped-last :
      (p : Pane) → rotate_round st wake r ≡ done (p, none) → Stopped ((st, wake) ∷ more) r
  unfolding rotate_panes
  Stopped-last p e = record { shown = p ∷ []; returns = rw e refl }

  Stopped-on :
      (p : Pane) (next : Rotation)
      → rotate_round st wake r ≡ done (p, some next)
      → Stopped more next
      → Stopped ((st, wake) ∷ more) r
  unfolding rotate_panes
  Stopped-on p next e rest = record { shown = p ∷ rest.shown; returns = rw (e, rest.returns) refl }

Stopped-full :
    (st : Storage) (wake : Wake) (later : List (Storage × Wake)) (i : ℕ)
    → IsUsual (st, wake)
    → wake.cancelled ≡ true
    → Stopped ((st, wake) ∷ later) (record { i = i; sleep_time = pane_delay; switching = true })
Stopped-full st wake later i usual stop =
    let r : Rotation = record { i = i; sleep_time = pane_delay; switching = true } in
    let (p, at, e) =
      rotate_round-sleep st usual.panes wake r should_cancel pane_delay usual.represents
        usual.some_pane (full_sleep wake usual.poll_ok stop) in
    Stopped-last r p e

rotate_panes-Stopped :
    {rounds : List (Storage × Wake)} (r : Rotation) (n : ℕ)
    → Cancels rounds
    → r.sleep_time ≡ pos n
    → Stopped rounds r
rotate_panes-Stopped r n (twice {st} {st'} {wake} {wake'} {later} usual stop usual' stop') time =
    let (result, sleeps, cut) = cancelled_sleep wake n usual.poll_ok stop in
    let (p, at, e) =
      rotate_round-sleep st usual.panes wake r result pane_delay usual.represents usual.some_pane
        (ap (cancellable_sleep wake) time ∙ sleeps) in
    elim cut [
      | inl switch ↦
          Stopped-on r p _
            (e ∙ ap (λ s. done (p, after_sleep (next_index st.count r) s pane_delay)) switch)
            (Stopped-full st' wake' later _ usual' stop')
      | inr cancel ↦
          Stopped-last r p
            (e ∙ ap (λ s. done (p, after_sleep (next_index st.count r) s pane_delay)) cancel)
    ]
rotate_panes-Stopped r n (before {st} {wake} {more} usual cancels) time =
    let s =
      rotate_round-Shown st usual.panes wake r n usual.represents usual.some_pane time usual.poll_ok
        usual.monotonic in
    elim (Option-cases (after_sleep (next_index st.count r) s.result s.time)) [
      | inl ends ↦ Stopped-last r s.pane (s.returns ∙ ap (λ o. done (s.pane, o)) ends)
      | inr (next, on) ↦
          let (m, left) = after_sleep-time _ n s.result s.time next s.slept on in
          Stopped-on r s.pane next (s.returns ∙ ap (λ o. done (s.pane, o)) on)
            (rotate_panes-Stopped next m cancels left)
    ]

free_panes-all :
    (st : Storage) (ps : List Pane) (i : ℕ)
    → Holds st.slots i ps
    → i + length ps ≤ max_panes
    → free_panes (length ps) i st ≡ done ps
unfolding free_panes
free_panes-all st [] i held room = refl
free_panes-all st (p ∷ ps) i (here, more) room =
    rw (pane_at-owned st i p (omega arith) here, free_panes-all st ps (suc i) more (omega arith))
      refl

freed : (st : Storage) (ps : List Pane) → Represents st ps → free_panes st.count 0 st ≡ done ps
freed st ps rep =
    ap (λ n. free_panes n 0 st) rep.counted
    ∙ free_panes-all st ps 0 rep.held (omega (arith, rep.bounded))

-- If the calls of the system succeed, two rounds that find the byte which ends the thread are enough:
-- whatever the usual rounds before them did, the rotation ends, and then each pane of the list that
-- the storage holds at that time is freed, once, and nothing else. A usual round finds a list of
-- at least one pane, a working `poll` and a clock that does not go back.
pub ui_thread-frees :
    (rounds : List (Storage × Wake)) (st : Storage) (ps : List Pane)
    → Cancels rounds
    → Represents st ps
    → (shown : List Pane) × (ui_thread true true true rounds st ≡ done (shown, ps))
unfolding ui_thread
ui_thread-frees rounds st ps cancels rep =
    let e = rotate_panes-Stopped initial 5000 cancels refl in
    (e.shown, rw (e.returns, freed st ps rep) refl)
