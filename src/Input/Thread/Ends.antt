-- ===== src/Input/Thread/Ends.antt =====
-- How the event loop of display/rendering/drm/input.c ends.
use ttds.Prelude.{
  ℕ, ◌%◌, ◌≡◌, ◌≢◌, ◌⊎◌, true, false, Bool, List, [], ◌∷◌, ◌++◌, inl, inr, refl, ap, ◌∙◌, sym,
  Bool-cases, subst,
}
use ttds.Prelude.Run.{Run, done}
use ttds.Input.Sessions.{Session, Act}
use ttds.Input.Keys.{PollFd, Reading, short, Scan, untouched}
use ttds.Input.Keys.Scans.{
  All, IsStop, Answers, Scanned, cancelled, finished, fds_of, scan_poll-Scanned,
}
use ttds.Input.Thread.{Round, answer, released, after_scan, event_loop}

-- The wait succeeds, and so does what is read and activated after it.
abbrev pub Works : Round → Type 0
Works round = (round.poll_ok ≡ true) × All (λ a. (a.1 ≢ short) × (a.2 ≡ true)) round.answers

-- The descriptor is reported ready.
abbrev pub Reports : ℕ → List ℕ → List (ℕ × Reading × Bool) → Type 0
Reports fd [] answers = ⊥
Reports fd (f ∷ fds) [] = ⊥
Reports fd (f ∷ fds) (a ∷ answers) = ((f ≡ fd) × (a.0 % 2 ≢ 0)) ⊎ Reports fd fds answers

-- In one of the rounds it is.
abbrev pub InSome : ℕ → List ℕ → List Round → Type 0
InSome fd fds [] = ⊥
InSome fd fds (round ∷ rounds) = Reports fd fds round.answers ⊎ InSome fd fds rounds

answer-Answers :
    (fds : List PollFd) (answers : List (ℕ × Reading × Bool))
    → All (λ a. (a.1 ≢ short) × (a.2 ≡ true)) answers
    → All Answers (answer fds answers)
answer-Answers [] answers whole = tt
answer-Answers (p ∷ fds) [] whole = ((λ e. cc, refl), answer-Answers fds [] tt)
answer-Answers (p ∷ fds) (a ∷ answers) whole =
    ((whole.0.0, whole.0.1), answer-Answers fds answers whole.1)

answer-IsStop :
    (fd : ℕ) (fds : List PollFd) (answers : List (ℕ × Reading × Bool))
    → Reports fd (fds_of fds) answers
    → ¬ All (λ s. ¬ IsStop fd s) (answer fds answers)
answer-IsStop fd [] answers reported none_stops = elim reported [ ]
answer-IsStop fd (p ∷ fds) [] reported none_stops = elim reported [ ]
answer-IsStop fd (p ∷ fds) (a ∷ answers) (inl (same, ready)) none_stops = none_stops.0 (ready, same)
answer-IsStop fd (p ∷ fds) (a ∷ answers) (inr later) none_stops =
    answer-IsStop fd fds answers later none_stops.1

fds_of-answer :
    (fds : List PollFd) (answers : List (ℕ × Reading × Bool))
    → fds_of (untouched (answer fds answers)) ≡ fds_of fds
fds_of-answer [] answers = refl
fds_of-answer (p ∷ fds) [] = ap (λ l. p.fd ∷ l) (fds_of-answer fds [])
fds_of-answer (p ∷ fds) (a ∷ answers) = ap (λ l. p.fd ∷ l) (fds_of-answer fds answers)

released-eq : (fds : List PollFd) → released fds ≡ fds_of fds
released-eq [] = refl
released-eq (p ∷ fds) = ap (λ l. p.fd ∷ l) (released-eq fds)

-- What the rounds do up to the one that quits.
pub data Ends (sessions : List Session) (fd : ℕ)
    : List PollFd → List Round → List Act → Type 0 where
  quits :
      {fds : List PollFd} {round : Round} {rounds : List Round} (scan : Scan)
      → Scanned sessions fd (answer fds round.answers) scan
      → scan.quit ≡ true
      → Ends sessions fd fds (round ∷ rounds) scan.acts
  waits :
      {fds : List PollFd} {round : Round} {rounds : List Round} {acts : List Act} (scan : Scan)
      → Scanned sessions fd (answer fds round.answers) scan
      → scan.quit ≡ false
      → Ends sessions fd scan.fds rounds acts
      → Ends sessions fd fds (round ∷ rounds) (scan.acts ++ acts)

-- A round in which the cancellation pipe is ready quits.
quits_if_reported :
    {sessions : List Session} (fd : ℕ) (fds : List PollFd) (answers : List (ℕ × Reading × Bool))
    (scan : Scan)
    → Scanned sessions fd (answer fds answers) scan
    → scan.quit ≡ false
    → ¬ Reports fd (fds_of fds) answers
quits_if_reported fd fds answers scan (cancelled before stop after split others stops does quit)
      goes =
    cc
quits_if_reported fd fds answers scan (finished others does quit all_quiet) goes =
    λ reported. answer-IsStop fd fds answers reported others

after_scan-quit :
    (scan : Scan) (more : Run (List Act × List ℕ))
    → scan.quit ≡ true
    → after_scan scan more ≡ done (scan.acts, released scan.fds)
unfolding after_scan
after_scan-quit scan more quit = rw quit refl

after_scan-goes :
    (scan : Scan) (more : Run (List Act × List ℕ)) {acts : List Act} {fds : List ℕ}
    → scan.quit ≡ false
    → more ≡ done (acts, fds)
    → after_scan scan more ≡ done (scan.acts ++ acts, fds)
unfolding after_scan
after_scan-goes scan more goes ends = rw (goes, ends) refl

-- Where the waits, the reads and the activations succeed and some round finds the cancellation pipe
-- ready, the loop ends: each round before did what `Scanned` says, the last one quits, and every
-- descriptor is let go of.
pub event_loop-Ends :
    (sessions : List Session) (fd : ℕ) (rounds : List Round) (fds : List PollFd)
    → All Works rounds
    → InSome fd (fds_of fds) rounds
    → (acts : List Act) × (event_loop sessions fd rounds fds ≡ done (acts, fds_of fds))
      × Ends sessions fd fds rounds acts
unfolding event_loop
event_loop-Ends sessions fd [] fds works some_round = elim some_round [ ]
event_loop-Ends sessions fd (round ∷ rounds) fds (works, more) some_round =
    let (scan, returns, scanned, same) =
      scan_poll-Scanned sessions fd (answer fds round.answers)
        (answer-Answers fds round.answers works.1) in
    let kept = same ∙ fds_of-answer fds round.answers in
    elim (Bool-cases scan.quit) [
      | inl quit ↦ (
        scan.acts,
        rw (works.0, returns)
            (after_scan-quit scan _ quit
              ∙ ap (λ l. done (scan.acts, l)) (released-eq scan.fds ∙ kept)),
        quits scan scanned quit,
      )
      | inr goes ↦ elim some_round [
        | inl now ↦ absurd (quits_if_reported fd fds round.answers scan scanned goes now)
        | inr later ↦
            let (acts, ends, does) =
              event_loop-Ends sessions fd rounds scan.fds more
                (subst (λ l. InSome fd l rounds) (sym kept) later) in
            (
              scan.acts ++ acts,
              rw (works.0, returns)
                  (after_scan-goes scan _ goes ends ∙ ap (λ l. done (scan.acts ++ acts, l)) kept),
              waits scan scanned goes does,
            )
      ]
    ]
