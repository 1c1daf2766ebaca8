-- ===== src/Input/Keys/Scans.antt =====
-- What one pass of `scan_poll` of display/rendering/drm/input.c does.
use ttds.Prelude.{
  ℕ, ◌%◌, ◌≡◌, ◌≢◌, true, false, List, [], ◌∷◌, ◌++◌, inl, inr, refl, arith, ◌==◌, ap, Bool-cases,
}
use ttds.Prelude.Run.{done}
use ttds.Input.Sessions.{Session, Act, read_failed}
use ttds.Input.Keys.{
  PollFd, Reading, unreadable, short, event, Source, Scan, masked, cleared, untouched, onto,
  handle_reading, scan_poll,
}
use ttds.Input.Keys.Pressed.{Does, press-Does}

abbrev pub All {ℓ} : {A : Type ℓ} → (A → Type 0) → List A → Type 0
All P [] = Unit {0}
All P (x ∷ xs) = P x × All P xs

abbrev pub IsReady : Source → Type 0
IsReady s = s.poll_fd.revents % 2 ≢ 0

-- The byte in the cancellation pipe.
abbrev pub IsStop : ℕ → Source → Type 0
IsStop cancellation_fd s = IsReady s × (s.poll_fd.fd ≡ cancellation_fd)

-- A read gives a whole event or fails, and the login manager activates sessions.
abbrev pub Answers : Source → Type 0
Answers s = (s.reading ≢ short) × (s.activate_ok ≡ true)

-- What the events of ready descriptors do, in the order of the descriptors.
pub data Effects (sessions : List Session) : List Source → List Act → Type 0 where
  nothing : Effects sessions [] []
  silent :
      {s : Source} {sources : List Source} {acts : List Act}
      → ¬ IsReady s
      → Effects sessions sources acts
      → Effects sessions (s ∷ sources) acts
  unread :
      {s : Source} {sources : List Source} {acts : List Act}
      → IsReady s
      → s.reading ≡ unreadable
      → Effects sessions sources acts
      → Effects sessions (s ∷ sources) (read_failed ∷ acts)
  pressed :
      {s : Source} {sources : List Source} {acts : List Act} (now : List Act)
      → IsReady s
      → ((e : _) × (s.reading ≡ event e) × Does sessions e now)
      → Effects sessions sources acts
      → Effects sessions (s ∷ sources) (now ++ acts)

abbrev pub fds_of : List PollFd → List ℕ
fds_of [] = []
fds_of (p ∷ fds) = p.fd ∷ fds_of fds

abbrev pub IsQuiet : PollFd → Type 0
IsQuiet p = p.revents ≡ 0

pub data Scanned (sessions : List Session) (cancellation_fd : ℕ) (sources : List Source)
    (scan : Scan) : Type 0 where
  cancelled :
      (before : List Source) (stop : Source) (after : List Source)
      → sources ≡ before ++ stop ∷ after
      → All (λ s. ¬ IsStop cancellation_fd s) before
      → IsStop cancellation_fd stop
      → Effects sessions before scan.acts
      → scan.quit ≡ true
      → Scanned sessions cancellation_fd sources scan
  finished :
      All (λ s. ¬ IsStop cancellation_fd s) sources
      → Effects sessions sources scan.acts
      → scan.quit ≡ false
      → All IsQuiet scan.fds
      → Scanned sessions cancellation_fd sources scan

-- A descriptor in front that is not the one to stop at, and whose effect is known.
Scanned-onto :
    {sessions : List Session} {cancellation_fd : ℕ} {sources : List Source} {scan : Scan}
    (s : Source) (p : PollFd) (now : List Act)
    → ¬ IsStop cancellation_fd s
    → ((rest : List Source) (acts : List Act)
        → Effects sessions rest acts
        → Effects sessions (s ∷ rest) (now ++ acts))
    → IsQuiet p
    → Scanned sessions cancellation_fd sources scan
    → Scanned sessions cancellation_fd (s ∷ sources) (onto p now scan)
Scanned-onto s p now go_on effect quiet
      (cancelled before stop after split others stops does quits) =
    cancelled (s ∷ before) stop after (ap (λ l. s ∷ l) split) (go_on, others) stops
      (effect _ _ does) quits
Scanned-onto s p now go_on effect quiet (finished others does quits all_quiet) =
    finished (go_on, others) (effect _ _ does) quits (quiet, all_quiet)

-- A ready descriptor that reading gives `reading` on has the effect `now`.
abbrev Adds : List Session → Source → List Act → Type 0
Adds sessions s now =
    (rest : List Source) (acts : List Act)
    → Effects sessions rest acts
    → Effects sessions (s ∷ rest) (now ++ acts)

handle_reading-Adds :
    (sessions : List Session) (s : Source) (reading : Reading)
    → IsReady s
    → s.reading ≡ reading
    → reading ≢ short
    → s.activate_ok ≡ true
    → (now : List Act) × (handle_reading sessions s.activate_ok reading ≡ done now)
      × Adds sessions s now
unfolding handle_reading
handle_reading-Adds sessions s unreadable ready reads whole active =
    (read_failed ∷ [], refl, λ rest acts. unread ready reads)
handle_reading-Adds sessions s short ready reads whole active = absurd (whole refl)
handle_reading-Adds sessions s (event e) ready reads whole active =
    let (now, returns, does) = press-Does sessions e in
    (now, rw active returns, λ rest acts more. pressed now ready (e, reads, does) more)

-- While the reads give whole events or fail and the login manager activates sessions, one pass over
-- the descriptors returns. It does what the events of the ready descriptors ask for, in their order,
-- until it meets the cancellation pipe with a byte in it, and quits there; without one it does all of
-- that, does not quit, and leaves no descriptor marked. The descriptors stay what they were.
pub scan_poll-Scanned :
    (sessions : List Session) (cancellation_fd : ℕ) (sources : List Source)
    → All Answers sources
    → (scan : Scan) × (scan_poll sessions cancellation_fd sources ≡ done scan)
      × Scanned sessions cancellation_fd sources scan
      × (fds_of scan.fds ≡ fds_of (untouched sources))
unfolding scan_poll
scan_poll-Scanned sessions cancellation_fd [] answers =
    (record { fds = []; acts = []; quit = false }, refl, finished tt nothing refl tt, refl)
scan_poll-Scanned sessions cancellation_fd (s ∷ sources) ((whole, active), answers) =
    let p = s.poll_fd in
    let (scan, returns, scanned, same) =
      scan_poll-Scanned sessions cancellation_fd sources answers in
    elim (Bool-cases (p.revents % 2 == 0)) [
      | inl idle ↦ (
        onto (masked p) [] scan,
        rw (idle, returns) refl,
        Scanned-onto s (masked p) [] (λ stop. stop.0 (ground arith))
            (λ rest acts. silent (λ ready. ready (ground arith))) (ground arith) scanned,
        ap (λ l. p.fd ∷ l) same,
      )
      | inr ready ↦ elim (Bool-cases (p.fd == cancellation_fd)) [
        | inl stops ↦ (
          record { fds = cleared p ∷ untouched sources; acts = []; quit = true },
          rw (ready, stops) refl,
          cancelled [] s sources refl tt (ground arith, ground arith) nothing refl,
          refl,
        )
        | inr device ↦
            let (now, handles, adds) =
              handle_reading-Adds sessions s s.reading (ground arith) refl whole active in
            (
              onto (cleared p) now scan,
              rw (ready, device, handles, returns) refl,
              Scanned-onto s (cleared p) now (λ stop. ground arith) adds refl scanned,
              ap (λ l. p.fd ∷ l) same,
            )
      ]
    ]
