-- ===== src/Input/Tests.antt =====
-- The theorems on display/rendering/drm/input.c at one machine: a seat with two sessions, a keyboard,
-- an entry that cannot be grabbed, and three rounds of the event loop.
use ttds.Prelude.{
  ℕ, ◌≡◌, refl, true, false, Bool, List, [], ◌∷◌, ◌++◌, none, some, inl, inr, arith, if◌then◌else◌,
  leb,
}
use ttds.Prelude.Text.{Bytes, codes, length}
use ttds.Prelude.Run.{done, fault, out_of_bounds}
use ttds.Input.Sessions.{
  Session, Row, row, Reply, read_sessions, switch_to_tty, Act, activate, interrupt,
}
use ttds.Input.Sessions.Listed.{OnSeat, finished, kept, skipped, read_sessions-OnSeat}
use ttds.Input.Sessions.Switched.{Switched, switch_to_tty-Switched}
use ttds.Input.Keys.{PollFd, Reading, unreadable, event, Scan, scan_poll, untouched}
use ttds.Input.Keys.Scans.{Scanned, fds_of, scan_poll-Scanned}
use ttds.Input.Devices.{Entry, entry, gather_fds, polled}
use ttds.Input.Devices.Grabbed.{opened_as, polled_all, gather_fds-grabbed}
use ttds.Input.Thread.{Round, answer, System, Ended, drm_input_thread}
use ttds.Input.Thread.Whole.{Healthy, Finished, drm_input_thread-Finished}

abbrev seat0 : Bytes
seat0 = codes "seat0"

abbrev first_session : Session
first_session = record { name = codes "tty1"; id = codes "c1" }

abbrev third_session : Session
third_session = record { name = codes "tty3"; id = codes "c3" }

abbrev sessions : List Session
sessions = first_session ∷ third_session ∷ []

abbrev rows : List Row
rows =
    row (codes "c1") seat0 (codes "tty1") true
    ∷ row (codes "c2") (codes "seat1") (codes "tty3") true
    ∷ row (codes "c3") seat0 (codes "tty3") true
    ∷ []

abbrev reply : Reply
reply = record { call_ok = true; container_ok = true; rows = rows }

rows-OnSeat : OnSeat seat0 rows sessions
rows-OnSeat = kept (codes "c1") (codes "tty1") (
    skipped (codes "c2") (codes "seat1") (codes "tty3") true (λ e. ground arith)
      (kept (codes "c3") (codes "tty3") finished))

read_sessions-OnSeat_example : read_sessions reply seat0 ≡ done sessions
read_sessions-OnSeat_example = read_sessions-OnSeat reply seat0 sessions (refl, refl) rows-OnSeat

switch_to_tty-Switched_example :
    (act : Act) × (switch_to_tty sessions 3 true ≡ done act) × Switched sessions 3 act
switch_to_tty-Switched_example = switch_to_tty-Switched sessions 3 (omega arith)

switch_to_third : switch_to_tty sessions 3 true ≡ done (activate (codes "c3"))
unfolding switch_to_tty
switch_to_third = refl

abbrev key : ℕ → Reading
key code = event (record { kind = 1; code = code; value = 1 })

-- A key 1 that goes down, a device that has nothing, and the cancellation pipe.
abbrev devices : List PollFd
devices = polled 7 ∷ polled 8 ∷ polled 5 ∷ []

abbrev answers : List (ℕ × Reading × Bool)
answers = (1, key 2, true) ∷ (0, unreadable, true) ∷ (1, unreadable, true) ∷ []

scan_poll-Scanned_example :
    (scan : Scan) × (scan_poll sessions 5 (answer devices answers) ≡ done scan)
    × Scanned sessions 5 (answer devices answers) scan
    × (fds_of scan.fds ≡ fds_of (untouched (answer devices answers)))
scan_poll-Scanned_example =
    scan_poll-Scanned sessions 5 (answer devices answers)
      (((λ e. cc), refl), (((λ e. cc), refl), (((λ e. cc), refl), tt)))

abbrev entries : List Entry
entries = entry (some 7) true ∷ entry none true ∷ entry (some 9) false ∷ entry (some 8) true ∷ []

gather_fds-grabbed_example : gather_fds true entries 5 ≡ (
    if leb (length (opened_as true entries)) 32
    then done (record {
      fds = polled_all (opened_as true entries) ++ polled 5 ∷ [];
      closed = opened_as false entries;
    })
    else fault out_of_bounds)
gather_fds-grabbed_example = gather_fds-grabbed entries 5 tt

abbrev rounds : List Round
rounds =
    record { poll_ok = true; answers = (1, key 57, true) ∷ [] }
    ∷ record { poll_ok = true; answers = [] }
    ∷ record { poll_ok = true; answers = answers }
    ∷ []

abbrev machine : System
machine = record {
  bus_ok = true;
  seats_ok = true;
  seat_name = some seat0;
  reply = reply;
  cancellation_pipe = some 5;
  dir_ok = true;
  entries = entries;
  rounds = rounds;
  write_ok = true;
  activate_ok = true;
}

machine-Healthy : Healthy machine seat0 sessions 5
machine-Healthy = record {
  bus = refl;
  seats = refl;
  name = refl;
  reply = (refl, refl);
  rows = rows-OnSeat;
  pipe = refl;
  dir = refl;
  listed = tt;
  written = refl;
  active = refl;
  works = (
    (refl, (((λ e. cc), refl), tt)),
    ((refl, tt), ((refl, (((λ e. cc), refl), (((λ e. cc), refl), (((λ e. cc), refl), tt)))), tt)),
  );
}

drm_input_thread-Finished_example :
    (out : Ended) × (drm_input_thread machine ≡ done out) × Finished machine sessions 5 out
drm_input_thread-Finished_example =
    drm_input_thread-Finished machine seat0 sessions 5 machine-Healthy (omega arith)
      (inr (inr (inl (inr (inr (inl (refl, (λ e. ground arith))))))))

abbrev outcome_of : List Act
outcome_of = interrupt ∷ activate (codes "c1") ∷ activate (codes "c3") ∷ []

machine_runs : (out : Ended) × (drm_input_thread machine ≡ done out) × (out.acts ≡ outcome_of)
unfolding drm_input_thread
machine_runs = (_, refl, refl)
