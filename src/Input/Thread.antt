-- ===== src/Input/Thread.antt =====
-- `event_loop` and `drm_input_thread` of display/rendering/drm/input.c. What the system answers is an
-- input.
pub mod Ends
pub mod Whole
use package.ttds.Prelude.{
  ℕ, zero, suc, ◌+◌, ◌-◌, ◌/◌, ◌%◌, ◌^◌, Bool, true, false, not, ◌&&◌, ◌||◌, List, [], ◌∷◌, ◌++◌,
  Option, none, some, ltb, leb, ◌==◌, if◌then◌else◌,
}
use package.ttds.Prelude.Text.{Bytes}
use package.ttds.Prelude.Run.{Run, done, fault, fatal, spent, out_of_bounds, ◌>>=◌}
use package.ttds.Input.Sessions.{
  Session, Reply, Act, Release, read_seat, read_sessions, switch_to_tty, cleanup,
}
use package.ttds.Input.Keys.{PollFd, Reading, unreadable, Source, Scan, scan_poll}
use package.ttds.Input.Devices.{Entry, gather_fds}

-- One wait: whether `poll` succeeds, and per descriptor the events it reports, what reading gives and
-- whether an activation succeeds then; nothing is reported on a descriptor past their end.
pub record Round : Type 0 where
  pub poll_ok : Bool
  pub answers : List (ℕ × Reading × Bool)

abbrev pub answer : List PollFd → List (ℕ × Reading × Bool) → List Source
answer [] answers = []
answer (p ∷ fds) [] =
    record { poll_fd = record p { revents = 0 }; reading = unreadable; activate_ok = true }
    ∷ answer fds []
answer (p ∷ fds) ((revents, reading, activate_ok) ∷ answers) =
    record {
      poll_fd = record p { revents = revents };
      reading = reading;
      activate_ok = activate_ok;
    }
    ∷ answer fds answers

-- The descriptors that `EVIOCGRAB` lets go of.
abbrev pub released : List PollFd → List ℕ
released [] = []
released (p ∷ fds) = p.fd ∷ released fds

-- The end of a round, with what the loop does if it goes on.
unfoldable pub after_scan : Scan → Run (List Act × List ℕ) → Run (List Act × List ℕ)
after_scan scan more =
    if scan.quit
    then done (scan.acts, released scan.fds)
    else (more >>= λ rest. done (scan.acts ++ rest.0, rest.1))

-- The rounds of `poll` until `scan_poll` says to quit, then the release of every descriptor. Where
-- the rounds end before that the loop waits on: `spent`.
unfoldable pub event_loop : List Session → ℕ → List Round → List PollFd → Run (List Act × List ℕ)
unfolding scan_poll after_scan
event_loop sessions cancellation_fd [] fds = spent
event_loop sessions cancellation_fd (round ∷ rounds) fds =
    if round.poll_ok
    then (scan_poll sessions cancellation_fd (answer fds round.answers) >>= λ scan.
        after_scan scan (event_loop sessions cancellation_fd rounds scan.fds))
    else fault fatal

-- What the system answers to `drm_input_thread`.
pub record System : Type 0 where
  pub bus_ok : Bool
  pub seats_ok : Bool
  pub seat_name : Option Bytes
  pub reply : Reply
  pub cancellation_pipe : Option ℕ
  pub dir_ok : Bool
  pub entries : List Entry
  pub rounds : List Round
  pub write_ok : Bool
  pub activate_ok : Bool

-- What the thread did to the system, in order, and what it let go of.
pub record Ended : Type 0 where
  pub acts : List Act
  pub ungrabbed : List ℕ
  pub releases : List Release

-- The event loop runs in a thread of its own, while this one waits in `term_block`; its last round is
-- the one that finds the byte which this thread writes then.
unfoldable pub drm_input_thread : System → Run Ended
unfolding read_seat read_sessions gather_fds event_loop switch_to_tty cleanup
drm_input_thread sys =
    if not sys.bus_ok
    then fault fatal
    else (read_seat sys.seats_ok sys.seat_name >>= λ seat_name.
        read_sessions sys.reply seat_name >>= λ sessions. elim sys.cancellation_pipe [
          | none ↦ fault fatal
          | some cancellation_fd ↦ gather_fds sys.dir_ok sys.entries cancellation_fd >>= λ inputs.
              (if sys.write_ok
                then event_loop sessions cancellation_fd sys.rounds inputs.fds
                else fault fatal)
              >>= λ ran. switch_to_tty sessions 3 sys.activate_ok >>= λ act. done (record {
                acts = ran.0 ++ act ∷ [];
                ungrabbed = ran.1;
                releases = cleanup sessions;
              })
        ])
