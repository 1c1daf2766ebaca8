-- ===== src/Input/Keys.antt =====
-- Reading the keyboards: `scan_poll` of display/rendering/drm/input.c. What reading a descriptor gives
-- and whether the login manager activates a session are inputs.
pub mod Pressed
pub mod Scans
use package.ttds.Prelude.{
  ℕ, zero, suc, ◌+◌, ◌-◌, ◌/◌, ◌%◌, ◌^◌, Bool, true, false, not, ◌&&◌, ◌||◌, List, [], ◌∷◌, ◌++◌,
  Option, none, some, ltb, leb, ◌==◌, if◌then◌else◌,
}
use package.ttds.Prelude.Run.{Run, done, fault, fatal, spent, out_of_bounds, ◌>>=◌}
use package.ttds.Input.Sessions.{Session, Act, read_failed, interrupt, switch_to_tty}

-- `struct input_event`, with the bit pattern of the value.
pub record Event : Type 0 where
  pub kind : ℕ
  pub code : ℕ
  pub value : ℕ

-- What `read` gives on a descriptor.
pub data Reading : Type 0 where
  unreadable short : Reading
  event : Event → Reading

-- `struct pollfd`.
pub record PollFd : Type 0 where
  pub fd : ℕ
  pub events : ℕ
  pub revents : ℕ

-- `EV_KEY`, `KEY_SPACE`, `KEY_1` and `KEY_0` of the kernel's headers.
abbrev pub ev_key : ℕ
ev_key = 1

abbrev pub key_space : ℕ
key_space = 57

abbrev pub key_1 : ℕ
key_1 = 2

abbrev pub key_0 : ℕ
key_0 = 11

-- `POLLIN` is the lowest bit.
abbrev pub pollin : ℕ
pollin = 1

-- The rest of the body of the loop of `scan_poll` once an event is read.
unfoldable pub press : List Session → Bool → Event → Run (List Act)
unfolding switch_to_tty
press sessions activate_ok e =
    if not (e.kind == ev_key)
    then done []
    else if not (e.value == ev_key)
    then done []
    else if e.code == key_space
    then done (interrupt ∷ [])
    else if leb key_1 e.code && leb e.code key_0
    then (switch_to_tty sessions (if e.code == key_0 then 0 else e.code - key_1 + 1) activate_ok
        >>= λ act. done (act ∷ []))
    else done []

unfoldable pub handle_reading : List Session → Bool → Reading → Run (List Act)
unfolding press
handle_reading sessions activate_ok unreadable = done (read_failed ∷ [])
handle_reading sessions activate_ok short = fault fatal
handle_reading sessions activate_ok (event e) = press sessions activate_ok e

-- An element of `fds` with what reading it gives and whether an activation succeeds then.
pub record Source : Type 0 where
  pub poll_fd : PollFd
  pub reading : Reading
  pub activate_ok : Bool

abbrev pub masked : PollFd → PollFd
masked p = record p { revents = p.revents % 2 }

abbrev pub cleared : PollFd → PollFd
cleared p = record p { revents = 0 }

-- `fds` afterwards, what was done, and whether the event loop should quit.
pub record Scan : Type 0 where
  pub fds : List PollFd
  pub acts : List Act
  pub quit : Bool

abbrev pub untouched : List Source → List PollFd
untouched [] = []
untouched (s ∷ sources) = s.poll_fd ∷ untouched sources

abbrev pub onto : PollFd → List Act → Scan → Scan
onto p acts s = record s { fds = p ∷ s.fds; acts = acts ++ s.acts }

unfoldable pub scan_poll : List Session → ℕ → List Source → Run Scan
unfolding handle_reading
scan_poll sessions cancellation_fd [] = done (record { fds = []; acts = []; quit = false })
scan_poll sessions cancellation_fd (s ∷ sources) =
    let p = s.poll_fd in
    let rest = scan_poll sessions cancellation_fd sources in
    let skipped = (rest >>= λ scan. done (onto (masked p) [] scan)) in
    let handled =
      (handle_reading sessions s.activate_ok s.reading >>= λ acts.
      rest >>= λ scan. done (onto (cleared p) acts scan)) in
    if p.revents % 2 == 0
    then skipped
    else if p.fd == cancellation_fd
    then done (record { fds = cleared p ∷ untouched sources; acts = []; quit = true })
    else handled
