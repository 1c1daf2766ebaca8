-- ===== src/Input/Devices.antt =====
-- Taking the keyboards: `gather_fds` of display/rendering/drm/input.c. What opening and grabbing the
-- entries of /dev/input gives is an input.
pub mod Grabbed
use package.ttds.Prelude.{
  ℕ, zero, suc, ◌+◌, ◌-◌, ◌/◌, ◌%◌, ◌^◌, Bool, true, false, not, ◌&&◌, ◌||◌, List, [], ◌∷◌, ◌++◌,
  Option, none, some, ltb, leb, ◌==◌, if◌then◌else◌,
}
use package.ttds.Prelude.Text.{length}
use package.ttds.Prelude.Run.{Run, done, fault, fatal, spent, out_of_bounds, ◌>>=◌}
use package.ttds.Input.Keys.{PollFd, pollin}

-- What `readdir` gives: an entry with the descriptor, if it opens, and whether it is grabbed; or an
-- error.
pub data Entry : Type 0 where
  entry : Option ℕ → Bool → Entry
  unlisted : Entry

-- `MAX_INPUTS` of the file, and `MAX_INPUT` of the system's headers.
abbrev pub max_inputs : ℕ
max_inputs = 32

abbrev pub max_input : ℕ
max_input = 255

-- `fds[0]` to `fds[numfds - 1]`, and what was closed.
pub record Inputs : Type 0 where
  pub fds : List PollFd
  pub closed : List ℕ

abbrev pub polled : ℕ → PollFd
polled fd = record { fd = fd; events = pollin; revents = 0 }

-- A write to `fds[numfds]`, in an array of `MAX_INPUTS + 1`.
unfoldable pub append_fd : ℕ → Inputs → Run Inputs
append_fd fd ctx =
    if ltb (length ctx.fds) (max_inputs + 1)
    then done (record ctx { fds = ctx.fds ++ polled fd ∷ [] })
    else fault out_of_bounds

-- The loop of `gather_fds`, over the entries that are left.
unfoldable pub gather_loop : List Entry → Inputs → Run Inputs
unfolding append_fd
gather_loop [] ctx = if leb max_input (length ctx.fds) then fault fatal else done ctx
gather_loop (unlisted ∷ entries) ctx = fault fatal
gather_loop (entry none grabbed ∷ entries) ctx =
    let rest = gather_loop entries ctx in
    if leb max_input (length ctx.fds) then fault fatal else rest
gather_loop (entry (some fd) false ∷ entries) ctx =
    let rest = gather_loop entries (record ctx { closed = ctx.closed ++ fd ∷ [] }) in
    if leb max_input (length ctx.fds) then fault fatal else rest
gather_loop (entry (some fd) true ∷ entries) ctx =
    let rest = (append_fd fd ctx >>= λ ctx'. gather_loop entries ctx') in
    if leb max_input (length ctx.fds) then fault fatal else rest

-- The flag says whether /dev/input can be opened.
unfoldable pub gather_fds : Bool → List Entry → ℕ → Run Inputs
unfolding gather_loop append_fd
gather_fds dir_ok entries cancellation_fd =
    if dir_ok
    then (gather_loop entries (record { fds = []; closed = [] }) >>= λ ctx.
        append_fd cancellation_fd ctx)
    else fault fatal
