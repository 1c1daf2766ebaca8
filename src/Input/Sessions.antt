-- ===== src/Input/Sessions.antt =====
-- The sessions of the seat and switching to one of them: `read_seat`, `read_sessions`,
-- `switch_to_tty` and `free_sessions` of display/rendering/drm/input.c. The replies of the login
-- manager are inputs. A string is the list of its bytes.
pub mod Listed
pub mod Names
pub mod Switched
use package.ttds.Prelude.{
  ℕ, zero, suc, ◌+◌, ◌-◌, ◌/◌, ◌%◌, ◌^◌, Bool, true, false, not, ◌&&◌, ◌||◌, List, [], ◌∷◌, ◌++◌,
  Option, none, some, ltb, leb, ◌==◌, if◌then◌else◌,
}
use package.ttds.Prelude.Text.{Bytes, codes, equal, length}
use package.ttds.Prelude.First.{find_first}
use package.ttds.Prelude.Run.{Run, done, fault, fatal, spent, out_of_bounds, ◌>>=◌}

-- `struct session`; a `struct sessions` is the list of its elements.
pub record Session : Type 0 where
  pub name : Bytes
  pub id : Bytes

-- What reading the reply of `ListSessionsEx` gives: a session, with whether there is memory for it,
-- or an error.
pub data Row : Type 0 where
  row : Bytes → Bytes → Bytes → Bool → Row
  broken : Row

-- The loop of `read_sessions`, over what is left of the reply; the list of sessions grows at its end.
unfoldable pub read_rows : Bytes → List Row → List Session → Run (List Session)
unfolding equal
read_rows target_seat [] sessions = done sessions
read_rows target_seat (broken ∷ rows) sessions = fault fatal
read_rows target_seat (row id seat name memory ∷ rows) sessions =
    let kept = read_rows target_seat rows (sessions ++ record { name = name; id = id } ∷ []) in
    let skipped = read_rows target_seat rows sessions in
    if not (equal seat target_seat) then skipped else if memory then kept else fault fatal

-- The reply: whether the call and entering the container succeed, and the rows.
pub record Reply : Type 0 where
  pub call_ok : Bool
  pub container_ok : Bool
  pub rows : List Row

unfoldable pub read_sessions : Reply → Bytes → Run (List Session)
unfolding read_rows
read_sessions reply target_seat =
    if reply.call_ok && reply.container_ok then read_rows target_seat reply.rows [] else fault fatal

-- The reply of `ListSeats`: whether the call succeeds, and the name, if it can be read.
unfoldable pub read_seat : Bool → Option Bytes → Run Bytes
read_seat call_ok (some name) = if call_ok then done name else fault fatal
read_seat call_ok none = fault fatal

-- Decimal digits; a `uint32_t` has at most ten.
unfoldable pub decimal : ℕ → ℕ → Bytes → Bytes
decimal zero n rest = rest
decimal (suc fuel) n rest =
    let more = decimal fuel (n / 10) ((b'0' + n % 10) ∷ rest) in
    if ltb n 10 then (b'0' + n) ∷ rest else more

-- `%d` reads its argument as an `int`.
unfoldable pub print_int : ℕ → Bytes
unfolding decimal
print_int n = if ltb n (2 ^ 31) then decimal 10 n [] else b'-' ∷ decimal 10 (2 ^ 32 - n) []

-- `sprintf` into `target_name[14]`, with the terminator.
unfoldable pub tty_name : ℕ → Run Bytes
unfolding print_int
tty_name id =
    let name = codes "tty" ++ print_int id in
    if leb (length name + 1) 14 then done name else fault out_of_bounds

-- What the thread does to the rest of the system.
pub data Act : Type 0 where
  activate : Bytes → Act
  no_such_session read_failed interrupt : Act

abbrev pub named : Bytes → Session → Bool
named target_name session = equal session.name target_name

-- The rest of `switch_to_tty` after the search; the flag says whether `ActivateSession` succeeds.
unfoldable pub activate_found : Option Session → Bool → Run Act
activate_found none activate_ok = done no_such_session
activate_found (some session) activate_ok =
    if activate_ok then done (activate session.id) else fault fatal

unfoldable pub switch_to_tty : List Session → ℕ → Bool → Run Act
unfolding tty_name find_first equal activate_found
switch_to_tty sessions id activate_ok = tty_name id >>= λ target_name.
    activate_found (find_first (named target_name) sessions) activate_ok

-- What `cleanup` closes and frees; the numbers are places in the array of sessions.
pub data Release : Type 0 where
  bus seat session_array : Release
  session_id session_name : ℕ → Release

unfoldable pub free_sessions_from : ℕ → List Session → List Release
free_sessions_from i [] = session_array ∷ []
free_sessions_from i (s ∷ sessions) =
    session_id i ∷ session_name i ∷ free_sessions_from (i + 1) sessions

unfoldable pub cleanup : List Session → List Release
unfolding free_sessions_from
cleanup sessions = bus ∷ free_sessions_from 0 sessions ++ seat ∷ []
