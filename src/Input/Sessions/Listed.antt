-- ===== src/Input/Sessions/Listed.antt =====
-- Which sessions `read_sessions` of display/rendering/drm/input.c keeps.
use mathlib.Core.List.{append_assoc, append-nil}
use ttds.Prelude.{
  ◌≡◌, ◌≢◌, refl, sym, ap, ◌∙◌, Bool, true, List, [], ◌∷◌, ◌++◌, inl, inr, Bool-cases,
}
use ttds.Prelude.Text.{Bytes, equal, equal_iff}
use ttds.Prelude.Run.{done}
use ttds.Input.Sessions.{Session, Row, row, read_rows, Reply, read_sessions}

-- The rows are of sessions, and those of the seat find memory. The sessions of the seat are the
-- result, in order.
pub data OnSeat (seat : Bytes) : List Row → List Session → Type 0 where
  finished : OnSeat seat [] []
  kept :
      (id name : Bytes) {rows : List Row} {sessions : List Session}
      → OnSeat seat rows sessions
      → OnSeat seat (row id seat name true ∷ rows) (record { name = name; id = id } ∷ sessions)
  skipped :
      (id other name : Bytes) (memory : Bool) {rows : List Row} {sessions : List Session}
      → other ≢ seat
      → OnSeat seat rows sessions
      → OnSeat seat (row id other name memory ∷ rows) sessions

read_rows-OnSeat :
    {seat : Bytes} {rows : List Row} {sessions : List Session} (before : List Session)
    → OnSeat seat rows sessions
    → read_rows seat rows before ≡ done (before ++ sessions)
unfolding read_rows
read_rows-OnSeat before finished = ap done (sym (append-nil before))
read_rows-OnSeat {seat} before (kept id name {rows} {sessions} more) =
    let same : equal seat seat ≡ true = (equal_iff seat seat).1 refl in
    rw same (
      read_rows-OnSeat (before ++ record { name = name; id = id } ∷ []) more
      ∙ ap done (append_assoc before (record { name = name; id = id } ∷ []) sessions))
read_rows-OnSeat {seat} before (skipped id other name memory ne more) =
    elim (Bool-cases (equal other seat)) [
      | inl same ↦ absurd (ne ((equal_iff other seat).0 same))
      | inr differs ↦ rw differs (read_rows-OnSeat before more)
    ]

-- Where the reply can be read and there is memory for the sessions of the seat, exactly these are the
-- result, in the order of the reply, each with its identifier.
pub read_sessions-OnSeat :
    (reply : Reply) (seat : Bytes) (sessions : List Session)
    → (reply.call_ok ≡ true) × (reply.container_ok ≡ true)
    → OnSeat seat reply.rows sessions
    → read_sessions reply seat ≡ done sessions
unfolding read_sessions
read_sessions-OnSeat reply seat sessions ok rows = rw (ok.0, ok.1) (read_rows-OnSeat [] rows)
