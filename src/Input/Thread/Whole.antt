-- ===== src/Input/Thread/Whole.antt =====
-- The whole thread of display/rendering/drm/input.c, from the login manager's replies to `cleanup`.
use ttds.Prelude.{ℕ, ◌≤◌, ◌≡◌, true, some, List, [], ◌∷◌, ◌++◌, refl, ap, sym, subst, arith, leb}
use ttds.Prelude.Text.{Bytes, length}
use ttds.Prelude.Run.{done}
use ttds.Input.Sessions.{Session, Act, read_seat, cleanup}
use ttds.Input.Sessions.Listed.{OnSeat, read_sessions-OnSeat}
use ttds.Input.Sessions.Switched.{Switched, switch_to_tty-Switched}
use ttds.Input.Keys.Scans.{All, fds_of}
use ttds.Input.Devices.{polled}
use ttds.Input.Devices.Grabbed.{Listed, opened_as, polled_all, gather_fds-grabbed}
use ttds.Input.Thread.{System, Ended, drm_input_thread}
use ttds.Input.Thread.Ends.{Works, InSome, Ends, event_loop-Ends}

-- The system answers every call, with a seat, its sessions and a pipe.
pub record Healthy (sys : System) (seat : Bytes) (sessions : List Session) (fd : ℕ) : Type 0 where
  pub bus : sys.bus_ok ≡ true
  pub seats : sys.seats_ok ≡ true
  pub name : sys.seat_name ≡ some seat
  pub reply : (sys.reply.call_ok ≡ true) × (sys.reply.container_ok ≡ true)
  pub rows : OnSeat seat sys.reply.rows sessions
  pub pipe : sys.cancellation_pipe ≡ some fd
  pub dir : sys.dir_ok ≡ true
  pub listed : Listed sys.entries
  pub written : sys.write_ok ≡ true
  pub active : sys.activate_ok ≡ true
  pub works : All Works sys.rounds

-- What the thread has done at its end.
pub record Finished (sys : System) (sessions : List Session) (fd : ℕ) (out : Ended) : Type 0 where
  pub keys : List Act
  pub last : Act
  pub acts : out.acts ≡ keys ++ last ∷ []
  pub ends :
      Ends sessions fd (polled_all (opened_as true sys.entries) ++ polled fd ∷ []) sys.rounds keys
  pub switched : Switched sessions 3 last
  pub ungrabbed : out.ungrabbed ≡ opened_as true sys.entries ++ fd ∷ []

fds_of-polled : (fds : List ℕ) (fd : ℕ) → fds_of (polled_all fds ++ polled fd ∷ []) ≡ fds ++ fd ∷ []
fds_of-polled [] fd = refl
fds_of-polled (f ∷ fds) fd = ap (λ l. f ∷ l) (fds_of-polled fds fd)

-- Where the system answers, at most 32 keyboards are taken, and a round of the event loop finds the
-- byte that the thread writes to the cancellation pipe at the end of the program, the whole thread
-- returns: it did what the keys asked for until then, switched to terminal 3 last, and let go of
-- every keyboard that it took.
pub drm_input_thread-Finished :
    (sys : System) (seat : Bytes) (sessions : List Session) (fd : ℕ)
    → Healthy sys seat sessions fd
    → length (opened_as true sys.entries) ≤ 32
    → InSome fd (opened_as true sys.entries ++ fd ∷ []) sys.rounds
    → (out : Ended) × (drm_input_thread sys ≡ done out) × Finished sys sessions fd out
unfolding drm_input_thread read_seat
drm_input_thread-Finished sys seat sessions fd h few some_round =
    let devices = opened_as true sys.entries in
    let inputs = polled_all devices ++ polled fd ∷ [] in
    let small : leb (length devices) 32 ≡ true = ground arith in
    let (keys, ran, does) =
      event_loop-Ends sessions fd sys.rounds inputs h.works
        (subst (λ l. InSome fd l sys.rounds) (sym (fds_of-polled devices fd)) some_round) in
    let (last, switches, switched) = switch_to_tty-Switched sessions 3 (omega arith) in
    (
      record { acts = keys ++ last ∷ []; ungrabbed = fds_of inputs; releases = cleanup sessions },
      rw
          (
            h.bus,
            h.name,
            h.seats,
            read_sessions-OnSeat sys.reply seat sessions h.reply h.rows,
            h.pipe,
            h.dir,
            gather_fds-grabbed sys.entries fd h.listed,
            small,
            h.written,
            ran,
            h.active,
            switches,
          )
          refl,
      record {
        keys = keys;
        last = last;
        acts = refl;
        ends = does;
        switched = switched;
        ungrabbed = fds_of-polled devices fd;
      },
    )
