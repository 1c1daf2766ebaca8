-- ===== src/Input/Sessions/Switched.antt =====
-- Which session `switch_to_tty` of display/rendering/drm/input.c activates.
use ttds.Prelude.{ℕ, ◌^◌, ◌<◌, ◌≡◌, true, List, Option, none, some, ◌++◌, refl}
use ttds.Prelude.Text.{Bytes, codes, equal_iff}
use ttds.Prelude.First.{First, find_first, find_first-First}
use ttds.Prelude.Run.{done}
use ttds.Input.Sessions.{
  Session, Act, activate, no_such_session, named, activate_found, print_int, switch_to_tty,
}
use ttds.Input.Sessions.Names.{Numeral, print_int-Numeral, tty_name-eq}

abbrev pub outcome : Option Session → Act
outcome none = no_such_session
outcome (some session) = activate session.id

activate_found-eq : (found : Option Session) → activate_found found true ≡ done (outcome found)
unfolding activate_found
activate_found-eq none = refl
activate_found-eq (some session) = refl

-- The first session whose name is `tty` with the number, in decimal, is activated.
pub record Switched (sessions : List Session) (id : ℕ) (act : Act) : Type 0 where
  pub digits : Bytes
  pub numeral : Numeral id digits
  pub found : Option Session
  pub first : First (λ session. session.name ≡ codes "tty" ++ digits) sessions found
  pub becomes : act ≡ outcome found

-- Where the login manager activates sessions, switching to a terminal below 2 ^ 31 returns: it has
-- the first session activated whose name is `tty` with the number in decimal and no further zeros,
-- and none if there is no such session.
pub switch_to_tty-Switched :
    (sessions : List Session) (id : ℕ)
    → id < 2 ^ 31
    → (act : Act) × (switch_to_tty sessions id true ≡ done act) × Switched sessions id act
unfolding switch_to_tty
switch_to_tty-Switched sessions id small =
    let name = codes "tty" ++ print_int id in
    let search : First (λ session. session.name ≡ name) sessions
        (find_first (named name) sessions) =
      find_first-First (λ session. session.name ≡ name) (named name)
        (λ s t. (equal_iff s.name name).0 t) (λ s t e. cc (t, (equal_iff s.name name).1 e))
        sessions in
    let found = find_first (named name) sessions in
    (
      outcome found,
      rw (tty_name-eq id small) (activate_found-eq found),
      record {
        digits = print_int id;
        numeral = (print_int-Numeral id small).0;
        found = found;
        first = search;
        becomes = refl;
      },
    )
