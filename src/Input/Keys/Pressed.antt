-- ===== src/Input/Keys/Pressed.antt =====
-- What a key does, in `scan_poll` of display/rendering/drm/input.c.
use ttds.Prelude.{
  ℕ, ◌+◌, ◌-◌, ◌≤◌, ◌<◌, ◌≡◌, ◌≢◌, true, false, List, [], ◌∷◌, inl, inr, refl, arith, leb, ◌==◌,
  if◌then◌else◌, Bool-cases, ◌&&◌,
}
use ttds.Prelude.Run.{done}
use ttds.Input.Sessions.{Session, Act, interrupt, switch_to_tty}
use ttds.Input.Sessions.Switched.{Switched, switch_to_tty-Switched}
use ttds.Input.Keys.{Event, press}

-- The key with a digit on it: the row of keys starts with 1 and ends with 0.
abbrev pub digit_key : ℕ → ℕ
digit_key d = if d == 0 then 11 else d + 1

-- A key goes down: type `EV_KEY`, and not a release or a repeat.
abbrev pub IsDown : Event → Type 0
IsDown e = (e.kind ≡ 1) × (e.value ≡ 1)

-- What an event does.
pub data Does (sessions : List Session) (e : Event) : List Act → Type 0 where
  other_event : ¬ IsDown e → Does sessions e []
  other_key :
      IsDown e → e.code ≢ 57 → ((d : ℕ) → d < 10 → e.code ≢ digit_key d) → Does sessions e []
  space : IsDown e → e.code ≡ 57 → Does sessions e (interrupt ∷ [])
  digit :
      (d : ℕ) {act : Act}
      → IsDown e
      → d < 10
      → e.code ≡ digit_key d
      → Switched sessions d act
      → Does sessions e (act ∷ [])

abbrev digit_of : ℕ → ℕ
digit_of code = if code == 11 then 0 else code - 2 + 1

digit_of-digit_key :
    (code : ℕ) → 2 ≤ code → code ≤ 11 → (digit_of code < 10) × (code ≡ digit_key (digit_of code))
digit_of-digit_key code low high = ground arith

not_digit : (code d : ℕ) → (leb 2 code && leb code 11) ≡ false → d < 10 → code ≢ digit_key d
not_digit code d outside below e = ground arith

press_digit :
    (sessions : List Session) (e : Event)
    → IsDown e
    → (leb 2 e.code && leb e.code 11) ≡ true
    → (act : Act) × (switch_to_tty sessions (digit_of e.code) true ≡ done act)
      × Does sessions e (act ∷ [])
press_digit sessions e down inside =
    let (below, key) = digit_of-digit_key e.code (ground arith) (ground arith) in
    let (act, returns, switched) =
      switch_to_tty-Switched sessions (digit_of e.code) (omega arith) in
    (act, returns, digit (digit_of e.code) down below key switched)

press_down :
    (sessions : List Session) (e : Event)
    → IsDown e
    → (acts : List Act) × (press sessions true e ≡ done acts) × Does sessions e acts
unfolding press
press_down sessions e down = elim (Bool-cases (e.code == 57)) [
  | inl code ↦ (interrupt ∷ [], rw (down.0, down.1, code) refl, space down (ground arith))
  | inr code ↦ elim (Bool-cases (leb 2 e.code && leb e.code 11)) [
    | inl inside ↦
        let (act, returns, does) = press_digit sessions e down inside in
        (act ∷ [], rw (down.0, down.1, code, inside, returns) refl, does)
    | inr outside ↦ (
      [],
      rw (down.0, down.1, code, outside) refl,
      other_key down (ground arith) (λ d below. not_digit e.code d outside below),
    )
  ]
]

-- Where the login manager activates sessions, every event that is read has its effect, and no other.
pub press-Does :
    (sessions : List Session) (e : Event)
    → (acts : List Act) × (press sessions true e ≡ done acts) × Does sessions e acts
unfolding press
press-Does sessions e = elim (Bool-cases (e.kind == 1)) [
  | inr kind ↦ ([], rw kind refl, other_event (λ h. ground arith))
  | inl kind ↦ elim (Bool-cases (e.value == 1)) [
    | inr value ↦ ([], rw (kind, value) refl, other_event (λ h. ground arith))
    | inl value ↦ press_down sessions e (ground arith)
  ]
]
