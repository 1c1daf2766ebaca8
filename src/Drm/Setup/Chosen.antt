-- ===== src/Drm/Setup/Chosen.antt =====
-- Which connector, CRTC and plane display/rendering/drm/drm.c chooses.
use ttds.Prelude.{
  ℕ, ◌<◌, ◌≡◌, ◌≢◌, ◌∙◌, refl, ◌&&◌, List, [], ◌∷◌, Option, none, some, inl, inr, arith, ltb, ◌==◌,
  Bool-cases, subst,
}
use ttds.Prelude.Text.{Bytes, codes, equal, equal_iff}
use ttds.Prelude.First.{First, nowhere, here, later}
use ttds.Prelude.Run.{Run, done, fault, fatal}
use ttds.Drm.Setup.{
  Connector, Crtc, Plane, Card, init_conn, init_crtc, find_type, is_primary_plane, plane_loop,
  init_plane,
}

-- The object of an identifier has the property.
abbrev pub Has : {A : Type 0} → (ℕ → Option A) → (ℕ → A → Type 0) → ℕ → Type 0
Has {A} lookup P id = (x : A) × (lookup id ≡ some x) × P id x

-- The first identifier whose object has the property gives the result; if there is none, the process
-- ends.
pub data Chosen {A : Type 0} (lookup : ℕ → Option A) (P : ℕ → A → Type 0) (ids : List ℕ) (r : Run A)
    : Type 0 where
  found :
      (id : ℕ) (x : A)
      → lookup id ≡ some x
      → First (Has lookup P) ids (some id)
      → r ≡ done x
      → Chosen lookup P ids r
  nobody : First (Has lookup P) ids none → r ≡ fault fatal → Chosen lookup P ids r

-- Every identifier has an object.
abbrev pub Answered : {A : Type 0} → (ℕ → Option A) → List ℕ → Type 0
Answered {A} lookup [] = Unit {0}
Answered {A} lookup (id ∷ ids) = ((x : A) × (lookup id ≡ some x)) × Answered lookup ids

no_other :
    {A : Type 0} (lookup : ℕ → Option A) (P : ℕ → A → Type 0) (id : ℕ) (x : A)
    → lookup id ≡ some x
    → ¬ P id x
    → ¬ Has lookup P id
no_other lookup P id x there unfit (y, is, fits) =
    let same : y ≡ x = cc in unfit (subst (P id) same fits)

module _ {A : Type 0} {lookup : ℕ → Option A} {P : ℕ → A → Type 0} {ids : List ℕ} {r : Run A}
    (id : ℕ) (x : A) (there : lookup id ≡ some x) where
  Chosen-here : P id x → r ≡ done x → Chosen lookup P (id ∷ ids) r
  Chosen-here fits returns = found id x there (here (x, there, fits)) returns

  Chosen-later :
      ¬ P id x → (rest : Run A) → r ≡ rest → Chosen lookup P ids rest → Chosen lookup P (id ∷ ids) r
  Chosen-later unfit rest goes (found id' x' there' first returns) =
      found id' x' there' (later (no_other lookup P id x there unfit) first) (goes ∙ returns)
  Chosen-later unfit rest goes (nobody first ends) =
      nobody (later (no_other lookup P id x there unfit) first) (goes ∙ ends)

-- A screen is connected and has a mode.
abbrev pub IsUsable : ℕ → Connector → Type 0
IsUsable id conn = (conn.connection ≡ 1) × (0 < conn.count_modes)

pub init_conn-Chosen :
    (card : Card) (ids : List ℕ)
    → Answered card.connector ids
    → Chosen card.connector IsUsable ids (init_conn card ids)
unfolding init_conn
init_conn-Chosen card [] answered = nobody nowhere refl
init_conn-Chosen card (id ∷ ids) ((conn, there), answered) =
    elim (Bool-cases (conn.connection == 1 && ltb 0 conn.count_modes)) [
      | inl usable ↦ Chosen-here id conn there (ground arith) (rw (there, usable, init_conn) refl)
      | inr other ↦
          Chosen-later id conn there (λ h. ground arith) _ (rw (there, other, init_conn) refl)
            (init_conn-Chosen card ids answered)
    ]

abbrev pub HasMode : ℕ → Crtc → Type 0
HasMode id crtc = crtc.mode_valid ≢ 0

pub init_crtc-Chosen :
    (card : Card) (ids : List ℕ)
    → Answered card.crtc ids
    → Chosen card.crtc HasMode ids (init_crtc card ids)
unfolding init_crtc
init_crtc-Chosen card [] answered = nobody nowhere refl
init_crtc-Chosen card (id ∷ ids) ((crtc, there), answered) =
    elim (Bool-cases (crtc.mode_valid == 0)) [
      | inl invalid ↦
          Chosen-later id crtc there (λ h. ground arith) _ (rw (there, invalid, init_crtc) refl)
            (init_crtc-Chosen card ids answered)
      | inr valid ↦ Chosen-here id crtc there (ground arith) (rw (there, valid, init_crtc) refl)
    ]

-- The value of the first property with the name `type`; the names before it can be read.
pub data FirstType : List (Option Bytes × ℕ) → ℕ → Type 0 where
  type_here :
      {name : Bytes} {val : ℕ} {props : List (Option Bytes × ℕ)}
      → name ≡ codes "type"
      → FirstType ((some name, val) ∷ props) val
  type_later :
      {name : Bytes} {other val : ℕ} {props : List (Option Bytes × ℕ)}
      → name ≢ codes "type"
      → FirstType props val
      → FirstType ((some name, other) ∷ props) val

find_type-eq :
    {props : List (Option Bytes × ℕ)} {val : ℕ}
    → FirstType props val
    → find_type props ≡ done (val == 1)
unfolding find_type
find_type-eq (type_here {name} named) = rw ((equal_iff name (codes "type")).1 named) refl
find_type-eq (type_later {name} other more) = elim (Bool-cases (equal name (codes "type"))) [
  | inl same ↦ absurd (other ((equal_iff name (codes "type")).0 same))
  | inr differs ↦ rw differs (find_type-eq more)
]

-- A plane has a type.
abbrev pub Typed : Card → ℕ → ℕ → Type 0
Typed card id val =
    (props : List (Option Bytes × ℕ)) × (card.properties id ≡ some props) × FirstType props val

is_primary_plane-eq :
    (card : Card) (id val : ℕ) → Typed card id val → is_primary_plane card id ≡ done (val == 1)
unfolding is_primary_plane
is_primary_plane-eq card id val (props, there, first) =
    rw (there, is_primary_plane) (find_type-eq first)

-- The primary plane of the CRTC, where the types are known.
abbrev pub IsPrimary : (ℕ → ℕ) → Crtc → ℕ → Plane → Type 0
IsPrimary type_of crtc id plane = (plane.crtc_id ≡ crtc.crtc_id) × (type_of id ≡ 1)

plane_loop-Chosen :
    (card : Card) (crtc : Crtc) (type_of : ℕ → ℕ)
    → ((id : ℕ) → Typed card id (type_of id))
    → (ids : List ℕ) → Answered card.plane ids
    → Chosen card.plane (IsPrimary type_of crtc) ids (plane_loop card crtc ids)
unfolding plane_loop
plane_loop-Chosen card crtc type_of typed [] answered = nobody nowhere refl
plane_loop-Chosen card crtc type_of typed (id ∷ ids) ((plane, there), answered) =
    let primary = is_primary_plane-eq card id (type_of id) (typed id) in
    let rest = plane_loop-Chosen card crtc type_of typed ids answered in
    elim (Bool-cases (plane.crtc_id == crtc.crtc_id)) [
      | inr elsewhere ↦
          Chosen-later id plane there (λ h. ground arith) _ (rw (there, elsewhere, plane_loop) refl)
            rest
      | inl on ↦ elim (Bool-cases (type_of id == 1)) [
        | inl yes_primary ↦
            Chosen-here id plane there (ground arith)
              (rw (there, on, primary, yes_primary, plane_loop) refl)
        | inr other ↦
            Chosen-later id plane there (λ h. ground arith) _
              (rw (there, on, primary, other, plane_loop) refl) rest
      ]
    ]

pub init_plane-Chosen :
    (card : Card) (crtc : Crtc) (type_of : ℕ → ℕ) (ids : List ℕ)
    → ((id : ℕ) → Typed card id (type_of id))
    → card.planes ≡ some ids
    → Answered card.plane ids
    → Chosen card.plane (IsPrimary type_of crtc) ids (init_plane card crtc)
unfolding init_plane
init_plane-Chosen card crtc type_of ids typed listed answered =
    rw listed (plane_loop-Chosen card crtc type_of typed ids answered)
