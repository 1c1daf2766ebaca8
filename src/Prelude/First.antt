-- ===== src/Prelude/First.antt =====
-- The search of an array for its first element that passes a test, as the loops with `break` do it.
use mathlib.Core.Path.{◌≡◌, refl}
use mathlib.Core.Logic.{inl, inr}
use mathlib.Core.Bool.{Bool, true, false}
use mathlib.Core.Option.{Option, none, some}
use mathlib.Core.List.{List, [], ◌∷◌}
use ttds.Prelude.Tests.{if◌then◌else◌, Bool-cases}

unfoldable pub find_first {ℓ} : {A : Type ℓ} → (A → Bool) → List A → Option A
find_first test [] = none
find_first test (x ∷ xs) = if test x then some x else find_first test xs

-- What the result must be: the first element with a property, or nothing if none has it.
pub data First {ℓ} {A : Type ℓ} (P : A → Type 0) : List A → Option A → Type ℓ where
  nowhere : First P [] none
  here : {x : A} {xs : List A} → P x → First P (x ∷ xs) (some x)
  later : {x : A} {xs : List A} {r : Option A} → ¬ P x → First P xs r → First P (x ∷ xs) r

pub find_first-First {ℓ} :
    {A : Type ℓ} (P : A → Type 0) (test : A → Bool)
    → ((x : A) → test x ≡ true → P x)
    → ((x : A) → test x ≡ false → ¬ P x)
    → (xs : List A) → First P xs (find_first test xs)
unfolding find_first
find_first-First P test sound complete [] = nowhere
find_first-First P test sound complete (x ∷ xs) = elim (Bool-cases (test x)) [
  | inl passes ↦ rw passes (here (sound x passes))
  | inr fails ↦ rw fails (later (complete x fails) (find_first-First P test sound complete xs))
]

pub First-unique {ℓ} :
    {A : Type ℓ} {P : A → Type 0} {xs : List A} {r s : Option A}
    → First P xs r
    → First P xs s
    → r ≡ s
First-unique nowhere nowhere = refl
First-unique (here p) (here q) = refl
First-unique (here p) (later n q) = absurd (n p)
First-unique (later n p) (here q) = absurd (n q)
First-unique (later n p) (later m q) = First-unique p q
