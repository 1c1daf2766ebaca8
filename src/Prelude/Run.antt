-- ===== src/Prelude/Run.antt =====
-- The outcome of a C function whose behaviour may be undefined, and of loops that run on fuel.
use mathlib.Core.Path.{◌≡◌, refl}

-- What the C standard leaves undefined: an access outside an object, a read of freed memory, and
-- freeing memory twice; and the end of the process by `FATAL_ERR` or `assert`.
pub data Fault : Type 0 where
  out_of_bounds use_after_free double_free fatal : Fault

-- `spent` says that the model's fuel ran out.
pub data Run {ℓ} (A : Type ℓ) : Type ℓ where
  done : A → Run A
  fault : Fault → Run A
  spent : Run A

infixl 5 ◌>>=◌
abbrev pub ◌>>=◌ {ℓ κ} : {A : Type ℓ} {B : Type κ} → Run A → (A → Run B) → Run B
done a >>= f = f a
fault e >>= f = fault e
spent >>= f = spent

pub >>=-eq-done {ℓ κ} :
    {A : Type ℓ} {B : Type κ} (m : Run A) (f : A → Run B) {b : B}
    → (m >>= f) ≡ done b
    → (a : A) × (m ≡ done a) × (f a ≡ done b)
>>=-eq-done (done a) f h = (a, refl, h)
>>=-eq-done (fault e) f h = cc
>>=-eq-done spent f h = cc

pub >>=-ext {ℓ κ} :
    {A : Type ℓ} {B : Type κ} (m : Run A) (f g : A → Run B)
    → ((a : A) → f a ≡ g a)
    → (m >>= f) ≡ (m >>= g)
>>=-ext (done a) f g same = same a
>>=-ext (fault e) f g same = refl
>>=-ext spent f g same = refl
