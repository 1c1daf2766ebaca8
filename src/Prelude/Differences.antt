-- ===== src/Prelude/Differences.antt =====
-- Products and differences of signed integers as differences of native numbers, so that `omega` decides
-- equations between polynomials in them.
use Prim.Native.Nat.{ℕ, ◌+◌, ◌*◌}
use mathlib.Core.Path.{◌≡◌, ap}
use native.Mathlib.Omega.{arith}
use ttds.Prelude.Int.{ℤ, pos, pos_part, neg_part, ◌+ℤ◌, ◌-ℤ◌, ◌*ℤ◌, +ℤ_parts, -ℤ_parts, eq_of_parts}

-- The integer is a - b.
abbrev pub Differs : ℤ → ℕ → ℕ → Type 0
Differs z a b = pos_part z + b ≡ neg_part z + a

pub Differs-sub : (x y : ℕ) → Differs (pos x -ℤ pos y) x y
Differs-sub x y = omega (arith, -ℤ_parts (pos x) (pos y))

module _ (z w : ℤ) (a b c d : ℕ) (e : Differs z a b) (f : Differs w c d) where
  pub Differs-plus : Differs (z +ℤ w) (a + c) (b + d)
  Differs-plus = omega (arith, e, f, +ℤ_parts z w)

  pub Differs-minus : Differs (z -ℤ w) (a + d) (b + c)
  Differs-minus = omega (arith, e, f, -ℤ_parts z w)

  product_parts :
      pos_part (z *ℤ w) + (pos_part z * neg_part w + neg_part z * pos_part w)
      ≡ neg_part (z *ℤ w) + (pos_part z * pos_part w + neg_part z * neg_part w)
  unfolding ◌*ℤ◌
  product_parts = ground arith

  pub Differs-times : Differs (z *ℤ w) (a * c + b * d) (a * d + b * c)
  Differs-times = omega (
    arith,
    product_parts,
    ap (λ n. n * pos_part w) e,
    ap (λ n. n * neg_part w) e,
    ap (λ n. a * n) f,
    ap (λ n. b * n) f,
  )

  pub Differs-eq : a + d ≡ c + b → z ≡ w
  Differs-eq same = eq_of_parts z w (omega (arith, e, f, same))

-- A product of differences, and the sum and the difference of two such products.
pub Differs-product :
    (a b c d : ℕ) → Differs ((pos a -ℤ pos b) *ℤ (pos c -ℤ pos d)) (a * c + b * d) (a * d + b * c)
Differs-product a b c d = Differs-times _ _ a b c d (Differs-sub a b) (Differs-sub c d)

module _ (a b c d e f g h : ℕ) where
  pub Differs-sum_of_products :
      Differs
        ((pos a -ℤ pos b) *ℤ (pos c -ℤ pos d) +ℤ (pos e -ℤ pos f) *ℤ (pos g -ℤ pos h))
        (a * c + b * d + (e * g + f * h))
        (a * d + b * c + (e * h + f * g))
  Differs-sum_of_products =
      Differs-plus _ _ _ _ _ _ (Differs-product a b c d) (Differs-product e f g h)

  pub Differs-minus_of_products :
      Differs
        ((pos a -ℤ pos b) *ℤ (pos c -ℤ pos d) -ℤ (pos e -ℤ pos f) *ℤ (pos g -ℤ pos h))
        (a * c + b * d + (e * h + f * g))
        (a * d + b * c + (e * g + f * h))
  Differs-minus_of_products =
      Differs-minus _ _ _ _ _ _ (Differs-product a b c d) (Differs-product e f g h)
