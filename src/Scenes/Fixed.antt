-- ===== src/Scenes/Fixed.antt =====
-- Binary fractions with ten digits behind the point in place of `float`, for which the loops of the
-- curves of display/testing.c are run.
use ttds.Prelude.{
  ℕ, zero, suc, ◌+◌, ◌*◌, ◌/◌, ◌<◌, ◌≡◌, ◌==◌, refl, Bool, true, false, ◌&&◌, leb, if◌then◌else◌,
  inl, inr, Bool-cases, arith,
}
use ttds.Prelude.Int.{ℤ, pos, negsuc, sub_ℕ, ◌+ℤ◌, ◌-ℤ◌, ◌*ℤ◌, leb_ℤ}
use ttds.Canvas.Bezier.{FloatOps, bezier2_compute, arclen_from, bezier2_arclen_approx}
use ttds.Canvas.Bezier.Points.{Passes, step_of}
use ttds.Scenes.Drawing.{curve_at}
use ttds.Scenes.Returns.{Ends}

-- Division towards 0.
abbrev quotient : ℤ → ℕ → ℤ
quotient (pos n) k = pos (n / k)
quotient (negsuc n) k = sub_ℕ 0 (suc n / k)

abbrev ratio : ℤ → ℤ → ℤ
ratio a (pos k) = quotient (a *ℤ pos 1024) k
ratio a (negsuc k) = pos 0 -ℤ quotient (a *ℤ pos 1024) (suc k)

-- The root of a number below 2^32, by its binary digits from the first on.
abbrev root_from : ℕ → ℕ → ℕ → ℕ → ℕ
root_from zero digit n root = root
root_from (suc left) digit n root =
    root_from left (digit / 2) n
      (if leb ((root + digit) * (root + digit)) n then root + digit else root)

abbrev root : ℤ → ℤ
root (pos n) = pos (root_from 16 32768 (n * 1024) 0)
root (negsuc n) = pos 0

abbrev pub fixed : FloatOps
fixed = record {
  Float = ℤ;
  of_int = λ n. n *ℤ pos 1024;
  plus = λ a b. a +ℤ b;
  minus = λ a b. a -ℤ b;
  times = λ a b. quotient (a *ℤ b) 1024;
  divide = ratio;
  square = λ a. quotient (a *ℤ a) 1024;
  sqrtf = root;
  at_most = leb_ℤ;
  roundf = λ a. quotient (a +ℤ pos 512) 1024;
}

-- Whether the parameter passes 1 in fewer than `fuel` rounds.
abbrev passes : ℕ → ℤ → ℤ → Bool
passes zero dt t = false
passes (suc fuel) dt t = if leb_ℤ t (pos 1024) then passes fuel dt (t +ℤ dt) else true

passes-Passes :
    (fuel : ℕ) (dt t : ℤ) → passes fuel dt t ≡ true → (k : ℕ) × Passes fixed dt t k × (k < fuel)
unfolding ◌*ℤ◌
passes-Passes zero dt t e = absurd (ground (arith, e))
passes-Passes (suc fuel) dt t e = elim (Bool-cases (leb_ℤ t (pos 1024))) [
  | inr over ↦ (0, over, omega arith)
  | inl on ↦
      let (k, more, small) = passes-Passes fuel dt (t +ℤ dt) (ground (arith, e, on)) in
      (suc k, (on, more), omega arith)
]

-- The test for all numbers below a limit.
abbrev all_below : ℕ → (ℕ → Bool) → Bool
all_below zero test = true
all_below (suc n) test = test n && all_below n test

all_below-at : (n i : ℕ) (test : ℕ → Bool) → all_below n test ≡ true → i < n → test i ≡ true
all_below-at zero i test e h = absurd (omega arith)
all_below-at (suc n) i test e h = elim (Bool-cases (i == n)) [
  | inl last ↦ let here : i ≡ n = ground arith in rw here (ground (arith, e))
  | inr other ↦ all_below-at n i test (ground (arith, e)) (ground arith)
]

abbrev curve_passes : ℕ → ℕ → Bool
curve_passes col row = passes 400 (step_of fixed (curve_at 128 128 col row)) (pos 0)

curves_pass : all_below 8 (λ col. all_below 8 (curve_passes col)) ≡ true
unfolding bezier2_compute arclen_from bezier2_arclen_approx ◌+ℤ◌ ◌-ℤ◌ ◌*ℤ◌
curves_pass = refl

pub fixed-Ends : Ends fixed 400
unfolding ◌*ℤ◌
fixed-Ends col row hc hr = passes-Passes 400 (step_of fixed (curve_at 128 128 col row)) (pos 0) (
    all_below-at 8 row (curve_passes col)
      (all_below-at 8 col (λ col. all_below 8 (curve_passes col)) curves_pass hc) hr)
