-- ===== src/Input/Sessions/Names.antt =====
-- The name that `switch_to_tty` of display/rendering/drm/input.c prints for a terminal.
use ttds.Prelude.{
  ℕ, zero, suc, ◌+◌, ◌*◌, ◌-◌, ◌/◌, ◌%◌, ◌^◌, ◌≤◌, ◌<◌, ◌≡◌, ◌≢◌, ◌⊎◌, refl, ap, ◌∙◌, true, [], ◌∷◌,
  ◌++◌, inl, inr, arith, ltb, Bool-cases,
}
use ttds.Prelude.Text.{Bytes, codes, length, length-append}
use ttds.Prelude.Run.{done}
use ttds.Input.Sessions.{decimal, print_int, tty_name}

-- The number that decimal digits stand for, after digits that stand for `acc`.
abbrev pub value : ℕ → Bytes → ℕ
value acc [] = acc
value acc (c ∷ ds) = value (acc * 10 + (c - b'0')) ds

abbrev pub AllDigits : Bytes → Type 0
AllDigits [] = Unit {0}
AllDigits (c ∷ ds) = (b'0' ≤ c) × (c ≤ b'9') × AllDigits ds

-- The first digit is not 0.
abbrev pub Leads : Bytes → Type 0
Leads [] = ⊥
Leads (c ∷ ds) = c ≢ b'0'

-- The digits of `n`, with no 0 before them unless `n` is 0.
pub record Numeral (n : ℕ) (ds : Bytes) : Type 0 where
  pub digits : AllDigits ds
  pub denotes : value 0 ds ≡ n
  pub least : (ds ≡ b'0' ∷ []) ⊎ Leads ds

abbrev ten_to : ℕ → ℕ
ten_to zero = 1
ten_to (suc k) = 10 * ten_to k

decimal-AllDigits : (fuel n : ℕ) (rest : Bytes) → AllDigits rest → AllDigits (decimal fuel n rest)
unfolding decimal
decimal-AllDigits zero n rest h = h
decimal-AllDigits (suc fuel) n rest h = elim (Bool-cases (ltb n 10)) [
  | inl small ↦ rw small (ground arith)
  | inr large ↦
      rw large
        (decimal-AllDigits fuel (n / 10) ((b'0' + n % 10) ∷ rest) (omega arith, omega arith, h))
]

value-decimal :
    (fuel n : ℕ) (rest : Bytes) → n < ten_to fuel → value 0 (decimal fuel n rest) ≡ value n rest
unfolding decimal
value-decimal zero n rest h = ap (λ k. value k rest) (omega arith)
value-decimal (suc fuel) n rest h = elim (Bool-cases (ltb n 10)) [
  | inl small ↦ rw small (ap (λ k. value k rest) (omega arith))
  | inr large ↦ rw large (
      value-decimal fuel (n / 10) ((b'0' + n % 10) ∷ rest) (omega arith)
      ∙ ap (λ k. value k rest) (omega arith))
]

decimal-Leads : (fuel n : ℕ) (rest : Bytes) → n < ten_to fuel → 0 < n → Leads (decimal fuel n rest)
unfolding decimal
decimal-Leads zero n rest h pos = absurd (omega arith)
decimal-Leads (suc fuel) n rest h pos = elim (Bool-cases (ltb n 10)) [
  | inl small ↦ rw small (λ e. omega arith)
  | inr large ↦
      rw large (decimal-Leads fuel (n / 10) ((b'0' + n % 10) ∷ rest) (omega arith) (ground arith))
]

length-decimal : (fuel n : ℕ) (rest : Bytes) → length (decimal fuel n rest) ≤ fuel + length rest
unfolding decimal
length-decimal zero n rest = omega arith
length-decimal (suc fuel) n rest = elim (Bool-cases (ltb n 10)) [
  | inl small ↦ rw small (omega arith)
  | inr large ↦ rw large (omega (arith, length-decimal fuel (n / 10) ((b'0' + n % 10) ∷ rest)))
]

print_int-least : (n : ℕ) → n < 2 ^ 31 → (decimal 10 n [] ≡ b'0' ∷ []) ⊎ Leads (decimal 10 n [])
unfolding decimal
print_int-least zero h = inl refl
print_int-least (suc n) h = inr (decimal-Leads 10 (suc n) [] (omega arith) (omega arith))

pub print_int-Numeral : (n : ℕ) → n < 2 ^ 31 → Numeral n (print_int n) × (length (print_int n) ≤ 10)
unfolding print_int
print_int-Numeral n h =
    let positive : ltb n (2 ^ 31) ≡ true = ground arith in
    rw positive (
      record {
        digits = decimal-AllDigits 10 n [] tt;
        denotes = value-decimal 10 n [] (omega arith);
        least = print_int-least n h;
      },
      length-decimal 10 n [],
    )

-- For a number below 2 ^ 31 the name fits into the buffer.
pub tty_name-eq : (id : ℕ) → id < 2 ^ 31 → tty_name id ≡ done (codes "tty" ++ print_int id)
unfolding tty_name
tty_name-eq id h =
    let (numeral, short) = print_int-Numeral id h in
    ground (arith, length-append (codes "tty") (print_int id))
