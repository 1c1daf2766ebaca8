-- ===== src/Commands/Hex.antt =====
-- Colours of display/threads/commands.c that are written as `#rrggbb`.
use ttds.Prelude.{
  ℕ, ◌+◌, ◌-◌, ◌*◌, ◌/◌, ◌%◌, ◌^◌, ◌<◌, ◌≡◌, refl, true, false, [], ◌∷◌, some, arith, ltb, ◌==◌,
  if◌then◌else◌, ◌∙◌, ap,
}
use ttds.Prelude.Text.{Bytes}
use ttds.Prelude.Int.{pos}
use ttds.Commands.{isspace}
use ttds.Commands.Values.{
  digit, low_bits, read_sign, read_prefix, long_max, read_digits, skip_blanks, strtol, parse_color,
}

-- The digit of a number below 16, in small letters.
abbrev pub hex_digit : ℕ → ℕ
hex_digit d = if ltb d 10 then b'0' + d else b'a' + (d - 10)

-- Two digits.
abbrev pub hex_byte : ℕ → Bytes → Bytes
hex_byte n rest = hex_digit (n / 16) ∷ hex_digit (n % 16) ∷ rest

digit-hex_digit : (d : ℕ) → d < 16 → digit (hex_digit d) ≡ d
digit-hex_digit d h = ground arith

hex_digit-plain :
    (d : ℕ)
    → d < 16
    → (isspace (hex_digit d) ≡ false)
      × ((hex_digit d == b'-') ≡ false)
      × ((hex_digit d == b'+') ≡ false)
      × ((hex_digit d == b'x') ≡ false)
      × ((hex_digit d == b'X') ≡ false)
hex_digit-plain d h = (ground arith, ground arith, ground arith, ground arith, ground arith)

read_digits-hex :
    (acc d : ℕ) (rest : Bytes)
    → d < 16
    → read_digits 16 acc (hex_digit d ∷ rest) ≡ read_digits 16 (acc * 16 + d) rest
unfolding read_digits
read_digits-hex acc d rest h =
    let value = digit-hex_digit d h in
    let small : ltb d 16 ≡ true = ground arith in rw (value, small) refl

read_digits-nil : (acc : ℕ) → read_digits 16 acc [] ≡ (acc, [])
unfolding read_digits
read_digits-nil acc = refl

-- The number that six digits say.
abbrev number : ℕ → ℕ → ℕ → ℕ → ℕ → ℕ → ℕ
number a b c d e f = ((((a * 16 + b) * 16 + c) * 16 + d) * 16 + e) * 16 + f

module _ (a b c d e f : ℕ) (ha : a < 16) (hb : b < 16) (hc : c < 16) (hd : d < 16) (he : e < 16)
    (hf : f < 16) where
  abbrev six : Bytes
  six = hex_digit a ∷ hex_digit b ∷ hex_digit c ∷ hex_digit d ∷ hex_digit e ∷ hex_digit f ∷ []

  skip_blanks-six : skip_blanks six ≡ six
  unfolding skip_blanks
  skip_blanks-six = rw (hex_digit-plain a ha).0 refl

  read_sign-six : read_sign six ≡ (false, six)
  read_sign-six = rw ((hex_digit-plain a ha).1, (hex_digit-plain a ha).2) refl

  read_prefix-six : read_prefix 16 six ≡ (16, six)
  read_prefix-six = ground (arith, hex_digit-plain b hb)

  read_digits-six : read_digits 16 0 six ≡ (number a b c d e f, [])
  read_digits-six =
      read_digits-hex 0 a _ ha
      ∙ (read_digits-hex (0 * 16 + a) b _ hb
          ∙ (read_digits-hex ((0 * 16 + a) * 16 + b) c _ hc
              ∙ (read_digits-hex (((0 * 16 + a) * 16 + b) * 16 + c) d _ hd
                  ∙ (read_digits-hex ((((0 * 16 + a) * 16 + b) * 16 + c) * 16 + d) e _ he
                      ∙ (read_digits-hex (((((0 * 16 + a) * 16 + b) * 16 + c) * 16 + d) * 16 + e) f
                            [] hf
                          ∙ (read_digits-nil _ ∙ ap (λ n. (n, [])) (omega arith)))))))

  strtol-six :
      strtol six 16 ≡ record { value = pos (number a b c d e f); end = []; range_error = false }
  unfolding strtol
  strtol-six =
      let fits : ltb long_max (number a b c d e f) ≡ false = ground arith in
      rw (skip_blanks-six, read_sign-six, read_prefix-six, read_digits-six, fits) refl

-- The bits of the number that are the components.
parts :
    (r g b : ℕ)
    → r < 256
    → g < 256
    → b < 256
    → (low_bits 64 (pos (number (r / 16) (r % 16) (g / 16) (g % 16) (b / 16) (b % 16)))
          / 2 ^ 16
          % 2 ^ 8
        ≡ r)
      × (low_bits 64 (pos (number (r / 16) (r % 16) (g / 16) (g % 16) (b / 16) (b % 16)))
            / 2 ^ 8
            % 2 ^ 8
          ≡ g)
      × (low_bits 8 (pos (number (r / 16) (r % 16) (g / 16) (g % 16) (b / 16) (b % 16))) ≡ b)
parts r g b hr hg hb = (omega arith, omega arith, omega arith)

-- Every colour, written as `#` and two hexadecimal digits for each component, is read back as it
-- was.
pub parse_color-hex_byte :
    (r g b : ℕ)
    → r < 256
    → g < 256
    → b < 256
    → parse_color (b'#' ∷ hex_byte r (hex_byte g (hex_byte b [])))
      ≡ some (record { r = r; g = g; b = b })
unfolding parse_color
parse_color-hex_byte r g b hr hg hb =
    let read =
      strtol-six (r / 16) (r % 16) (g / 16) (g % 16) (b / 16) (b % 16) (omega arith) (omega arith)
        (omega arith) (omega arith) (omega arith) (omega arith) in
    rw (read, (parts r g b hr hg hb).0, (parts r g b hr hg hb).1, (parts r g b hr hg hb).2) refl
