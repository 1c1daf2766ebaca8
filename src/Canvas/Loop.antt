-- ===== src/Canvas/Loop.antt =====
-- The loops `for (uint16_t i = start; test(i); i++)` of display/rendering/canvas.c, on fuel, and
-- the area that such a loop paints.
use ttds.Prelude.{ℕ, zero, suc, ◌+◌, ◌≤◌, ◌<◌, ◌≡◌, ◌∙◌, Bool, true, false, ◌||◌, arith}
use ttds.Prelude.{Bool-cases, inl, inr, ltb}
use ttds.Prelude.Run.{Run, done, spent, ◌>>=◌}
use ttds.Canvas.{Canvas, u16}
use ttds.Canvas.Texel.{IsValid, SameShape, SameShape-refl, SameShape-trans, Area, Ink, Paints}
use ttds.Canvas.Texel.{Paints-nothing, Paints-area, Paints->>=}

-- One round for each value of the counter, and one for the last test.
abbrev pub u16_rounds : ℕ
u16_rounds = 65537

unfoldable pub for_u16 {ℓ} : {S : Type ℓ} → ℕ → (ℕ → Bool) → (ℕ → S → Run S) → ℕ → S → Run S
for_u16 zero test body i c = spent
for_u16 (suc fuel) test body i c = elim (test i) [
  | true ↦ body i c >>= for_u16 fuel test body (u16 (i + 1))
  | false ↦ done c
]

-- The loop's test is `i < last`, its body paints `area i`, and `from i` is the area of the rounds
-- from `i` on.
pub record Rounds (c : Canvas) (test : ℕ → Bool) (body : ℕ → Canvas → Run Canvas) (ink : Ink)
    (last : ℕ) (area from : ℕ → Area) : Type 0 where
  pub last_fits : last < 65536
  pub tests : (i : ℕ) → test i ≡ ltb i last
  pub paints :
      (i : ℕ) (d : Canvas) → i < last → IsValid d → SameShape c d → Paints d (area i) ink (body i d)
  pub next :
      (i x y : ℕ)
      → x < c.width
      → y < c.height
      → i < last
      → (area i x y || from (suc i) x y) ≡ from i x y
  pub end : (i x y : ℕ) → x < c.width → y < c.height → last ≤ i → from i x y ≡ false

module _ {ℓ} {S : Type ℓ} (test : ℕ → Bool) (body : ℕ → S → Run S) (fuel i : ℕ) (c : S) where
  pub for_u16_go :
      test i ≡ true
      → i < 65535
      → for_u16 (suc fuel) test body i c ≡ (body i c >>= for_u16 fuel test body (suc i))
  unfolding for_u16
  for_u16_go e h =
      let wraps_not : u16 (i + 1) ≡ suc i = omega arith in rw (e, for_u16) (rw wraps_not)

  pub for_u16_stop : test i ≡ false → for_u16 (suc fuel) test body i c ≡ done c
  unfolding for_u16
  for_u16_stop e = rw (e, for_u16)

module _ {c : Canvas} {test : ℕ → Bool} {body : ℕ → Canvas → Run Canvas} {ink : Ink} {last : ℕ}
    {area from : ℕ → Area} (r : Rounds c test body ink last area from) where
  -- With enough fuel the loop ends and has painted `from i`.
  pub for_u16-Paints :
      (fuel i : ℕ) (d : Canvas)
      → last < i + fuel
      → 0 < fuel
      → IsValid d
      → SameShape c d
      → Paints d (from i) ink (for_u16 fuel test body i d)
  for_u16-Paints zero i d enough some_left v s = absurd (omega arith)
  for_u16-Paints (suc fuel) i d enough some_left v s = elim (Bool-cases (ltb i last)) [
    | inl go ↦
        let fits = r.last_fits in
        rw (for_u16_go test body fuel i d (r.tests i ∙ go) (ground arith)) (
          Paints-area (from i)
            (λ x y hx hy.
              r.next i x y (rw (← s.width_same) hx) (rw (← s.height_same) hy) (ground arith))
            (Paints->>= (for_u16 fuel test body (suc i)) (from (suc i))
              (r.paints i d (ground arith) v s)
              λ e ve se.
                for_u16-Paints fuel (suc i) e (omega arith) (ground arith) ve
                  (SameShape-trans s se)))
    | inr stop ↦ rw (for_u16_stop test body fuel i d (r.tests i ∙ stop)) (
        Paints-nothing d (from i) ink v λ x y hx hy.
          r.end i x y (rw (← s.width_same) hx) (rw (← s.height_same) hy) (ground arith))
  ]

  -- The loop as the code runs it.
  pub for_u16_rounds-Paints :
      (i : ℕ) → IsValid c → Paints c (from i) ink (for_u16 u16_rounds test body i c)
  for_u16_rounds-Paints i v =
      let fits = r.last_fits in
      for_u16-Paints u16_rounds i c (omega arith) (omega arith) v (SameShape-refl c)
