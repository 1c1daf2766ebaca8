-- ===== src/Canvas/Texel.antt =====
-- The pixels of a canvas as a grid, what it means that a drawing function of
-- display/rendering/canvas.c paints an area, and the area of `draw_point`.
use ttds.Prelude.{ℕ, ◌+◌, ◌*◌, ◌^◌, ◌≤◌, ◌<◌, ◌≡◌, refl, ◌∙◌, ap, ◌-◌, Bool, ◌&&◌, ◌||◌, arith}
use ttds.Prelude.{◌⊎◌, ltb, if◌then◌else◌, Bool-cases, inl, inr, true, false}
use ttds.Prelude.Int.{ℤ, pos, negsuc, pos_part, neg_part, eqb_ℤ}
use ttds.Prelude.Run.{Run, done, ◌>>=◌}
use ttds.Canvas.{Color, Canvas, bgra, u32, within, store, draw_point}

-- Rows do not overlap, the buffer holds them all, and 32 bits hold each offset.
pub record IsValid (c : Canvas) : Type 0 where
  pub width_fits : c.width < 65536
  pub height_fits : c.height < 65536
  pub row_fits : c.width * 4 ≤ c.stride
  pub rows_fit : c.stride * c.height ≤ c.buffer.size
  pub offset_fits : c.stride * c.height ≤ 2 ^ 32

pub record SameShape (c d : Canvas) : Type 0 where
  pub width_same : d.width ≡ c.width
  pub height_same : d.height ≡ c.height
  pub stride_same : d.stride ≡ c.stride
  pub size_same : d.buffer.size ≡ c.buffer.size

pub SameShape-refl : (c : Canvas) → SameShape c c
SameShape-refl c = record {
  width_same = refl;
  height_same = refl;
  stride_same = refl;
  size_same = refl;
}

pub SameShape-trans : {c d e : Canvas} → SameShape c d → SameShape d e → SameShape c e
SameShape-trans s t = record {
  width_same = t.width_same ∙ s.width_same;
  height_same = t.height_same ∙ s.height_same;
  stride_same = t.stride_same ∙ s.stride_same;
  size_same = t.size_same ∙ s.size_same;
}

-- The byte `k` (blue, green, red, alpha) of the pixel in column `x` and row `y`.
unfoldable pub texel : Canvas → ℕ → ℕ → ℕ → ℕ
texel c x y k = c.buffer.byte (c.stride * y + x * 4 + k)

abbrev pub Area : Type 0
Area = ℕ → ℕ → Bool

-- The bytes that a drawing gives to the pixel in column `x` and row `y`.
abbrev pub Ink : Type 0
Ink = ℕ → ℕ → ℕ → ℕ

abbrev pub flat : Color → Ink
flat color x y k = bgra color k

-- The result is a canvas of the same shape on which the pixels of the area have the ink's bytes and
-- all others are as before.
pub record Paints (c : Canvas) (area : Area) (ink : Ink) (r : Run Canvas) : Type 0 where
  pub out : Canvas
  pub returns : r ≡ done out
  pub valid : IsValid out
  pub shape : SameShape c out
  pub pixels :
      (x y k : ℕ)
      → x < c.width
      → y < c.height
      → k < 4
      → texel out x y k ≡ (if area x y then ink x y k else texel c x y k)

abbrev pub point_area : ℤ → ℤ → Area
point_area x y px py = eqb_ℤ x (pos px) && eqb_ℤ y (pos py)

pub row_below : (stride y y' : ℕ) → y < y' → stride * y + stride ≤ stride * y'
row_below stride y y' h = grind arith

pub row_cases :
    (stride y y' : ℕ)
    → (y ≡ y') ⊎ ((stride * y + stride ≤ stride * y') ⊎ (stride * y' + stride ≤ stride * y))
row_cases stride y y' = grind (arith, row_below stride y y', row_below stride y' y)

pub Paints-nothing :
    (c : Canvas) (area : Area) (ink : Ink)
    → IsValid c
    → ((x y : ℕ) → x < c.width → y < c.height → area x y ≡ false)
    → Paints c area ink (done c)
Paints-nothing c area ink v off = record {
  out = c;
  returns = refl;
  valid = v;
  shape = SameShape-refl c;
  pixels = λ x y k hx hy hk. ground (arith, off x y hx hy);
}

pub Paints-area :
    {c : Canvas} {a : Area} {ink : Ink} {r : Run Canvas} (b : Area)
    → ((x y : ℕ) → x < c.width → y < c.height → a x y ≡ b x y)
    → Paints c a ink r
    → Paints c b ink r
Paints-area b same p = record {
  out = p.out;
  returns = p.returns;
  valid = p.valid;
  shape = p.shape;
  pixels = λ x y k hx hy hk. ground (arith, p.pixels x y k hx hy hk, same x y hx hy);
}

pub Paints-ink :
    {c : Canvas} {a : Area} {ink : Ink} {r : Run Canvas} (ink' : Ink)
    → ((x y k : ℕ) → x < c.width → y < c.height → k < 4 → a x y ≡ true → ink x y k ≡ ink' x y k)
    → Paints c a ink r
    → Paints c a ink' r
Paints-ink {c} {a} {ink} ink' same p = record {
  out = p.out;
  returns = p.returns;
  valid = p.valid;
  shape = p.shape;
  pixels = λ x y k hx hy hk. p.pixels x y k hx hy hk ∙ changed x y k hx hy hk (a x y) refl;
}
  where
    changed :
        (x y k : ℕ)
        → x < c.width
        → y < c.height
        → k < 4
        → (b : Bool) → a x y ≡ b
        → (if b then ink x y k else texel c x y k) ≡ (if b then ink' x y k else texel c x y k)
    changed x y k hx hy hk true e = same x y k hx hy hk e
    changed x y k hx hy hk false e = refl

-- One drawing after another.
pub Paints->>= :
    {c : Canvas} {a : Area} {ink : Ink} {r : Run Canvas} (f : Canvas → Run Canvas) (b : Area)
    → Paints c a ink r
    → ((d : Canvas) → IsValid d → SameShape c d → Paints d b ink (f d))
    → Paints c (λ x y. a x y || b x y) ink (r >>= f)
Paints->>= f b p next =
    let q = next p.out p.valid p.shape in
    let s = p.shape in
    record {
      out = q.out;
      returns = rw p.returns q.returns;
      valid = q.valid;
      shape = SameShape-trans s q.shape;
      pixels = λ x y k hx hy hk. ground (
        arith,
        p.pixels x y k hx hy hk,
        q.pixels x y k (rw s.width_same hx) (rw s.height_same hy) hk,
      );
    }

module _ (c : Canvas) (v : IsValid c) where
  -- No offset of a pixel wraps, and each pixel lies inside the buffer.
  pub offset_lem :
      (x y : ℕ)
      → x < c.width
      → y < c.height
      → (u32 (c.stride * y) ≡ c.stride * y) × (c.stride * y + x * 4 + 4 ≤ c.buffer.size)
  offset_lem x y hx hy =
      (omega (arith, row_below c.stride y c.height), omega (arith, row_below c.stride y c.height))

  -- Different pixels share no byte.
  texel_apart :
      (x y px py k : ℕ)
      → x < c.width
      → px < c.width
      → k < 4
      → c.stride * y + x * 4 ≤ c.stride * py + px * 4 + k
      → c.stride * py + px * 4 + k < c.stride * y + x * 4 + 4
      → (x ≡ px) × (y ≡ py)
  texel_apart x y px py k hx hp hk lo hi =
      let same : y ≡ py = omega (arith, row_cases c.stride y py) in
      (omega (arith, ap (λ t. c.stride * t) same), same)

  -- A write of the four bytes of one pixel, read at any pixel.
  within_texel :
      (x y px py k : ℕ) (new : ℕ → ℕ) (old : ℕ)
      → x < c.width
      → px < c.width
      → k < 4
      → within
          (c.stride * y + x * 4)
          4
          (c.stride * py + px * 4 + k)
          (new (c.stride * py + px * 4 + k - (c.stride * y + x * 4)))
          old
        ≡ (if point_area (pos x) (pos y) px py then new k else old)
  within_texel x y px py k new old hx hp hk = elim (Bool-cases (point_area (pos x) (pos y) px py)) [
    | inl hit ↦
        let ex : x ≡ px = ground arith in
        let ey : y ≡ py = ground arith in
        let shift : c.stride * y + x * 4 + k ≡ c.stride * py + px * 4 + k = rw (ex, ey) refl in
        let back : c.stride * py + px * 4 + k - (c.stride * y + x * 4) ≡ k = omega arith in
        rw (hit, back) (ground arith)
    | inr miss ↦ rw miss (ground (arith, texel_apart x y px py k hx hp hk))
  ]

  -- Four bytes stored at the offset of a pixel.
  pub store-Paints :
      (x y : ℕ) (new : ℕ → ℕ)
      → x < c.width
      → y < c.height
      → Paints c
          (point_area (pos x) (pos y))
          (λ _ _ k. new k)
          (store (c.stride * y + x * 4) 4 new c.buffer >>= λ b. done (record c { buffer = b }))
  unfolding store texel
  store-Paints x y new hx hy = record {
    out = record c {
      buffer = record c.buffer {
        byte = λ q.
            within (c.stride * y + x * 4) 4 q (new (q - (c.stride * y + x * 4))) (c.buffer.byte q);
      };
    };
    returns = ground (arith, offset_lem x y hx hy);
    valid = record {
      width_fits = v.width_fits;
      height_fits = v.height_fits;
      row_fits = v.row_fits;
      rows_fit = v.rows_fit;
      offset_fits = v.offset_fits;
    };
    shape = record { width_same = refl; height_same = refl; stride_same = refl; size_same = refl };
    pixels = λ px py k hpx hpy hk. within_texel x y px py k new _ hx hpx hk;
  }

  inside_point :
      (x y : ℕ) (color : Color)
      → x < c.width
      → y < c.height
      → Paints c (point_area (pos x) (pos y)) (flat color) (draw_point c (pos x) (pos y) color)
  unfolding draw_point
  inside_point x y color hx hy =
      rw (inside_store x y color hx hy, (offset_lem x y hx hy).0)
        (store-Paints x y (bgra color) hx hy)
    where
      inside_store :
          (x y : ℕ) (color : Color)
          → x < c.width
          → y < c.height
          → draw_point c (pos x) (pos y) color ≡ (
              store (u32 (c.stride * y) + x * 4) 4 (bgra color) c.buffer >>= λ b.
              done (record c { buffer = b }))
      inside_store x y color hx hy = ground arith

outside :
    (c : Canvas) (x y : ℤ) (color : Color)
    → (pos_part x < neg_part x)
      ⊎ ((pos_part y < neg_part y) ⊎ ((c.width ≤ pos_part x) ⊎ (c.height ≤ pos_part y)))
    → draw_point c x y color ≡ done c
unfolding draw_point
outside c (negsuc x) y color off = ground arith
outside c (pos x) (negsuc y) color off = ground arith
outside c (pos x) (pos y) color off = ground arith

-- For every point, on the canvas or not, `draw_point` on a valid canvas stays inside the buffer;
-- it paints the pixel at the point, if there is one, and changes no other pixel.
pub draw_point-Paints :
    (c : Canvas) (x y : ℤ) (color : Color)
    → IsValid c
    → Paints c (point_area x y) (flat color) (draw_point c x y color)
draw_point-Paints c (negsuc x) y color v =
    rw (outside c (negsuc x) y color (inl (omega arith)))
      (Paints-nothing c _ _ v (λ px py hx hy. ground arith))
draw_point-Paints c (pos x) (negsuc y) color v =
    rw (outside c (pos x) (negsuc y) color (inr (inl (omega arith))))
      (Paints-nothing c _ _ v (λ px py hx hy. ground arith))
draw_point-Paints c (pos x) (pos y) color v = elim (Bool-cases (ltb x c.width && ltb y c.height)) [
  | inl on ↦ inside_point c v x y color (ground arith) (ground arith)
  | inr off ↦
      rw (outside c (pos x) (pos y) color (inr (inr (ground arith))))
        (Paints-nothing c _ _ v (λ px py hx hy. ground arith))
]
