-- ===== src/Canvas/Copy/Overlap.antt =====
-- The loop of `rendering_draw_rect_copy` in display/rendering/canvas.c, against a copy of the
-- pixels as they were before the call.
use ttds.Prelude.{ℕ, zero, suc, ◌+◌, ◌-◌, ◌≤◌, ◌<◌, ◌≡◌, refl, ◌∙◌, Bool, true, false, arith}
use ttds.Prelude.{if◌then◌else◌, Bool-cases, inl, inr, ◌&&◌}
use ttds.Prelude.Int.{ℤ, pos, ◌+ℤ◌, ◌-ℤ◌, ltb_ℤ, leb_ℤ}
use ttds.Prelude.Run.{done, ◌>>=◌}
use ttds.Canvas.{Canvas}
use ttds.Canvas.Texel.{IsValid, SameShape, SameShape-trans, texel}
use ttds.Canvas.Rect.{box_area}
use ttds.Canvas.Copy.{RectCopy, copy_row, copy_rows}
use ttds.Canvas.Copy.Row.{Becomes, moved, copy_row-Becomes}

-- The canvas `c` after its rows from `lo` below `hi` of the copy, `n` pixels wide.
abbrev pub copied : Canvas → RectCopy → ℕ → ℕ → ℕ → ℕ → ℕ → ℕ → ℕ
copied c rc n lo hi x y k =
    if box_area rc.dst_x (rc.dst_x + n) (rc.dst_y + lo) (rc.dst_y + hi) x y
    then texel c (rc.src_x + (x - rc.dst_x)) (rc.src_y + (y - rc.dst_y)) k
    else texel c x y k

pos_next : (i : ℕ) → pos i +ℤ pos 1 ≡ pos (suc i)
unfolding ◌+ℤ◌
pos_next i = ground arith

pos_back : (i : ℕ) → pos (suc i) -ℤ pos 1 ≡ pos i
unfolding ◌-ℤ◌
pos_back i = ground arith

before_zero : (m : ℕ) → (ltb_ℤ (pos 0 -ℤ pos 1) (pos m) && leb_ℤ (pos 0) (pos 0 -ℤ pos 1)) ≡ false
unfolding ◌-ℤ◌
before_zero m = ground arith

module _ (fuel : ℕ) (y_inc : Bool) (rc : RectCopy) (n : ℕ) (h dy : ℤ) (d : Canvas) where
  copy_rows_go :
      (ltb_ℤ dy h && leb_ℤ (pos 0) dy) ≡ true
      → copy_rows (suc fuel) y_inc rc n h dy d ≡ (
          copy_row rc n dy d
          >>= copy_rows fuel y_inc rc n h (if y_inc then dy +ℤ pos 1 else dy -ℤ pos 1))
  unfolding copy_rows
  copy_rows_go e = rw (e, copy_rows)

  pub copy_rows_stop :
      (ltb_ℤ dy h && leb_ℤ (pos 0) dy) ≡ false → copy_rows (suc fuel) y_inc rc n h dy d ≡ done d
  unfolding copy_rows
  copy_rows_stop e = rw (e, copy_rows)

-- The rows done before and after row `i`: those above it if the copy goes down the canvas, and those
-- below it if it goes up.
data Way (rc : RectCopy) (m i lo hi lo' hi' : ℕ) : Type 0 where
  down : rc.dst_y ≤ rc.src_y → lo ≡ 0 → hi ≡ i → lo' ≡ 0 → hi' ≡ suc i → Way rc m i lo hi lo' hi'
  up : rc.src_y < rc.dst_y → lo ≡ suc i → hi ≡ m → lo' ≡ i → hi' ≡ m → Way rc m i lo hi lo' hi'

module _ (rc : RectCopy) (n m i : ℕ) {lo hi lo' hi' : ℕ} where
  -- The source row has not been written yet.
  unread :
      (x : ℕ)
      → Way rc m i lo hi lo' hi'
      → box_area rc.dst_x (rc.dst_x + n) (rc.dst_y + lo) (rc.dst_y + hi) x (rc.src_y + i) ≡ false
  unread x (down h a b e f) = ground arith
  unread x (up h a b e f) = ground arith

  grown_hit :
      (x y : ℕ)
      → i < m
      → Way rc m i lo hi lo' hi'
      → box_area rc.dst_x (rc.dst_x + n) (rc.dst_y + i) (suc (rc.dst_y + i)) x y ≡ true
      → box_area rc.dst_x (rc.dst_x + n) (rc.dst_y + lo') (rc.dst_y + hi') x y ≡ true
  grown_hit x y lt (down h a b e f) hit = ground arith
  grown_hit x y lt (up h a b e f) hit = ground arith

  grown_miss :
      (x y : ℕ)
      → i < m
      → Way rc m i lo hi lo' hi'
      → box_area rc.dst_x (rc.dst_x + n) (rc.dst_y + i) (suc (rc.dst_y + i)) x y ≡ false
      → box_area rc.dst_x (rc.dst_x + n) (rc.dst_y + lo) (rc.dst_y + hi) x y
        ≡ box_area rc.dst_x (rc.dst_x + n) (rc.dst_y + lo') (rc.dst_y + hi') x y
  grown_miss x y lt (down h a b e f) miss = ground arith
  grown_miss x y lt (up h a b e f) miss = ground arith

-- A copy of `n` by `m` pixels lies on the canvas in both places.
pub record OnCanvas (c : Canvas) (rc : RectCopy) (n m : ℕ) : Type 0 where
  pub src_in : rc.src_x + n ≤ c.width
  pub dst_in : rc.dst_x + n ≤ c.width
  pub src_rows_in : rc.src_y + m ≤ c.height
  pub dst_rows_in : rc.dst_y + m ≤ c.height

-- `d` is the canvas in the middle of the loop.
pub record Middle (c : Canvas) (rc : RectCopy) (n lo hi : ℕ) (d : Canvas) : Type 0 where
  pub valid : IsValid d
  pub shape : SameShape c d
  pub pixels :
      (x y k : ℕ) → x < c.width → y < c.height → k < 4 → texel d x y k ≡ copied c rc n lo hi x y k

pub Middle-Becomes :
    {c : Canvas} {rc : RectCopy} {n lo hi : ℕ} {d : Canvas}
    → Middle c rc n lo hi d
    → Becomes c (copied c rc n lo hi) (done d)
Middle-Becomes {d} mid = record {
  out = d;
  returns = refl;
  valid = mid.valid;
  shape = mid.shape;
  pixels = mid.pixels;
}

module _ (c : Canvas) (rc : RectCopy) (n m : ℕ) (on : OnCanvas c rc n m) where
  open on use {src_in, dst_in, src_rows_in, dst_rows_in}

  module _ {i lo hi lo' hi' : ℕ} {d : Canvas} (mid : Middle c rc n lo hi d) (lt : i < m)
      (way : Way rc m i lo hi lo' hi') where
    moved-copied :
        (x y k : ℕ)
        → x < c.width
        → y < c.height
        → k < 4
        → moved d rc n i x y k ≡ copied c rc n lo' hi' x y k
    moved-copied x y k hx hy hk =
        elim (Bool-cases
          (box_area rc.dst_x (rc.dst_x + n) (rc.dst_y + i) (suc (rc.dst_y + i)) x y)) [
            | inl hit ↦
                let row : y - rc.dst_y ≡ i = ground arith in
                let column : x - rc.dst_x < n = ground arith in
                rw (hit, grown_hit rc n m i x y lt way hit, row)
                  (mid.pixels (rc.src_x + (x - rc.dst_x)) (rc.src_y + i) k (omega (arith, src_in))
                      (omega (arith, src_rows_in)) hk
                    ∙ rw (unread rc n m i (rc.src_x + (x - rc.dst_x)) way))
            | inr miss ↦
                rw miss (mid.pixels x y k hx hy hk ∙ rw (grown_miss rc n m i x y lt way miss))
          ]

    row : Becomes d (moved d rc n i) (copy_row rc n (pos i) d)
    row =
        copy_row-Becomes d mid.valid rc n i (rw mid.shape.width_same src_in)
          (rw mid.shape.width_same dst_in) (rw mid.shape.height_same (omega (arith, src_rows_in)))
          (rw mid.shape.height_same (omega (arith, dst_rows_in)))

    row-Middle : Middle c rc n lo' hi' row.out
    row-Middle = record {
      valid = row.valid;
      shape = SameShape-trans mid.shape row.shape;
      pixels = λ x y k hx hy hk.
          row.pixels x y k (rw mid.shape.width_same hx) (rw mid.shape.height_same hy) hk
          ∙ moved-copied x y k hx hy hk;
    }

  pub rows_down :
      (fuel left i : ℕ) (d : Canvas)
      → rc.dst_y ≤ rc.src_y
      → i + left ≡ m
      → left < fuel
      → Middle c rc n 0 i d
      → Becomes c (copied c rc n 0 m) (copy_rows fuel true rc n (pos m) (pos i) d)
  rows_down zero left i d dir all enough mid = absurd (omega arith)
  rows_down (suc fuel) zero i d dir all enough mid =
      let last : i ≡ m = omega arith in
      rw (copy_rows_stop fuel true rc n (pos m) (pos i) d (ground arith))
        (Middle-Becomes (rw last at mid))
  rows_down (suc fuel) (suc left) i d dir all enough mid =
      let way : Way rc m i 0 i 0 (suc i) = down dir refl refl refl refl in
      let lt : i < m = omega arith in
      let next : pos i +ℤ pos 1 ≡ pos (suc i) = pos_next i in
      rw
        (
          copy_rows_go fuel true rc n (pos m) (pos i) d (ground arith),
          (row mid lt way).returns,
          next,
        )
        (rows_down fuel left (suc i) (row mid lt way).out dir (omega arith) (omega arith)
          (row-Middle mid lt way))

  -- `dy` is one less than `i`, and -1 at the end.
  pub rows_up :
      (fuel i : ℕ) (d : Canvas)
      → rc.src_y < rc.dst_y
      → i ≤ m
      → i < fuel
      → Middle c rc n i m d
      → Becomes c (copied c rc n 0 m) (copy_rows fuel false rc n (pos m) (pos i -ℤ pos 1) d)
  rows_up zero i d dir below enough mid = absurd (omega arith)
  rows_up (suc fuel) zero d dir below enough mid =
      rw (copy_rows_stop fuel false rc n (pos m) (pos 0 -ℤ pos 1) d (before_zero m))
        (Middle-Becomes mid)
  rows_up (suc fuel) (suc i) d dir below enough mid =
      let way : Way rc m i (suc i) m i m = up dir refl refl refl refl in
      let lt : i < m = omega arith in
      rw
        (
          pos_back i,
          copy_rows_go fuel false rc n (pos m) (pos i) d (ground arith),
          (row mid lt way).returns,
        )
        (rows_up fuel i (row mid lt way).out dir (omega arith) (omega arith)
          (row-Middle mid lt way))
