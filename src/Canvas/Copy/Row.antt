-- ===== src/Canvas/Copy/Row.antt =====
-- One row of `rendering_draw_rect_copy` in display/rendering/canvas.c, and the width that is safe.
use ttds.Prelude.{ℕ, suc, ◌+◌, ◌-◌, ◌*◌, ◌≤◌, ◌<◌, ◌≡◌, refl, ap, ◌==◌, arith}
use ttds.Prelude.{if◌then◌else◌, Bool-cases, inl, inr, min}
use ttds.Prelude.Int.{pos, pos_part, ◌+ℤ◌, leb_ℤ}
use ttds.Prelude.Run.{Run, done}
use ttds.Canvas.{Canvas, u16, within, move}
use ttds.Canvas.Texel.{IsValid, SameShape, texel, row_below, row_cases}
use ttds.Canvas.Rect.{box_area}
use ttds.Canvas.Copy.{RectCopy, safe_len, copy_row}

-- The result is a canvas of the same shape whose pixels are given by `f`.
pub record Becomes (c : Canvas) (f : ℕ → ℕ → ℕ → ℕ) (r : Run Canvas) : Type 0 where
  pub out : Canvas
  pub returns : r ≡ done out
  pub valid : IsValid out
  pub shape : SameShape c out
  pub pixels : (x y k : ℕ) → x < c.width → y < c.height → k < 4 → texel out x y k ≡ f x y k

pub record FitsU16 (rc : RectCopy) : Type 0 where
  pub dst_x_fits : rc.dst_x < 65536
  pub dst_y_fits : rc.dst_y < 65536
  pub src_x_fits : rc.src_x < 65536
  pub src_y_fits : rc.src_y < 65536
  pub w_fits : rc.w < 65536
  pub h_fits : rc.h < 65536

-- The length of a side of the copy, in exact numbers: it is cut at the canvas's edge, as seen from
-- both places.
abbrev pub clipped : ℕ → ℕ → ℕ → ℕ → ℕ
clipped size dst src len = min (min size (dst + len) - dst) (min size (src + len) - src)

pub safe_len_lem :
    (size dst src len : ℕ)
    → dst < 65536
    → src < 65536
    → len < 65536
    → (pos_part (safe_len size dst src len) ≡ clipped size dst src len)
      × (leb_ℤ (safe_len size dst src len) (pos 0) ≡ (clipped size dst src len == 0))
unfolding safe_len
safe_len_lem size dst src len hd hs hl = (ground arith, ground arith)

-- The pixels after row `i` of a copy that is `n` pixels wide.
abbrev pub moved : Canvas → RectCopy → ℕ → ℕ → ℕ → ℕ → ℕ → ℕ
moved c rc n i x y k =
    if box_area rc.dst_x (rc.dst_x + n) (rc.dst_y + i) (suc (rc.dst_y + i)) x y
    then texel c (rc.src_x + (x - rc.dst_x)) (rc.src_y + i) k
    else texel c x y k

row_index :
    (start i height : ℕ)
    → start + i < height
    → height < 65536
    → u16 (pos_part (pos start +ℤ pos i)) ≡ start + i
unfolding ◌+ℤ◌
row_index start i height h fits = ground arith

module _ (c : Canvas) (v : IsValid c) where
  in_buffer :
      (n x y : ℕ) → x + n ≤ c.width → y < c.height → c.stride * y + x * 4 + n * 4 ≤ c.buffer.size
  in_buffer n x y hx hy = omega (arith, row_below c.stride y c.height)

  module _ (rc : RectCopy) (n i : ℕ) (src_in : rc.src_x + n ≤ c.width)
      (dst_in : rc.dst_x + n ≤ c.width) (src_row_in : rc.src_y + i < c.height)
      (dst_row_in : rc.dst_y + i < c.height) where
    -- A byte of a pixel after the `memmove`, in terms of pixels.
    moved_lem :
        (x y k : ℕ)
        → x < c.width
        → k < 4
        → (let d = c.stride * (rc.dst_y + i) + rc.dst_x * 4 in
            let s = c.stride * (rc.src_y + i) + rc.src_x * 4 in
            let q = c.stride * y + x * 4 + k in
            within d (n * 4) q (c.buffer.byte (s + (q - d))) (c.buffer.byte q))
          ≡ moved c rc n i x y k
    unfolding texel
    moved_lem x y k hx hk =
        elim (Bool-cases
          (box_area rc.dst_x (rc.dst_x + n) (rc.dst_y + i) (suc (rc.dst_y + i)) x y)) [
            | inl hit ↦
                let row : y ≡ rc.dst_y + i = ground arith in
                let start : c.stride * y ≡ c.stride * (rc.dst_y + i) = ap (λ t. c.stride * t) row in
                let lo : rc.dst_x ≤ x = ground arith in
                let hi : x < rc.dst_x + n = ground arith in
                let place : c.stride * (rc.src_y + i)
                      + rc.src_x * 4
                      + (c.stride * y + x * 4 + k - (c.stride * (rc.dst_y + i) + rc.dst_x * 4))
                    ≡ c.stride * (rc.src_y + i) + (rc.src_x + (x - rc.dst_x)) * 4 + k =
                  omega arith in
                rw (hit, place) (ground arith)
            | inr miss ↦ rw miss (ground (arith, row_cases c.stride y (rc.dst_y + i)))
          ]

    -- Copying row `i` of a rectangle that lies on the canvas in both places stays inside the
    -- buffer, and moves that row's pixels and no other.
    pub copy_row-Becomes : Becomes c (moved c rc n i) (copy_row rc n (pos i) c)
    unfolding copy_row texel move
    copy_row-Becomes =
        let src_row : u16 (pos_part (pos rc.src_y +ℤ pos i)) ≡ rc.src_y + i =
          row_index rc.src_y i c.height src_row_in v.height_fits in
        let dst_row : u16 (pos_part (pos rc.dst_y +ℤ pos i)) ≡ rc.dst_y + i =
          row_index rc.dst_y i c.height dst_row_in v.height_fits in
        record {
          out = record c {
            buffer = record c.buffer {
              byte = λ q.
                  within (c.stride * (rc.dst_y + i) + rc.dst_x * 4) (n * 4) q
                    (c.buffer.byte (
                      c.stride * (rc.src_y + i)
                      + rc.src_x * 4
                      + (q - (c.stride * (rc.dst_y + i) + rc.dst_x * 4))))
                    (c.buffer.byte q);
            };
          };
          returns =
              rw (src_row, dst_row)
                (ground (
                  arith,
                  in_buffer n rc.src_x (rc.src_y + i) src_in src_row_in,
                  in_buffer n rc.dst_x (rc.dst_y + i) dst_in dst_row_in,
                ));
          valid = record {
            width_fits = v.width_fits;
            height_fits = v.height_fits;
            row_fits = v.row_fits;
            rows_fit = v.rows_fit;
            offset_fits = v.offset_fits;
          };
          shape = record {
            width_same = refl;
            height_same = refl;
            stride_same = refl;
            size_same = refl;
          };
          pixels = λ x y k hx hy hk. moved_lem x y k hx hk;
        }
