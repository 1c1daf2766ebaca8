-- ===== src/Canvas/Copy/Snapshot.antt =====
-- `rendering_draw_rect_copy` in display/rendering/canvas.c as a whole: the clipping, the direction
-- of the loop, and the pixels.
use ttds.Prelude.{ℕ, ◌<◌, ◌≡◌, refl, ◌∙◌, Bool, true, false, arith}
use ttds.Prelude.{if◌then◌else◌, Bool-cases, inl, inr, leb, ◌&&◌, ◌||◌, ◌==◌, ap}
use ttds.Prelude.Int.{ℤ, pos, pos_part, ◌-ℤ◌, ltb_ℤ, leb_ℤ}
use ttds.Prelude.Run.{done}
use ttds.Canvas.{Canvas}
use ttds.Canvas.Texel.{IsValid, SameShape-refl}
use ttds.Canvas.Loop.{u16_rounds}
use ttds.Canvas.Copy.{RectCopy, safe_len, copy_rows, rendering_draw_rect_copy}
use ttds.Canvas.Copy.Row.{Becomes, FitsU16, clipped, safe_len_lem}
use ttds.Canvas.Copy.Overlap.{copied, copy_rows_stop, OnCanvas, Middle, rows_down, rows_up}

pos-pos_part : (z : ℤ) → leb_ℤ z (pos 0) ≡ false → z ≡ pos (pos_part z)
pos-pos_part z h = ground arith

-- The loop does not start on a height that is not positive.
no_rows :
    (z : ℤ) (y_inc : Bool)
    → leb_ℤ z (pos 0) ≡ true
    → (let start = if y_inc then pos 0 else z -ℤ pos 1 in ltb_ℤ start z && leb_ℤ (pos 0) start)
      ≡ false
unfolding ◌-ℤ◌
no_rows z true h = ground arith
no_rows z false h = ground arith

abbrev pub copy_width : Canvas → RectCopy → ℕ
copy_width c rc = clipped c.width rc.dst_x rc.src_x rc.w

abbrev pub copy_height : Canvas → RectCopy → ℕ
copy_height c rc = clipped c.height rc.dst_y rc.src_y rc.h

module _ (c : Canvas) (rc : RectCopy) (v : IsValid c) (f : FitsU16 rc) where
  unchanged : (n m : ℕ) → (n == 0 || m == 0) ≡ true → Becomes c (copied c rc n 0 m) (done c)
  unchanged n m h = record {
    out = c;
    returns = refl;
    valid = v;
    shape = SameShape-refl c;
    pixels = λ x y k hx hy hk. ground arith;
  }

  on_canvas :
      (n m : ℕ) → n ≡ copy_width c rc → m ≡ copy_height c rc → 0 < n → 0 < m → OnCanvas c rc n m
  on_canvas n m en em hn hm = omega arith

  all_rows :
      (n m : ℕ)
      → OnCanvas c rc n m
      → 0 < n
      → 0 < m
      → (y_inc : Bool) → leb rc.dst_y rc.src_y ≡ y_inc
      → Becomes c
          (copied c rc n 0 m)
          (copy_rows u16_rounds y_inc rc n (pos m) (if y_inc then pos 0 else pos m -ℤ pos 1) c)
  all_rows n m on hn hm true way =
      rows_down c rc n m on u16_rounds m 0 c (ground arith) (omega arith)
        (omega (arith, v.height_fits, on.src_rows_in)) start
    where
      start : Middle c rc n 0 0 c
      start = record {
        valid = v;
        shape = SameShape-refl c;
        pixels = λ x y k hx hy hk. ground arith;
      }
  all_rows n m on hn hm false way =
      rows_up c rc n m on u16_rounds m c (ground arith) (omega arith)
        (omega (arith, v.height_fits, on.src_rows_in)) start
    where
      start : Middle c rc n m m c
      start = record {
        valid = v;
        shape = SameShape-refl c;
        pixels = λ x y k hx hy hk. ground arith;
      }

  some_rows :
      (n m : ℕ) (z : ℤ)
      → n ≡ copy_width c rc
      → m ≡ copy_height c rc
      → 0 < n
      → pos_part z ≡ m
      → leb_ℤ z (pos 0) ≡ (m == 0)
      → (y_inc : Bool) → leb rc.dst_y rc.src_y ≡ y_inc
      → Becomes c
          (copied c rc n 0 m)
          (copy_rows u16_rounds y_inc rc n z (if y_inc then pos 0 else z -ℤ pos 1) c)
  some_rows n m z en em hn ez hz y_inc way = elim (Bool-cases (m == 0)) [
    | inl empty ↦
        rw
          (copy_rows_stop 65536 y_inc rc n z (if y_inc then pos 0 else z -ℤ pos 1) c
            (no_rows z y_inc (hz ∙ empty)))
          (unchanged n m (ground arith))
    | inr full ↦
        let e : z ≡ pos m = pos-pos_part z (hz ∙ full) ∙ ap pos ez in
        let hm : 0 < m = ground arith in
        rw e (all_rows n m (on_canvas n m en em hn hm) hn hm y_inc way)
  ]

-- On a valid canvas, for any places and sizes of 16 bits, the copy returns without touching memory
-- outside the buffer. The destination, cut to what of both places lies on the canvas, then holds
-- the pixels that the source held before the call, also where the two overlap, and all other
-- pixels are as before.
pub rendering_draw_rect_copy-Becomes :
    (c : Canvas) (rc : RectCopy)
    → IsValid c
    → FitsU16 rc
    → Becomes c (copied c rc (copy_width c rc) 0 (copy_height c rc)) (rendering_draw_rect_copy c rc)
unfolding rendering_draw_rect_copy
rendering_draw_rect_copy-Becomes c rc v f =
    let width = safe_len_lem c.width rc.dst_x rc.src_x rc.w f.dst_x_fits f.src_x_fits f.w_fits in
    let height = safe_len_lem c.height rc.dst_y rc.src_y rc.h f.dst_y_fits f.src_y_fits f.h_fits in
    elim (Bool-cases (copy_width c rc == 0)) [
      | inl empty ↦ rw (width.1, empty) (unchanged c rc v f _ _ (ground arith))
      | inr full ↦
          rw (width.1, full, width.0)
            (some_rows c rc v f (copy_width c rc) (copy_height c rc)
              (safe_len c.height rc.dst_y rc.src_y rc.h) refl refl (ground arith) height.0 height.1
              (leb rc.dst_y rc.src_y) refl)
    ]
