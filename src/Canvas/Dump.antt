-- ===== src/Canvas/Dump.antt =====
-- `rendering_dump_bgra_to_rgba` of display/rendering/canvas.c. The mapped file has the size of the
-- canvas's buffer and is seen as a canvas of the same shape; `ftruncate` fills it with zeros. The
-- flag says whether every system call succeeds; a failure ends the process.
use ttds.Prelude.{
  ℕ, suc, ◌+◌, ◌*◌, ◌<◌, ◌≡◌, Bool, true, false, arith, ltb, leb, ◌==◌, if◌then◌else◌,
}
use ttds.Prelude.{refl}
use ttds.Prelude.Int.{pos}
use ttds.Prelude.Run.{Run, done, fault, fatal, out_of_bounds, ◌>>=◌}
use ttds.Canvas.{Canvas, Buffer, u32, calloc, store}
use ttds.Canvas.Texel.{
  IsValid, SameShape, Ink, Paints, Paints-area, Paints-ink, point_area, texel, offset_lem,
  store-Paints, row_below, SameShape-trans,
}
use ttds.Canvas.Loop.{u16_rounds, for_u16, Rounds, for_u16_rounds-Paints}
use ttds.Canvas.Rect.{box_area}

-- The array `rgba_pixel`.
abbrev pub rgba : Buffer → ℕ → ℕ → ℕ
rgba buf idx k =
    if k == 0
    then buf.byte (idx + 2)
    else if k == 1
    then buf.byte (idx + 1)
    else if k == 2
    then buf.byte idx
    else buf.byte (idx + 3)

unfoldable pub dump_pixel : Canvas → ℕ → ℕ → Canvas → Run Canvas
dump_pixel c y x dst =
    let idx = u32 (u32 (c.stride * y) + x * 4) in
    if leb (idx + 4) c.buffer.size
    then (store idx 4 (rgba c.buffer idx) dst.buffer >>= λ b. done (record dst { buffer = b }))
    else fault out_of_bounds

unfoldable pub dump_row : Canvas → ℕ → Canvas → Run Canvas
dump_row c y dst = for_u16 u16_rounds (λ x. ltb x c.width) (λ x d. dump_pixel c y x d) 0 dst

abbrev pub mapped_file : Canvas → Canvas
mapped_file c = record c { buffer = calloc (c.height * c.stride) }

unfoldable pub rendering_dump_bgra_to_rgba : Bool → Canvas → Run Canvas
rendering_dump_bgra_to_rgba false c = fault fatal
rendering_dump_bgra_to_rgba true c =
    for_u16 u16_rounds (λ y. ltb y c.height) (λ y d. dump_row c y d) 0 (mapped_file c)

-- The pixel of the canvas with blue and red exchanged.
abbrev pub swapped : Canvas → Ink
swapped c x y k = if k == 0 then texel c x y 2 else if k == 2 then texel c x y 0 else texel c x y k

rgba-swapped :
    (c : Canvas) (x y px py k : ℕ)
    → k < 4
    → point_area (pos x) (pos y) px py ≡ true
    → rgba c.buffer (c.stride * y + x * 4) k ≡ swapped c px py k
unfolding texel
rgba-swapped c x y px py k hk hit =
    let ex : x ≡ px = ground arith in
    let ey : y ≡ py = ground arith in rw (← ex, ← ey) (ground arith)

module _ (c : Canvas) (v : IsValid c) where
  offset_exact :
      (x y : ℕ)
      → x < c.width
      → y < c.height
      → u32 (u32 (c.stride * y) + x * 4) ≡ c.stride * y + x * 4
  offset_exact x y hx hy = omega (arith, row_below c.stride y c.height)

  dump_pixel-store :
      (x y : ℕ) (d : Canvas)
      → x < c.width
      → y < c.height
      → d.stride ≡ c.stride
      → dump_pixel c y x d ≡ (
          store (d.stride * y + x * 4) 4 (rgba c.buffer (c.stride * y + x * 4)) d.buffer >>= λ b.
          done (record d { buffer = b }))
  unfolding dump_pixel
  dump_pixel-store x y d hx hy e =
      rw (offset_exact x y hx hy, ← e) (ground (arith, offset_lem c v x y hx hy))

  dump_pixel-Paints :
      (x y : ℕ) (d : Canvas)
      → x < c.width
      → y < c.height
      → IsValid d
      → SameShape (mapped_file c) d
      → Paints d (point_area (pos x) (pos y)) (swapped c) (dump_pixel c y x d)
  dump_pixel-Paints x y d hx hy vd s = rw (dump_pixel-store x y d hx hy s.stride_same) (
      Paints-ink (swapped c) (λ px py k hpx hpy hk hit. rgba-swapped c x y px py k hk hit)
        (store-Paints d vd x y _ (rw s.width_same hx) (rw s.height_same hy)))

  mapped_file-IsValid : IsValid (mapped_file c)
  mapped_file-IsValid = record {
    width_fits = v.width_fits;
    height_fits = v.height_fits;
    row_fits = v.row_fits;
    rows_fit = omega arith;
    offset_fits = v.offset_fits;
  }

  row-Rounds :
      (y : ℕ) (d : Canvas)
      → y < c.height
      → SameShape (mapped_file c) d
      → Rounds d
          (λ x. ltb x c.width)
          (λ x e. dump_pixel c y x e)
          (swapped c)
          c.width
          (λ x. point_area (pos x) (pos y))
          (λ i. box_area i c.width y (suc y))
  row-Rounds y d hy s = record {
    last_fits = v.width_fits;
    tests = λ i. refl;
    paints = λ i e h ve t. dump_pixel-Paints i y e h hy ve (SameShape-trans s t);
    next = λ i px py hx hy h. ground arith;
    end = λ i px py hx hy h. ground arith;
  }

  column-Rounds :
      Rounds
        (mapped_file c)
        (λ y. ltb y c.height)
        (λ y d. dump_row c y d)
        (swapped c)
        c.height
        (λ y. box_area 0 c.width y (suc y))
        (λ i. box_area 0 c.width i c.height)
  unfolding dump_row
  column-Rounds = record {
    last_fits = v.height_fits;
    tests = λ i. refl;
    paints = λ i d h vd s. for_u16_rounds-Paints (row-Rounds i d h s) 0 vd;
    next = λ i px py hx hy h. ground arith;
    end = λ i px py hx hy h. ground arith;
  }

-- If the system calls succeed, dumping a valid canvas returns without reading or writing outside a
-- buffer, and every pixel of the file is the canvas's pixel with blue and red exchanged.
pub rendering_dump-Paints :
    (c : Canvas)
    → IsValid c
    → Paints (mapped_file c) (λ x y. true) (swapped c) (rendering_dump_bgra_to_rgba true c)
unfolding rendering_dump_bgra_to_rgba
rendering_dump-Paints c v =
    Paints-area _ (λ x y hx hy. ground arith)
      (for_u16_rounds-Paints (column-Rounds c v) 0 (mapped_file-IsValid c v))
