-- ===== src/Scenes/Returns.antt =====
-- The scenes of display/testing.c return, and keep the canvas they draw on.
use ttds.Prelude.{ℕ, ◌+◌, ◌*◌, ◌/◌, ◌≤◌, ◌<◌, ◌≡◌, sym, ap, subst, ◌∙◌, arith}
use ttds.Prelude.Int.{pos}
use ttds.Canvas.{Canvas, u16}
use ttds.Canvas.Loop.{u16_rounds}
use ttds.Canvas.Texel.{IsValid, SameShape, SameShape-refl}
use ttds.Canvas.Rect
use ttds.Canvas.Rect.{Rect, rendering_draw_rect}
use ttds.Canvas.Copy.Row
use ttds.Canvas.Triangle.Fill
use ttds.Canvas.Bezier.{FloatOps, rendering_draw_bezier2}
use ttds.Canvas.Bezier.Points.{Passes, step_of, rendering_draw_bezier2-Paints}
use ttds.Canvas.Keeps.{
  Kept, Paints-Kept, Kept->>=, rect-Kept, circle-Kept, line-Kept, triangle-Kept, copy-Kept,
}
use ttds.Scenes.Drawing.{
  draw_rect, draw_cell, rects, rect_at, glider, test_rects, SceneFloats, no_circle, draw_circle,
  circle_at, test_circles, ray, burst_column, test_lines_burst, line_at, draw_array_line,
  array_column, test_lines_array, copy_at, draw_copy, copies, test_copy_rect, curve_at, draw_curve,
  curve_column, test_bezier2, triangle_at, draw_triangle, triangles, test_triangles, corner,
  array_triangle, draw_array_triangle, triangle_column, test_triangle_array, draw_each, times,
  for_steps,
}
use ttds.Scenes.Loops.{Each, draw_each-Kept, times-Kept, steps-Kept, rounds-Kept}

pub u16-lt : (n : ℕ) → u16 n < 65536
u16-lt n = omega arith

rect_at-FitsU16 : (x y w h : ℕ) → Rect.FitsU16 (rect_at x y w h)
rect_at-FitsU16 x y w h = record {
  x_fits = u16-lt x;
  y_fits = u16-lt y;
  w_fits = u16-lt w;
  h_fits = u16-lt h;
}

copy_at-FitsU16 : (a b x y w h : ℕ) → Row.FitsU16 (copy_at a b x y w h)
copy_at-FitsU16 a b x y w h = record {
  dst_x_fits = u16-lt a;
  dst_y_fits = u16-lt b;
  src_x_fits = u16-lt x;
  src_y_fits = u16-lt y;
  w_fits = u16-lt w;
  h_fits = u16-lt h;
}

triangle_at-FitsU16 : (a b c : ℕ × ℕ) → Fill.FitsU16 (triangle_at a b c)
triangle_at-FitsU16 a b c = record {
  x0_fits = u16-lt a.0;
  y0_fits = u16-lt a.1;
  x1_fits = u16-lt b.0;
  y1_fits = u16-lt b.1;
  x2_fits = u16-lt c.0;
  y2_fits = u16-lt c.1;
}

pub test_rects-Kept : (c : Canvas) → IsValid c → Kept c (test_rects c)
unfolding test_rects
test_rects-Kept c v =
    let x0 = u16 (c.width * 7 / 10) in
    let y0 = u16 (c.height / 2) in
    Kept->>= (λ c1. draw_each draw_rect (rects c1.width c1.height) c1)
      (draw_each-Kept (λ cell. Unit {0}) (draw_cell x0 y0)
        (λ cell d any vd.
          rect-Kept d vd (rect_at (x0 + cell.0 * 2) (y0 + cell.1 * 2) 2 2)
            (rect_at-FitsU16 (x0 + cell.0 * 2) (y0 + cell.1 * 2) 2 2))
        glider c (tt, (tt, (tt, (tt, (tt, tt))))) v)
      λ c1 v1 s1.
        let w = c1.width in
        let h = c1.height in
        let nothing : Rect = record {
          x = 0;
          y = 0;
          w = 0;
          h = 0;
          c = record { r = 0; g = 0; b = 0 };
        } in
        let no_rect : Rect.FitsU16 nothing = record {
          x_fits = omega arith;
          y_fits = omega arith;
          w_fits = omega arith;
          h_fits = omega arith;
        } in
        draw_each-Kept Rect.FitsU16 draw_rect (λ rect d fits vd. rect-Kept d vd rect fits)
          (rects w h) c1
          (
            no_rect,
            (
              rect_at-FitsU16 (w / 5) (h * 2 / 3) (w / 3) (h / 4),
              (
                rect_at-FitsU16 (w / 4) (h / 3) (w / 7) 1,
                (rect_at-FitsU16 (w / 2) (h * 2 / 7) (w / 9) (h / 6), tt),
              ),
            ),
          )
          v1

copies-FitsU16 : (w h : ℕ) → Each Row.FitsU16 (copies w h)
copies-FitsU16 w h = omega arith

module _ (floats : SceneFloats) where
  pub test_circles-Kept : (c : Canvas) → IsValid c → Kept c (test_circles floats c)
  unfolding test_circles
  test_circles-Kept c v =
      Kept->>= (λ c1. times (draw_circle floats) (floats.circle_count c1.width c1.height) 1 c1)
        (circle-Kept c v no_circle (omega arith))
        λ c1 v1 s1.
          times-Kept (draw_circle floats)
            (λ i d vd.
              let p = floats.circle d.width d.height i in
              circle-Kept d vd (circle_at p) (u16-lt p.2))
            (floats.circle_count c1.width c1.height) 1 c1 v1

  array_column-Kept : (col : ℕ) (c : Canvas) → IsValid c → Kept c (array_column floats col c)
  array_column-Kept col c v =
      times-Kept (draw_array_line floats col)
        (λ row d vd.
          let p = floats.line d.width d.height col row in
          line-Kept d vd (line_at p) (u16-lt p.0, u16-lt p.1, u16-lt p.2, u16-lt p.3))
        13 0 c v

  pub test_lines_array-Kept : (c : Canvas) → IsValid c → Kept c (test_lines_array floats c)
  unfolding test_lines_array
  test_lines_array-Kept c v = times-Kept (array_column floats) array_column-Kept 7 0 c v

  pub test_copy_rect-Kept : (c : Canvas) → IsValid c → Kept c (test_copy_rect floats c)
  unfolding test_copy_rect
  test_copy_rect-Kept c v =
      Kept->>= (λ c1. draw_each draw_copy (copies c1.width c1.height) c1) (test_circles-Kept c v)
        λ c1 v1 s1.
          draw_each-Kept Row.FitsU16 draw_copy (λ rc d fits vd. copy-Kept d vd rc fits)
            (copies c1.width c1.height) c1 (copies-FitsU16 c1.width c1.height) v1

triangles-FitsU16 : (w h : ℕ) → Each Fill.FitsU16 (triangles w h)
triangles-FitsU16 w h = omega arith

pub test_triangles-Kept : (c : Canvas) → IsValid c → Kept c (test_triangles c)
unfolding test_triangles
test_triangles-Kept c v =
    draw_each-Kept Fill.FitsU16 draw_triangle (λ tri d fits vd. triangle-Kept d vd tri fits)
      (triangles c.width c.height) c (triangles-FitsU16 c.width c.height) v

array_triangle-FitsU16 : (w h col row : ℕ) → Fill.FitsU16 (array_triangle w h col row)
array_triangle-FitsU16 w h col row =
    let i = 8 * col + row in
    let at = corner w h col row in triangle_at-FitsU16 (at i) (at (i + 1)) (at (i + 2))

triangle_column-Kept : (col : ℕ) (c : Canvas) → IsValid c → Kept c (triangle_column col c)
triangle_column-Kept col c v =
    times-Kept (draw_array_triangle col)
      (λ row d vd.
        triangle-Kept d vd (array_triangle d.width d.height col row)
          (array_triangle-FitsU16 d.width d.height col row))
      8 0 c v

pub test_triangle_array-Kept : (c : Canvas) → IsValid c → Kept c (test_triangle_array c)
unfolding test_triangle_array
test_triangle_array-Kept c v = times-Kept triangle_column triangle_column-Kept 8 0 c v

-- On a canvas of this size the steps of the loops are not 0, and the counters do not wrap.
abbrev pub IsMedium : Canvas → Type 0
IsMedium c = (4 ≤ c.width) × (c.width < 32768) × (4 ≤ c.height) × (c.height < 32768)

SameShape-IsMedium : (c d : Canvas) → SameShape c d → IsMedium c → IsMedium d
SameShape-IsMedium c d s m = (
  omega (arith, s.width_same),
  omega (arith, s.width_same),
  omega (arith, s.height_same),
  omega (arith, s.height_same),
)

ray-Kept : (x y : ℕ) (c : Canvas) → x < 65536 → y < 65536 → IsValid c → Kept c (ray x y c)
ray-Kept x y c hx hy v = line-Kept c v _ (u16-lt _, u16-lt _, hx, hy)

burst_column-Kept :
    (step : ℕ → ℕ) (x : ℕ) (c : Canvas)
    → x < 65536
    → IsMedium c
    → 0 < step c.height
    → step c.height ≤ c.height
    → IsValid c
    → Kept c (burst_column step x c)
burst_column-Kept step x c hx m moves small v =
    steps-Kept c.height (step c.height) (λ y d. ray x y d) c
      (λ y d hy vd s. ray-Kept x y d hx (omega arith) vd) moves (omega arith) v

pub test_lines_burst-Kept : (c : Canvas) → IsMedium c → IsValid c → Kept c (test_lines_burst c)
unfolding test_lines_burst
test_lines_burst-Kept c m v =
    Kept->>=
      (λ c1. for_steps u16_rounds c1.width c1.width (burst_column (λ height. height / 4)) 0 c1)
      (steps-Kept c.width (c.width / 4) (burst_column (λ height. height)) c
        (λ x d hx vd s.
          let md = SameShape-IsMedium c d s m in
          burst_column-Kept (λ height. height) x d (omega arith) md (omega arith) (omega arith) vd)
        (omega arith) (omega arith) v)
      λ c1 v1 s1.
        let m1 = SameShape-IsMedium c c1 s1 m in
        steps-Kept c1.width c1.width (burst_column (λ height. height / 4)) c1
          (λ x d hx vd s.
            let md = SameShape-IsMedium c1 d s m1 in
            burst_column-Kept (λ height. height / 4) x d (omega arith) md (omega arith)
              (omega arith) vd)
          (omega arith) (omega arith) v1

-- The parameter of each of the 64 curves of the scene, on a canvas of the test's size, passes 1 within
-- the fuel.
abbrev pub Ends : FloatOps → ℕ → Type 0
Ends ops fuel =
    (col row : ℕ)
    → col < 8
    → row < 8
    → (k : ℕ) × Passes ops (step_of ops (curve_at 128 128 col row)) (ops.of_int (pos 0)) k
      × (k < fuel)

module _ (ops : FloatOps) (fuel : ℕ) (ends : Ends ops fuel) where
  draw_curve-Kept :
      (col row : ℕ) (c : Canvas)
      → col < 8
      → row < 8
      → IsValid c
      → c.width ≡ 128
      → c.height ≡ 128
      → Kept c (draw_curve ops fuel col row c)
  draw_curve-Kept col row c hc hr v w h =
      let (k, passes, enough) = ends col row hc hr in
      let same : curve_at c.width c.height col row ≡ curve_at 128 128 col row =
        ap (λ n. curve_at n c.height col row) w ∙ ap (λ n. curve_at 128 n col row) h in
      subst (λ b. Kept c (rendering_draw_bezier2 ops fuel c b)) (sym same)
        (Paints-Kept
          (rendering_draw_bezier2-Paints ops k fuel c (curve_at 128 128 col row) passes enough v))

  curve_column-Kept :
      (b : Canvas) (col : ℕ) (c : Canvas)
      → b.width ≡ 128
      → b.height ≡ 128
      → col < 8
      → IsValid c
      → SameShape b c
      → Kept c (curve_column ops fuel col c)
  curve_column-Kept b col c w h hc v s =
      rounds-Kept b 8 (draw_curve ops fuel col)
        (λ row d hr vd t. draw_curve-Kept col row d hc hr vd (t.width_same ∙ w) (t.height_same ∙ h))
        8 0 c (omega arith) v s

  pub test_bezier2-Kept :
      (c : Canvas) → IsValid c → c.width ≡ 128 → c.height ≡ 128 → Kept c (test_bezier2 ops fuel c)
  unfolding test_bezier2
  test_bezier2-Kept c v w h =
      rounds-Kept c 8 (curve_column ops fuel)
        (λ col d hc vd t. curve_column-Kept c col d w h hc vd t) 8 0 c (omega arith) v
        (SameShape-refl c)
