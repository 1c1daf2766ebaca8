-- ===== src/Scenes/Drawing.antt =====
-- The scenes of display/testing.c. The coordinates that are computed in `float` or `double` are a
-- parameter: the number of circles and their places, and the ends of the lines of
-- `test_lines_array`, as they are before the conversion to 16 bits. The fields of a shape are 16 bits
-- wide, which is written out.
use package.ttds.Prelude.{
  ℕ, zero, suc, ◌+◌, ◌-◌, ◌*◌, ◌/◌, ◌%◌, true, false, List, [], ◌∷◌, leb, ◌==◌, if◌then◌else◌,
}
use package.ttds.Prelude.Int.{pos}
use package.ttds.Prelude.Run.{Run, done, spent, ◌>>=◌}
use package.ttds.Canvas.{Color, Canvas, u16}
use package.ttds.Canvas.Loop.{u16_rounds}
use package.ttds.Canvas.Rect.{Rect, rendering_draw_rect}
use package.ttds.Canvas.Circle.{Circle, rendering_draw_circle}
use package.ttds.Canvas.Line.{Line, rendering_draw_line}
use package.ttds.Canvas.Copy.{RectCopy, rendering_draw_rect_copy}
use package.ttds.Canvas.Triangle.{Triangle, rendering_draw_triangle}
use package.ttds.Canvas.Bezier.{FloatOps, Bezier2, rendering_draw_bezier2}

abbrev pub Scene : Type 0
Scene = Canvas → Run Canvas

-- `BG` and `FG`.
abbrev pub bg : Color
bg = record { r = 0x3A; g = 0x22; b = 0xBD }

abbrev pub fg : Color
fg = record { r = 0xFF; g = 0xFF; b = 0xFF }

-- A loop over an array.
unfoldable pub draw_each {ℓ} : {A : Type ℓ} → (A → Scene) → List A → Scene
draw_each draw [] c = done c
draw_each draw (x ∷ xs) c = draw x c >>= draw_each draw xs

-- A counted loop: `left` rounds, from `i` on.
unfoldable pub times : (ℕ → Scene) → ℕ → ℕ → Scene
times body zero i c = done c
times body (suc left) i c = body i c >>= times body left (i + 1)

-- `for (uint16_t i = 0; i <= limit; i += step)`, from `i` on.
unfoldable pub for_steps : ℕ → ℕ → ℕ → (ℕ → Scene) → ℕ → Scene
for_steps zero limit step body i c = spent
for_steps (suc fuel) limit step body i c = elim (leb i limit) [
  | true ↦ body i c >>= for_steps fuel limit step body (u16 (i + step))
  | false ↦ done c
]

abbrev pub rect_at : ℕ → ℕ → ℕ → ℕ → Rect
rect_at x y w h = record { x = u16 x; y = u16 y; w = u16 w; h = u16 h; c = fg }

abbrev pub glider : List (ℕ × ℕ)
glider = (1, 0) ∷ (0, 1) ∷ (0, 2) ∷ (1, 2) ∷ (2, 2) ∷ []

-- The drawing functions with the shape first.
abbrev pub draw_rect : Rect → Scene
draw_rect rect c = rendering_draw_rect c rect

abbrev pub draw_copy : RectCopy → Scene
draw_copy rc c = rendering_draw_rect_copy c rc

abbrev pub draw_triangle : Triangle → Scene
draw_triangle tri c = rendering_draw_triangle c tri

abbrev pub draw_cell : ℕ → ℕ → ℕ × ℕ → Scene
draw_cell x0 y0 cell = draw_rect (rect_at (x0 + cell.0 * 2) (y0 + cell.1 * 2) 2 2)

abbrev pub rects : ℕ → ℕ → List Rect
rects w h =
    record { x = 0; y = 0; w = 0; h = 0; c = record { r = 0; g = 0; b = 0 } }
    ∷ rect_at (w / 5) (h * 2 / 3) (w / 3) (h / 4)
    ∷ rect_at (w / 4) (h / 3) (w / 7) 1
    ∷ rect_at (w / 2) (h * 2 / 7) (w / 9) (h / 6)
    ∷ []

unfoldable pub test_rects : Scene
unfolding draw_each
test_rects c =
    let x0 = u16 (c.width * 7 / 10) in
    let y0 = u16 (c.height / 2) in
    draw_each (draw_cell x0 y0) glider c >>= λ c1. draw_each draw_rect (rects c1.width c1.height) c1

-- The values that are computed in floating point.
pub record SceneFloats : Type 0 where
  -- `circle_count`, and `x`, `y` and `r` of a circle.
  pub circle_count : ℕ → ℕ → ℕ
  pub circle : ℕ → ℕ → ℕ → ℕ × ℕ × ℕ
  -- `x0`, `y0`, `x1` and `y1` of the line in a column and a row.
  pub line : ℕ → ℕ → ℕ → ℕ → ℕ × ℕ × ℕ × ℕ

abbrev pub circle_at : ℕ × ℕ × ℕ → Circle
circle_at p = record { x = u16 p.0; y = u16 p.1; r = u16 p.2; c = fg }

abbrev pub no_circle : Circle
no_circle = record { x = 0; y = 0; r = 0; c = record { r = 0; g = 0; b = 0 } }

abbrev pub draw_circle : SceneFloats → ℕ → Scene
draw_circle floats i c = rendering_draw_circle c (circle_at (floats.circle c.width c.height i))

unfoldable pub test_circles : SceneFloats → Scene
unfolding times
test_circles floats c = rendering_draw_circle c no_circle >>= λ c1.
    times (draw_circle floats) (floats.circle_count c1.width c1.height) 1 c1

-- A line from the middle of the canvas.
abbrev pub ray : ℕ → ℕ → Scene
ray x y c =
    rendering_draw_line c
      (record { x0 = u16 (c.width / 2); y0 = u16 (c.height / 2); x1 = x; y1 = y; c = fg })

-- An inner loop of `test_lines_burst`.
abbrev pub burst_column : (ℕ → ℕ) → ℕ → Scene
burst_column step x c = for_steps u16_rounds c.height (step c.height) (λ y d. ray x y d) 0 c

unfoldable pub test_lines_burst : Scene
unfolding for_steps
test_lines_burst c =
    for_steps u16_rounds c.width (c.width / 4) (burst_column (λ height. height)) 0 c >>= λ c1.
    for_steps u16_rounds c1.width c1.width (burst_column (λ height. height / 4)) 0 c1

abbrev pub line_at : ℕ × ℕ × ℕ × ℕ → Line
line_at p = record { x0 = u16 p.0; y0 = u16 p.1; x1 = u16 p.2; y1 = u16 p.3; c = fg }

abbrev pub draw_array_line : SceneFloats → ℕ → ℕ → Scene
draw_array_line floats col row c =
    rendering_draw_line c (line_at (floats.line c.width c.height col row))

abbrev pub array_column : SceneFloats → ℕ → Scene
array_column floats col c = times (draw_array_line floats col) 13 0 c

unfoldable pub test_lines_array : SceneFloats → Scene
unfolding times
test_lines_array floats c = times (array_column floats) 7 0 c

abbrev pub copy_at : ℕ → ℕ → ℕ → ℕ → ℕ → ℕ → RectCopy
copy_at dst_x dst_y src_x src_y w h = record {
  dst_x = u16 dst_x;
  dst_y = u16 dst_y;
  src_x = u16 src_x;
  src_y = u16 src_y;
  w = u16 w;
  h = u16 h;
}

-- `height - 1` is an `int`, cut to 16 bits.
abbrev pub copies : ℕ → ℕ → List RectCopy
copies w h =
    copy_at 0 (h / 2) 0 0 (w / 2) (h / 2)
    ∷ copy_at (w / 3) (h / 3) (w / 2) (h / 2) (w / 2) (h / 2)
    ∷ copy_at (w / 4) 0 0 0 (w / 2) (h / 2)
    ∷ copy_at (w / 4) (h / 2) (w / 2) (h / 2) (w / 2) (h / 2)
    ∷ copy_at (w / 8) (h / 4) 0 (h / 8) (w / 2) (h / 2)
    ∷ copy_at (w / 2) (h + 65536 - 1) 0 (h / 2) w h
    ∷ copy_at (w * 16 / 17) 0 (w * 3 / 4) (h / 3) w h
    ∷ []

-- The canvas keeps its size, so the places are computed once.
unfoldable pub test_copy_rect : SceneFloats → Scene
unfolding test_circles draw_each
test_copy_rect floats c =
    test_circles floats c >>= λ c1. draw_each draw_copy (copies c1.width c1.height) c1

-- A curve in a column and a row of eight.
abbrev pub curve_at : ℕ → ℕ → ℕ → ℕ → Bezier2
curve_at w h col row =
    let col_len = w / 8 in
    let row_len = h / 8 in
    let col_start = col * w / 8 in
    let row_start = row * h / 8 in
    let dx = col * col_len / 8 in
    let dy = row * row_len / 8 in
    record {
      x0 = pos (col_start + col_len - dx);
      y0 = pos (row_start + row_len - dy);
      x1 = pos (col_start + col_len);
      y1 = pos (row_start + dy);
      x2 = pos col_start;
      y2 = pos (row_start + row_len);
      c = fg;
    }

abbrev pub draw_curve : FloatOps → ℕ → ℕ → ℕ → Scene
draw_curve ops fuel col row c =
    rendering_draw_bezier2 ops fuel c (curve_at c.width c.height col row)

abbrev pub curve_column : FloatOps → ℕ → ℕ → Scene
curve_column ops fuel col c = times (draw_curve ops fuel col) 8 0 c

unfoldable pub test_bezier2 : FloatOps → ℕ → Scene
unfolding times
test_bezier2 ops fuel c = times (curve_column ops fuel) 8 0 c

abbrev pub triangle_at : ℕ × ℕ → ℕ × ℕ → ℕ × ℕ → Triangle
triangle_at a b c = record {
  x0 = u16 a.0;
  y0 = u16 a.1;
  x1 = u16 b.0;
  y1 = u16 b.1;
  x2 = u16 c.0;
  y2 = u16 c.1;
  c = fg;
}

abbrev pub triangles : ℕ → ℕ → List Triangle
triangles w h =
    triangle_at (w / 32, 7 * h / 32) (w / 16, 3 * h / 8) (5 * w / 32, 7 * h / 32)
    ∷ triangle_at (w / 16, 7 * h / 8) (11 * w / 16, 15 * h / 16) (11 * w / 32, 11 * h / 16)
    ∷ triangle_at (11 * w / 16, 27 * h / 32) (19 * w / 32, h / 32) (9 * w / 32, h / 2)
    ∷ triangle_at (15 * w / 16, 21 * h / 32) (13 * w / 16, 29 * h / 32) (23 * w / 32, 3 * h / 32)
    ∷ []

unfoldable pub test_triangles : Scene
unfolding draw_each
test_triangles c = draw_each draw_triangle (triangles c.width c.height) c

-- `xs[k % 3]` with `ys[k % 3]`.
abbrev pub corner : ℕ → ℕ → ℕ → ℕ → ℕ → ℕ × ℕ
corner w h col row k =
    let col_len = w / 8 in
    let row_len = h / 8 in
    let col_start = col * col_len in
    let row_start = row * row_len in
    let dx = col * col_len / 8 in
    let dy = row * row_len / 8 in
    if k % 3 == 0
    then (col_start + col_len - dx, row_start + row_len - dy)
    else if k % 3 == 1
    then (col_start + col_len, row_start + dy)
    else (col_start, row_start + row_len)

-- The index `i` is `8 * col + row`.
abbrev pub array_triangle : ℕ → ℕ → ℕ → ℕ → Triangle
array_triangle w h col row =
    let i = 8 * col + row in
    let at = corner w h col row in triangle_at (at i) (at (i + 1)) (at (i + 2))

abbrev pub draw_array_triangle : ℕ → ℕ → Scene
draw_array_triangle col row c = draw_triangle (array_triangle c.width c.height col row) c

abbrev pub triangle_column : ℕ → Scene
triangle_column col c = times (draw_array_triangle col) 8 0 c

unfoldable pub test_triangle_array : Scene
unfolding times
test_triangle_array c = times triangle_column 8 0 c
