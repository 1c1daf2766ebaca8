-- ===== src/Canvas/Triangle.antt =====
-- `rendering_draw_triangle` of display/rendering/canvas.c: the three edges, then each pixel of the
-- bounding box whose barycentric coordinates are in range. Its 64-bit values are integers here: the
-- coordinates have 16 bits, so none of them reaches 2^34.
pub mod Sides
pub mod Fill
use ttds.Prelude.{ℕ, zero, suc, ◌+◌, ◌-◌, min, max, Bool, ◌&&◌, if◌then◌else◌}
use ttds.Prelude.Int.{ℤ, pos, ◌+ℤ◌, ◌-ℤ◌, ◌*ℤ◌, leb_ℤ, ltb_ℤ}
use ttds.Prelude.Run.{Run, done, ◌>>=◌}
use ttds.Canvas.{Color, Canvas, draw_point}
use ttds.Canvas.Copy.{min_ℤ}
use ttds.Canvas.Line.{Line, rendering_draw_line}

pub record Triangle : Type 0 where
  pub x0 : ℕ
  pub y0 : ℕ
  pub x1 : ℕ
  pub y1 : ℕ
  pub x2 : ℕ
  pub y2 : ℕ
  pub c : Color

abbrev pub max_ℤ : ℤ → ℤ → ℤ
max_ℤ a b = if ltb_ℤ a b then b else a

-- `b1` at a point; `det` is its value at the first corner.
unfoldable pub weight_1 : Triangle → ℤ → ℤ → ℤ
weight_1 tri x y =
    (pos tri.y1 -ℤ pos tri.y2) *ℤ (x -ℤ pos tri.x2)
    +ℤ (pos tri.x2 -ℤ pos tri.x1) *ℤ (y -ℤ pos tri.y2)

unfoldable pub weight_2 : Triangle → ℤ → ℤ → ℤ
weight_2 tri x y =
    (pos tri.y2 -ℤ pos tri.y0) *ℤ (x -ℤ pos tri.x2)
    +ℤ (pos tri.x0 -ℤ pos tri.x2) *ℤ (y -ℤ pos tri.y2)

unfoldable pub det : Triangle → ℤ
det tri = weight_1 tri (pos tri.x0) (pos tri.y0)

-- The condition under which a pixel of the box is drawn.
unfoldable pub inside : Triangle → ℕ → ℕ → Bool
inside tri x y =
    let lo = min_ℤ (pos 0) (det tri) in
    let hi = max_ℤ (pos 0) (det tri) in
    let b1 = weight_1 tri (pos x) (pos y) in
    let b2 = weight_2 tri (pos x) (pos y) in
    let b3 = det tri -ℤ b1 -ℤ b2 in
    leb_ℤ lo b1 && leb_ℤ b1 hi && leb_ℤ lo b2 && leb_ℤ b2 hi && leb_ℤ lo b3 && leb_ℤ b3 hi

-- The inner loop, with `left` columns to go.
unfoldable pub triangle_row : ℕ → Triangle → ℕ → ℕ → Canvas → Run Canvas
triangle_row zero tri y x c = done c
triangle_row (suc left) tri y x c =
    (if inside tri x y then draw_point c (pos x) (pos y) tri.c else done c)
    >>= triangle_row left tri y (suc x)

-- The outer loop, with `left` rows to go, over the columns from `x` on, `columns` of them.
unfoldable pub triangle_rows : ℕ → Triangle → ℕ → ℕ → ℕ → Canvas → Run Canvas
triangle_rows zero tri x columns y c = done c
triangle_rows (suc left) tri x columns y c =
    triangle_row columns tri y x c >>= triangle_rows left tri x columns (suc y)

abbrev pub edge : Triangle → ℕ → ℕ → ℕ → ℕ → Line
edge tri x0 y0 x1 y1 = record { x0 = x0; y0 = y0; x1 = x1; y1 = y1; c = tri.c }

abbrev pub bound_left : Triangle → ℕ
bound_left tri = min tri.x0 (min tri.x1 tri.x2)

abbrev pub bound_right : Triangle → ℕ
bound_right tri = max tri.x0 (max tri.x1 tri.x2)

abbrev pub bound_up : Triangle → ℕ
bound_up tri = min tri.y0 (min tri.y1 tri.y2)

abbrev pub bound_down : Triangle → ℕ
bound_down tri = max tri.y0 (max tri.y1 tri.y2)

unfoldable pub rendering_draw_triangle : Canvas → Triangle → Run Canvas
rendering_draw_triangle c tri =
    rendering_draw_line c (edge tri tri.x0 tri.y0 tri.x1 tri.y1) >>= λ c1.
    rendering_draw_line c1 (edge tri tri.x0 tri.y0 tri.x2 tri.y2) >>= λ c2.
    rendering_draw_line c2 (edge tri tri.x1 tri.y1 tri.x2 tri.y2)
    >>= triangle_rows (bound_down tri + 1 - bound_up tri) tri (bound_left tri)
        (bound_right tri + 1 - bound_left tri) (bound_up tri)
