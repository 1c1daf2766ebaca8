-- ===== src/Canvas/Triangle/Fill.antt =====
-- The pixels that `rendering_draw_triangle` of display/rendering/canvas.c paints.
use ttds.Prelude.{ℕ, zero, suc, ◌+◌, ◌-◌, ◌≤◌, ◌<◌, ◌≡◌, ◌&&◌, ◌||◌, List, arith}
use ttds.Prelude.{ltb, leb, if◌then◌else◌, refl, Bool-cases, inl, inr}
use ttds.Prelude.Int.{pos}
use ttds.Prelude.Run.{done}
use ttds.Canvas.{Canvas, draw_point}
use ttds.Canvas.Texel.{
  IsValid, Area, Paints, flat, point_area, draw_point-Paints, Paints-nothing, Paints-area,
  Paints->>=,
}
use ttds.Canvas.Line.{Line, distance}
use ttds.Canvas.Line.Walk.{Walk, trace, rendering_draw_line-Drawn}
use ttds.Canvas.Triangle.Sides.{one_sided, corner_0, corner_1, corner_2, inside-one_sided}
use ttds.Canvas.Triangle.{
  Triangle, inside, triangle_row, triangle_rows, edge, bound_left, bound_right, bound_up,
  bound_down, rendering_draw_triangle,
}

module _ (tri : Triangle) where
  -- The pixels inside, of `columns` columns from `x` on and of `rows` rows from `y` on.
  abbrev pub part : ℕ → ℕ → ℕ → ℕ → Area
  part x columns y rows px py =
      leb x px && ltb px (x + columns) && leb y py && ltb py (y + rows) && inside tri px py

  pixel_area :
      (x y px py : ℕ) → part x 1 y 1 px py ≡ (point_area (pos x) (pos y) px py && inside tri x y)
  pixel_area x y px py = elim (Bool-cases (point_area (pos x) (pos y) px py)) [
    | inl hit ↦
        let hx : px ≡ x = ground arith in
        let hy : py ≡ y = ground arith in rw (hx, hy) (ground arith)
    | inr miss ↦ ground arith
  ]

  pixel-Paints :
      (c : Canvas) (x y : ℕ)
      → IsValid c
      → Paints c
          (part x 1 y 1)
          (flat tri.c)
          (if inside tri x y then draw_point c (pos x) (pos y) tri.c else done c)
  pixel-Paints c x y v = elim (Bool-cases (inside tri x y)) [
    | inl in_now ↦ rw in_now (
        Paints-area (part x 1 y 1) (λ px py hx hy. ground (arith, pixel_area x y px py))
          (draw_point-Paints c (pos x) (pos y) tri.c v))
    | inr out ↦ rw out (
        Paints-nothing c (part x 1 y 1) (flat tri.c) v
          (λ px py hx hy. ground (arith, pixel_area x y px py)))
  ]

  triangle_row-Paints :
      (left : ℕ) (c : Canvas) (x y : ℕ)
      → IsValid c
      → Paints c (part x left y 1) (flat tri.c) (triangle_row left tri y x c)
  unfolding triangle_row
  triangle_row-Paints zero c x y v = Paints-nothing c _ _ v (λ px py hx hy. ground arith)
  triangle_row-Paints (suc left) c x y v =
      Paints-area (part x (suc left) y 1) (λ px py hx hy. ground arith)
        (Paints->>= (triangle_row left tri y (suc x)) (part (suc x) left y 1) (pixel-Paints c x y v)
          (λ d vd s. triangle_row-Paints left d (suc x) y vd))

  triangle_rows-Paints :
      (left : ℕ) (c : Canvas) (x columns y : ℕ)
      → IsValid c
      → Paints c (part x columns y left) (flat tri.c) (triangle_rows left tri x columns y c)
  unfolding triangle_rows
  triangle_rows-Paints zero c x columns y v = Paints-nothing c _ _ v (λ px py hx hy. ground arith)
  triangle_rows-Paints (suc left) c x columns y v =
      Paints-area (part x columns y (suc left)) (λ px py hx hy. ground arith)
        (Paints->>= (triangle_rows left tri x columns (suc y)) (part x columns (suc y) left)
          (triangle_row-Paints columns c x y v)
          (λ d vd s. triangle_rows-Paints left d x columns (suc y) vd))

  -- The pixels of the closed triangle between the corners: those of the bounding box that lie on no
  -- edge's left, or on no edge's right, going round.
  abbrev pub filled : Area
  filled px py =
      leb (bound_left tri) px
      && leb px (bound_right tri)
      && leb (bound_up tri) py
      && leb py (bound_down tri)
      && one_sided (corner_0 tri) (corner_1 tri) (corner_2 tri) (px, py)

-- The test on a counter that runs from `lo` to `hi`, both included.
counter_test : (lo hi p : ℕ) → lo ≤ hi → ltb p (lo + (hi + 1 - lo)) ≡ leb p hi
counter_test lo hi p h = ground arith

part-filled :
    (tri : Triangle) (px py : ℕ)
    → part tri
        (bound_left tri)
        (bound_right tri + 1 - bound_left tri)
        (bound_up tri)
        (bound_down tri + 1 - bound_up tri)
        px
        py
      ≡ filled tri px py
part-filled tri px py =
    let columns = counter_test (bound_left tri) (bound_right tri) px (omega arith) in
    let rows = counter_test (bound_up tri) (bound_down tri) py (omega arith) in
    rw (columns, rows, inside-one_sided tri px py) refl

-- The corners have 16 bits.
pub record FitsU16 (tri : Triangle) : Type 0 where
  pub x0_fits : tri.x0 < 65536
  pub y0_fits : tri.y0 < 65536
  pub x1_fits : tri.x1 < 65536
  pub y1_fits : tri.y1 < 65536
  pub x2_fits : tri.x2 < 65536
  pub y2_fits : tri.y2 < 65536

abbrev pub edge_01 : Triangle → Line
edge_01 tri = edge tri tri.x0 tri.y0 tri.x1 tri.y1

abbrev pub edge_02 : Triangle → Line
edge_02 tri = edge tri tri.x0 tri.y0 tri.x2 tri.y2

abbrev pub edge_12 : Triangle → Line
edge_12 tri = edge tri tri.x1 tri.y1 tri.x2 tri.y2

-- The walks along the three edges.
pub record Edges (tri : Triangle) : Type 0 where
  pub cells_01 : List (ℕ × ℕ)
  pub cells_02 : List (ℕ × ℕ)
  pub cells_12 : List (ℕ × ℕ)
  pub walk_01 : Walk (distance tri.x0 tri.x1) (distance tri.y0 tri.y1) 0 0 cells_01
  pub walk_02 : Walk (distance tri.x0 tri.x2) (distance tri.y0 tri.y2) 0 0 cells_02
  pub walk_12 : Walk (distance tri.x1 tri.x2) (distance tri.y1 tri.y2) 0 0 cells_12

abbrev pub triangle_area : (tri : Triangle) → Edges tri → Area
triangle_area tri e px py =
    trace (edge_01 tri) e.cells_01 px py
    || (trace (edge_02 tri) e.cells_02 px py
        || (trace (edge_12 tri) e.cells_12 px py || filled tri px py))

-- For every triangle whose corners have 16-bit coordinates, on the canvas or not and in either
-- orientation, `rendering_draw_triangle` on a valid canvas ends and paints the walks along the three
-- edges and the pixels of the closed triangle, and it changes no other pixel. The triangle is the
-- part of its bounding box where no two of the three edges, going round the corners, have the pixel on
-- different sides.
pub rendering_draw_triangle-Paints :
    (c : Canvas) (tri : Triangle)
    → IsValid c
    → FitsU16 tri
    → (e : Edges tri) × Paints c (triangle_area tri e) (flat tri.c) (rendering_draw_triangle c tri)
unfolding rendering_draw_triangle
rendering_draw_triangle-Paints c tri v f =
    let (a, walk_a, paints_a) =
      rendering_draw_line-Drawn (edge_01 tri) (f.x0_fits, f.y0_fits, f.x1_fits, f.y1_fits) in
    let (b, walk_b, paints_b) =
      rendering_draw_line-Drawn (edge_02 tri) (f.x0_fits, f.y0_fits, f.x2_fits, f.y2_fits) in
    let (d, walk_d, paints_d) =
      rendering_draw_line-Drawn (edge_12 tri) (f.x1_fits, f.y1_fits, f.x2_fits, f.y2_fits) in
    (
      record {
        cells_01 = a;
        cells_02 = b;
        cells_12 = d;
        walk_01 = walk_a;
        walk_02 = walk_b;
        walk_12 = walk_d;
      },
      Paints->>= _
          (λ px py.
            trace (edge_02 tri) b px py || (trace (edge_12 tri) d px py || filled tri px py))
          (paints_a c v)
          λ k vk s.
            Paints->>= _ (λ px py. trace (edge_12 tri) d px py || filled tri px py) (paints_b k vk)
              λ m vm t. Paints->>= _ (filled tri) (paints_d m vm) λ n vn u.
                Paints-area (filled tri) (λ px py hx hy. part-filled tri px py)
                  (triangle_rows-Paints tri (bound_down tri + 1 - bound_up tri) n (bound_left tri)
                    (bound_right tri + 1 - bound_left tri) (bound_up tri) vn),
    )
