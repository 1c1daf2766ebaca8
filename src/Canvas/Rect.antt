-- ===== src/Canvas/Rect.antt =====
-- `rendering_fill` and `rendering_draw_rect` of display/rendering/canvas.c, and the areas that they
-- paint.
use ttds.Prelude.{ℕ, suc, ◌+◌, ◌<◌, min, refl, true, ◌&&◌, arith}
use ttds.Prelude.{ltb, leb}
use ttds.Prelude.Int.{pos}
use ttds.Prelude.Run.{Run}
use ttds.Canvas.{Color, Canvas, u16, draw_point}
use ttds.Canvas.Texel.{IsValid, Area, flat, Paints, Paints-area, point_area, draw_point-Paints}
use ttds.Canvas.Loop.{u16_rounds, for_u16, Rounds, for_u16_rounds-Paints}

pub record Rect : Type 0 where
  pub x : ℕ
  pub y : ℕ
  pub w : ℕ
  pub h : ℕ
  pub c : Color

unfoldable pub fill_column : Color → ℕ → Canvas → Run Canvas
fill_column color x c =
    for_u16 u16_rounds (λ y. ltb y c.height) (λ y d. draw_point d (pos x) (pos y) color) 0 c

unfoldable pub rendering_fill : Canvas → Color → Run Canvas
rendering_fill c color = for_u16 u16_rounds (λ x. ltb x c.width) (λ x d. fill_column color x d) 0 c

-- The inner loop of `rendering_draw_rect`, over row `y`.
unfoldable pub rect_row : ℕ → ℕ → Color → ℕ → Canvas → Run Canvas
rect_row left right color y c =
    for_u16 u16_rounds (λ x. ltb x right && ltb x c.width)
      (λ x d. draw_point d (pos x) (pos y) color) left c

unfoldable pub rendering_draw_rect : Canvas → Rect → Run Canvas
rendering_draw_rect c rect =
    let right_edge = u16 (rect.x + rect.w) in
    let bottom_edge = u16 (rect.y + rect.h) in
    for_u16 u16_rounds (λ y. ltb y bottom_edge && ltb y c.height)
      (λ y d. rect_row rect.x right_edge rect.c y d) rect.y c

abbrev pub box_area : ℕ → ℕ → ℕ → ℕ → Area
box_area left right top bottom x y = leb left x && ltb x right && leb top y && ltb y bottom

row-Rounds :
    (c : Canvas) (right y : ℕ) (color : Color)
    → IsValid c
    → Rounds c
        (λ x. ltb x right && ltb x c.width)
        (λ x d. draw_point d (pos x) (pos y) color)
        (flat color)
        (min right c.width)
        (λ x. point_area (pos x) (pos y))
        (λ i. box_area i (min right c.width) y (suc y))
row-Rounds c right y color v =
    let fits = v.width_fits in
    record {
      last_fits = omega arith;
      tests = λ i. ground arith;
      paints = λ i d h vd s. draw_point-Paints d (pos i) (pos y) color vd;
      next = λ i px py hx hy h. ground arith;
      end = λ i px py hx hy h. ground arith;
    }

column-Rounds :
    (c : Canvas) (x : ℕ) (color : Color)
    → IsValid c
    → Rounds c
        (λ y. ltb y c.height)
        (λ y d. draw_point d (pos x) (pos y) color)
        (flat color)
        c.height
        (λ y. point_area (pos x) (pos y))
        (λ i. box_area x (suc x) i c.height)
column-Rounds c x color v = record {
  last_fits = v.height_fits;
  tests = λ i. refl;
  paints = λ i d h vd s. draw_point-Paints d (pos x) (pos i) color vd;
  next = λ i px py hx hy h. ground arith;
  end = λ i px py hx hy h. ground arith;
}

module _ (c : Canvas) (v : IsValid c) where
  fill_column-Paints :
      (x : ℕ) (color : Color)
      → Paints c (box_area x (suc x) 0 c.height) (flat color) (fill_column color x c)
  unfolding fill_column
  fill_column-Paints x color = for_u16_rounds-Paints (column-Rounds c x color v) 0 v

  rect_row-Paints :
      (left right y : ℕ) (color : Color)
      → Paints c
          (box_area left (min right c.width) y (suc y))
          (flat color)
          (rect_row left right color y c)
  unfolding rect_row
  rect_row-Paints left right y color = for_u16_rounds-Paints (row-Rounds c right y color v) left v

fill-Rounds :
    (c : Canvas) (color : Color)
    → IsValid c
    → Rounds c
        (λ x. ltb x c.width)
        (λ x d. fill_column color x d)
        (flat color)
        c.width
        (λ i. box_area i (suc i) 0 c.height)
        (λ i. box_area i c.width 0 c.height)
fill-Rounds c color v = record {
  last_fits = v.width_fits;
  tests = λ i. refl;
  paints = λ i d h vd s.
      Paints-area _ (λ x y hx hy. rw s.height_same refl) (fill_column-Paints d vd i color);
  next = λ i px py hx hy h. ground arith;
  end = λ i px py hx hy h. ground arith;
}

-- Filling a valid canvas returns, and gives every pixel the colour.
pub rendering_fill-Paints :
    (c : Canvas) (color : Color)
    → IsValid c
    → Paints c (λ x y. true) (flat color) (rendering_fill c color)
unfolding rendering_fill
rendering_fill-Paints c color v =
    Paints-area _ (λ x y hx hy. ground arith) (for_u16_rounds-Paints (fill-Rounds c color v) 0 v)

rect-Rounds :
    (c : Canvas) (left right bottom : ℕ) (color : Color)
    → IsValid c
    → Rounds c
        (λ y. ltb y bottom && ltb y c.height)
        (λ y d. rect_row left right color y d)
        (flat color)
        (min bottom c.height)
        (λ y. box_area left right y (suc y))
        (λ i. box_area left right i (min bottom c.height))
rect-Rounds c left right bottom color v =
    let fits = v.height_fits in
    record {
      last_fits = omega arith;
      tests = λ i. ground arith;
      paints = λ i d h vd s.
          Paints-area _ (λ x y hx hy. ground arith) (rect_row-Paints d vd left right i color);
      next = λ i px py hx hy h. ground arith;
      end = λ i px py hx hy h. ground arith;
    }

-- The rectangle as the command names it, in exact numbers, if its right and its lower edge fit
-- 16 bits; otherwise nothing.
abbrev pub rect_area : Rect → Area
rect_area rect x y =
    ltb (rect.x + rect.w) 65536
    && ltb (rect.y + rect.h) 65536
    && box_area rect.x (rect.x + rect.w) rect.y (rect.y + rect.h) x y

pub record FitsU16 (rect : Rect) : Type 0 where
  pub x_fits : rect.x < 65536
  pub y_fits : rect.y < 65536
  pub w_fits : rect.w < 65536
  pub h_fits : rect.h < 65536

-- On a valid canvas `rendering_draw_rect` returns, for any rectangle of 16-bit numbers. It paints
-- exactly the pixels of the canvas that lie in the rectangle if the sums `x + w` and `y + h` fit
-- 16 bits, and no pixel at all if one of them wraps.
pub rendering_draw_rect-Paints :
    (c : Canvas) (rect : Rect)
    → IsValid c
    → FitsU16 rect
    → Paints c (rect_area rect) (flat rect.c) (rendering_draw_rect c rect)
unfolding rendering_draw_rect
rendering_draw_rect-Paints c rect v f =
    Paints-area (rect_area rect) (λ x y hx hy. ground arith)
      (for_u16_rounds-Paints
        (rect-Rounds c rect.x (u16 (rect.x + rect.w)) (u16 (rect.y + rect.h)) rect.c v) rect.y v)
