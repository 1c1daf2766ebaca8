-- ===== src/Canvas/Tests.antt =====
-- The theorems on display/rendering/canvas.c at concrete canvases and shapes.
use ttds.Prelude.{ℕ, ◌≡◌, true, List, arith}
use ttds.Prelude.Int.{pos, negsuc}
use ttds.Canvas.{Color, Canvas, calloc, draw_point}
use ttds.Canvas.Texel.{IsValid, Area, Paints, flat, point_area, draw_point-Paints}
use ttds.Canvas.Rect.{
  Rect, rect_area, rendering_fill, rendering_fill-Paints, rendering_draw_rect,
  rendering_draw_rect-Paints,
}
use ttds.Canvas.Copy.{RectCopy, rendering_draw_rect_copy}
use ttds.Canvas.Copy.Row.{Becomes}
use ttds.Canvas.Copy.Overlap.{copied}
use ttds.Canvas.Copy.Snapshot.{copy_width, copy_height, rendering_draw_rect_copy-Becomes}
use ttds.Canvas.Dump.{mapped_file, swapped, rendering_dump_bgra_to_rgba, rendering_dump-Paints}
use ttds.Canvas.Line.{Line, distance, rendering_draw_line}
use ttds.Canvas.Line.Walk.{Walk, trace, rendering_draw_line-Paints}
use ttds.Canvas.Circle.{Circle, rendering_draw_circle}
use ttds.Canvas.Circle.Box.{box, rendering_draw_circle-Paints}
use ttds.Canvas.Triangle.{Triangle, rendering_draw_triangle}
use ttds.Canvas.Triangle.Fill.{Edges, triangle_area, rendering_draw_triangle-Paints}

abbrev pub white : Color
white = record { r = 255; g = 255; b = 255 }

-- Three columns, two rows, and four bytes behind each row.
abbrev pub small : Canvas
small = record { width = 3; height = 2; stride = 16; buffer = calloc 32 }

pub small-IsValid : IsValid small
small-IsValid = record {
  width_fits = omega arith;
  height_fits = omega arith;
  row_fits = omega arith;
  rows_fit = omega arith;
  offset_fits = omega arith;
}

draw_point-Paints_example :
    Paints small
      (point_area (pos 2) (negsuc 0))
      (flat white)
      (draw_point small (pos 2) (negsuc 0) white)
draw_point-Paints_example = draw_point-Paints small (pos 2) (negsuc 0) white small-IsValid

abbrev wide : Rect
wide = record { x = 1; y = 0; w = 65535; h = 2; c = white }

rendering_draw_rect-Paints_example :
    Paints small (rect_area wide) (flat white) (rendering_draw_rect small wide)
rendering_draw_rect-Paints_example = rendering_draw_rect-Paints small wide small-IsValid (record {
  x_fits = omega arith;
  y_fits = omega arith;
  w_fits = omega arith;
  h_fits = omega arith;
})

abbrev right_by_one : RectCopy
right_by_one = record { dst_x = 1; dst_y = 0; src_x = 0; src_y = 0; w = 5; h = 2 }

rendering_draw_rect_copy-Becomes_example :
    Becomes small
      (copied small right_by_one (copy_width small right_by_one) 0 (copy_height small right_by_one))
      (rendering_draw_rect_copy small right_by_one)
rendering_draw_rect_copy-Becomes_example =
    rendering_draw_rect_copy-Becomes small right_by_one small-IsValid (record {
      dst_x_fits = omega arith;
      dst_y_fits = omega arith;
      src_x_fits = omega arith;
      src_y_fits = omega arith;
      w_fits = omega arith;
      h_fits = omega arith;
    })

rendering_dump-Paints_example :
    Paints
      (mapped_file small)
      (λ x y. true)
      (swapped small)
      (rendering_dump_bgra_to_rgba true small)
rendering_dump-Paints_example = rendering_dump-Paints small small-IsValid

abbrev steep : Line
steep = record { x0 = 2; y0 = 7; x1 = 0; y1 = 1; c = white }

rendering_draw_line-Paints_example :
    (cells : List (ℕ × ℕ)) × Walk (distance 2 0) (distance 7 1) 0 0 cells
    × Paints small (trace steep cells) (flat white) (rendering_draw_line small steep)
rendering_draw_line-Paints_example =
    rendering_draw_line-Paints small steep small-IsValid
      (omega arith, omega arith, omega arith, omega arith)

abbrev corner : Circle
corner = record { x = 0; y = 1; r = 40; c = white }

rendering_draw_circle-Paints_example :
    (a : Area) × ((x y : ℕ) → a x y ≡ true → box corner 40 x y ≡ true)
    × Paints small a (flat white) (rendering_draw_circle small corner)
rendering_draw_circle-Paints_example =
    rendering_draw_circle-Paints small corner small-IsValid (omega arith)

abbrev half : Triangle
half = record { x0 = 0; y0 = 0; x1 = 2; y1 = 9; x2 = 2; y2 = 0; c = white }

rendering_draw_triangle-Paints_example :
    (e : Edges half) × Paints small
      (triangle_area half e)
      (flat white)
      (rendering_draw_triangle small half)
rendering_draw_triangle-Paints_example =
    rendering_draw_triangle-Paints small half small-IsValid (record {
      x0_fits = omega arith;
      y0_fits = omega arith;
      x1_fits = omega arith;
      y1_fits = omega arith;
      x2_fits = omega arith;
      y2_fits = omega arith;
    })

rendering_fill-Paints_example : Paints small (λ x y. true) (flat white) (rendering_fill small white)
rendering_fill-Paints_example = rendering_fill-Paints small white small-IsValid
