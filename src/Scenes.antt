-- ===== src/Scenes.antt =====
-- The tests of display/testing.c, which draw on canvases in memory and write them into files.
-- `Drawing` has the scenes.
pub mod Drawing
pub mod Loops
pub mod Returns
pub mod Written
mod Fixed
mod Tests
use package.ttds.Prelude.{
  ℕ, zero, suc, ◌+◌, ◌-◌, ◌*◌, ◌/◌, ◌%◌, min, Bool, true, false, List, [], ◌∷◌, Option, none, some,
  leb, ltb, ◌==◌, if◌then◌else◌,
}
use package.ttds.Prelude.Int.{pos}
use package.ttds.Prelude.Text.{Bytes, codes}
use package.ttds.Prelude.Run.{Run, done, fault, fatal, spent, ◌>>=◌}
use package.ttds.Canvas.{Color, Canvas, u16, canvas_init_bgra}
use package.ttds.Canvas.Loop.{u16_rounds}
use package.ttds.Canvas.Rect.{Rect, rendering_fill, rendering_draw_rect}
use package.ttds.Canvas.Circle.{Circle, rendering_draw_circle}
use package.ttds.Canvas.Line.{Line, rendering_draw_line}
use package.ttds.Canvas.Copy.{RectCopy, rendering_draw_rect_copy}
use package.ttds.Canvas.Triangle.{Triangle, rendering_draw_triangle}
use package.ttds.Canvas.Bezier.{FloatOps, Bezier2, rendering_draw_bezier2}
use package.ttds.Canvas.Dump.{rendering_dump_bgra_to_rgba}
use package.ttds.Scenes.Drawing.{
  Scene, SceneFloats, bg, test_rects, test_circles, test_lines_burst, test_lines_array,
  test_copy_rect, test_bezier2, test_triangles, test_triangle_array,
}

-- `struct test`.
pub record Test : Type 0 where
  pub fill_color : Color
  pub draw_fn : Scene
  pub output_path : Bytes
  pub width : ℕ
  pub height : ℕ

abbrev pub test_of : Scene → Bytes → ℕ → Test
test_of draw_fn output_path size = record {
  fill_color = bg;
  draw_fn = draw_fn;
  output_path = output_path;
  width = size;
  height = size;
}

abbrev pub all_tests : SceneFloats → FloatOps → ℕ → List Test
all_tests floats ops fuel =
    test_of test_rects (codes "rects.data") 32
    ∷ test_of (test_circles floats) (codes "circles.data") 128
    ∷ test_of test_lines_burst (codes "lines-burst.data") 32
    ∷ test_of (test_lines_array floats) (codes "lines-array.data") 128
    ∷ test_of (test_copy_rect floats) (codes "copy-rect.data") 128
    ∷ test_of (test_bezier2 ops fuel) (codes "bezier2.data") 128
    ∷ test_of test_triangles (codes "triangles.data") 64
    ∷ test_of test_triangle_array (codes "triangle-array.data") 128
    ∷ []

-- A file with the pixels that stand in it.
abbrev pub File : Type 0
File = Bytes × Canvas

-- The body of the loop of `run_these_tests`. The flags: whether there is memory for the canvas and for
-- its buffer, and whether the system calls of the dump succeed.
unfoldable pub run_test : Bool → Bool → Bool → Test → Run File
unfolding canvas_init_bgra
run_test canvas_ok buffer_ok dump_ok test =
    elim (canvas_init_bgra canvas_ok buffer_ok test.width test.height) [
      | none ↦ fault fatal
      | some canvas ↦ rendering_fill canvas test.fill_color >>= λ filled.
          test.draw_fn filled >>= λ drawn.
          rendering_dump_bgra_to_rgba dump_ok drawn >>= λ file. done (test.output_path, file)
    ]

-- What the system answers: whether the directory is there, and whether memory and dumps succeed.
pub record Machine : Type 0 where
  pub dir_ok : Bool
  pub canvas_ok : Bool
  pub buffer_ok : Bool
  pub dump_ok : Bool

unfoldable pub run_each : Machine → List Test → Run (List File)
unfolding run_test
run_each machine [] = done []
run_each machine (test ∷ tests) =
    run_test machine.canvas_ok machine.buffer_ok machine.dump_ok test >>= λ file.
    run_each machine tests >>= λ files. done (file ∷ files)

unfoldable pub run_these_tests : Machine → List Test → Run (List File)
unfolding run_each
run_these_tests machine tests = if machine.dir_ok then run_each machine tests else fault fatal

unfoldable pub run_tests : Machine → SceneFloats → FloatOps → ℕ → Run (List File)
unfolding run_these_tests
run_tests machine floats ops fuel = run_these_tests machine (all_tests floats ops fuel)
