-- ===== src/Scenes/Written.antt =====
-- What the tests of display/testing.c write.
use ttds.Prelude.{ℕ, ◌*◌, ◌^◌, ◌≤◌, ◌<◌, ◌≡◌, refl, true, List, [], ◌∷◌, arith}
use ttds.Prelude.Text.{Bytes, codes}
use ttds.Prelude.Run.{done}
use ttds.Canvas.{Canvas, bgra, calloc}
use ttds.Canvas.Texel.{IsValid, texel}
use ttds.Canvas.Rect.{rendering_fill-Paints}
use ttds.Canvas.Bezier.{FloatOps}
use ttds.Canvas.Dump.{swapped, rendering_dump-Paints}
use ttds.Canvas.Keeps.{Kept}
use ttds.Scenes.Drawing.{
  Scene, SceneFloats, test_rects, test_circles, test_lines_burst, test_lines_array, test_copy_rect,
  test_bezier2, test_triangles, test_triangle_array,
}
use ttds.Scenes.{
  Test, test_of, all_tests, File, run_test, Machine, run_each, run_these_tests, run_tests,
}
use ttds.Scenes.Loops.{Each}
use ttds.Scenes.Returns.{
  Ends, test_rects-Kept, test_circles-Kept, test_lines_burst-Kept, test_lines_array-Kept,
  test_copy_rect-Kept, test_bezier2-Kept, test_triangles-Kept, test_triangle_array-Kept,
}

-- The scene returns on a canvas of the test's size, which fits into memory.
pub record IsSafe (test : Test) : Type 0 where
  pub width_fits : test.width < 65536
  pub height_fits : test.height < 65536
  pub size_fits : test.width * 4 * test.height ≤ 2 ^ 32
  pub draws :
      (c : Canvas)
      → IsValid c
      → c.width ≡ test.width
      → c.height ≡ test.height
      → Kept c (test.draw_fn c)

-- The file holds what the scene makes of a canvas of the test's size in its fill colour, with blue and
-- red exchanged.
pub record Written (test : Test) (file : File) : Type 0 where
  pub filled : Canvas
  pub size : (filled.width ≡ test.width) × (filled.height ≡ test.height)
  pub fill :
      (x y k : ℕ)
      → x < test.width
      → y < test.height
      → k < 4
      → texel filled x y k ≡ bgra test.fill_color k
  pub drawn : Canvas
  pub draws : test.draw_fn filled ≡ done drawn
  pub path : file.0 ≡ test.output_path
  pub pixels :
      (x y k : ℕ)
      → x < test.width
      → y < test.height
      → k < 4
      → texel file.1 x y k ≡ swapped drawn x y k

pub data AllWritten : List Test → List File → Type 0 where
  none_left : AllWritten [] []
  written :
      {test : Test} {tests : List Test} {file : File} {files : List File}
      → Written test file
      → AllWritten tests files
      → AllWritten (test ∷ tests) (file ∷ files)

abbrev fresh : Test → Canvas
fresh test = record {
  width = test.width;
  height = test.height;
  stride = test.width * 4;
  buffer = calloc (test.height * (test.width * 4));
}

fresh-IsValid : (test : Test) → IsSafe test → IsValid (fresh test)
fresh-IsValid test safe = record {
  width_fits = safe.width_fits;
  height_fits = safe.height_fits;
  row_fits = omega arith;
  rows_fit = omega arith;
  offset_fits = safe.size_fits;
}

run_test-Written :
    (test : Test)
    → IsSafe test
    → (file : File) × (run_test true true true test ≡ done file) × Written test file
unfolding run_test
run_test-Written test safe =
    let fill = rendering_fill-Paints (fresh test) test.fill_color (fresh-IsValid test safe) in
    let scene = safe.draws fill.out fill.valid fill.shape.width_same fill.shape.height_same in
    let dump = rendering_dump-Paints scene.out scene.valid in
    (
      (test.output_path, dump.out),
      rw (fill.returns, scene.returns, dump.returns) refl,
      record {
        filled = fill.out;
        size = (fill.shape.width_same, fill.shape.height_same);
        fill = fill.pixels;
        drawn = scene.out;
        draws = scene.returns;
        path = refl;
        pixels = λ x y k hx hy hk.
            dump.pixels x y k (omega (arith, scene.shape.width_same, fill.shape.width_same))
              (omega (arith, scene.shape.height_same, fill.shape.height_same)) hk;
      },
    )

abbrev working : Machine
working = record { dir_ok = true; canvas_ok = true; buffer_ok = true; dump_ok = true }

run_each-AllWritten :
    (tests : List Test)
    → Each IsSafe tests
    → (files : List File) × (run_each working tests ≡ done files) × AllWritten tests files
unfolding run_each
run_each-AllWritten [] safe = ([], refl, none_left)
run_each-AllWritten (test ∷ tests) (safe, more) =
    let (file, runs, is_written) = run_test-Written test safe in
    let (files, run, all) = run_each-AllWritten tests more in
    (file ∷ files, rw (runs, run) refl, written is_written all)

test_of-IsSafe :
    (scene : Scene) (path : Bytes) (size : ℕ)
    → size ≤ 128
    → ((c : Canvas) → IsValid c → c.width ≡ size → c.height ≡ size → Kept c (scene c))
    → IsSafe (test_of scene path size)
test_of-IsSafe scene path size small draws = record {
  width_fits = omega arith;
  height_fits = omega arith;
  size_fits = square_fits size small;
  draws = draws;
}
  where
    square_fits : (size : ℕ) → size ≤ 128 → size * 4 * size ≤ 2 ^ 32
    square_fits size small = grind arith

all_tests-IsSafe :
    (floats : SceneFloats) (ops : FloatOps) (fuel : ℕ)
    → Ends ops fuel
    → Each IsSafe (all_tests floats ops fuel)
all_tests-IsSafe floats ops fuel ends = (
  test_of-IsSafe test_rects (codes "rects.data") 32 (omega arith)
      (λ c v hx hy. test_rects-Kept c v),
  (
    test_of-IsSafe (test_circles floats) (codes "circles.data") 128 (omega arith)
        (λ c v hx hy. test_circles-Kept floats c v),
    (
      test_of-IsSafe test_lines_burst (codes "lines-burst.data") 32 (omega arith) (λ c v hx hy.
          test_lines_burst-Kept c (omega arith, omega arith, omega arith, omega arith) v),
      (
        test_of-IsSafe (test_lines_array floats) (codes "lines-array.data") 128 (omega arith)
            (λ c v hx hy. test_lines_array-Kept floats c v),
        (
          test_of-IsSafe (test_copy_rect floats) (codes "copy-rect.data") 128 (omega arith)
              (λ c v hx hy. test_copy_rect-Kept floats c v),
          (
            test_of-IsSafe (test_bezier2 ops fuel) (codes "bezier2.data") 128 (omega arith)
                (test_bezier2-Kept ops fuel ends),
            (
              test_of-IsSafe test_triangles (codes "triangles.data") 64 (omega arith)
                  (λ c v hx hy. test_triangles-Kept c v),
              (
                test_of-IsSafe test_triangle_array (codes "triangle-array.data") 128 (omega arith)
                    (λ c v hx hy. test_triangle_array-Kept c v),
                tt,
              ),
            ),
          ),
        ),
      ),
    ),
  ),
)

-- Where the system calls succeed and there is memory, whatever values come from the floating-point
-- code of the scenes: if the parameter of each of the 64 curves of `test_bezier2` passes 1 within the
-- fuel, all eight tests run to their ends without touching memory outside a canvas, and write eight
-- files. Each file has, with blue and red exchanged, the pixels that its scene makes of a canvas in the
-- background colour.
pub run_tests-AllWritten :
    (floats : SceneFloats) (ops : FloatOps) (fuel : ℕ)
    → Ends ops fuel
    → (files : List File) × (run_tests
          (record { dir_ok = true; canvas_ok = true; buffer_ok = true; dump_ok = true })
          floats
          ops
          fuel
        ≡ done files)
      × AllWritten (all_tests floats ops fuel) files
unfolding run_tests run_these_tests
run_tests-AllWritten floats ops fuel ends =
    run_each-AllWritten (all_tests floats ops fuel) (all_tests-IsSafe floats ops fuel ends)
