-- ===== src/Scenes/Tests.antt =====
-- The theorem on display/testing.c with binary fractions in place of `float`.
use ttds.Prelude.{◌+◌, ◌*◌, ◌≡◌, true, List}
use ttds.Prelude.Run.{done}
use ttds.Scenes.Fixed.{fixed, fixed-Ends}
use ttds.Scenes.Drawing.{SceneFloats}
use ttds.Scenes.{File, all_tests, run_tests}
use ttds.Scenes.Written.{AllWritten, run_tests-AllWritten}

abbrev floats : SceneFloats
floats = record {
  circle_count = λ width height. 2;
  circle = λ width height i. (10 * i, 20, 3);
  line = λ width height col row. (10 * col, 5 * row, 10 * col + 4, 5 * row + 2);
}

run_tests-AllWritten_example :
    (files : List File) × (run_tests
        (record { dir_ok = true; canvas_ok = true; buffer_ok = true; dump_ok = true })
        floats
        fixed
        400
      ≡ done files)
    × AllWritten (all_tests floats fixed 400) files
run_tests-AllWritten_example = run_tests-AllWritten floats fixed 400 fixed-Ends
