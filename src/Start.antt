-- ===== src/Start.antt =====
-- The start of the program, of display/main.c: `parse_args`, and what `main` does with its result.
-- What `getopt_long` finds is an input: the options in order, and whether arguments are left.
pub mod Chosen
pub mod Threads
mod Tests
use package.ttds.Prelude.{
  ℕ, ◌+◌, Bool, true, false, ◌&&◌, List, [], ◌∷◌, Option, none, some, leb, ◌==◌, if◌then◌else◌,
}
use package.ttds.Prelude.Text.{Bytes, codes}
use package.ttds.Prelude.First.{find_first}
use package.ttds.Rendering.{Backend, backend_drm, backend_mem}

-- An option as `getopt_long` returns it: 'h', 'b' or 't' with `optarg`, or '?'.
pub data Opt : Type 0 where
  help unrecognized : Opt
  backend_opt test_opt : Bytes → Opt

-- `struct args`.
pub record Args : Type 0 where
  pub backend : Backend
  pub tests_dump_dir : Option Bytes

-- `struct backend_opt`, without the text for the help.
pub record BackendOpt : Type 0 where
  pub backend : Backend
  pub as_string : Bytes

abbrev pub backend_strings : List BackendOpt
backend_strings =
    record { backend = backend_drm; as_string = codes "DRM" }
    ∷ record { backend = backend_mem; as_string = codes "MEM" }
    ∷ []

-- `tolower` on ASCII.
abbrev pub lower : ℕ → ℕ
lower c = if leb b'A' c && leb c b'Z' then c + 32 else c

-- `strcasecmp(left, right) == 0`.
unfoldable pub equal_ignoring_case : Bytes → Bytes → Bool
equal_ignoring_case [] [] = true
equal_ignoring_case [] (d ∷ right) = false
equal_ignoring_case (c ∷ left) [] = false
equal_ignoring_case (c ∷ left) (d ∷ right) = equal_ignoring_case left right && lower c == lower d

-- Returning, or `exit` with a status.
pub data Outcome : Type 0 where
  returns : Args → Outcome
  exits : ℕ → Outcome

abbrev pub spelled : Bytes → BackendOpt → Bool
spelled optarg opt = equal_ignoring_case optarg opt.as_string

-- The loop over the options.
unfoldable pub parse_options : List Opt → Args → Outcome
unfolding find_first equal_ignoring_case
parse_options [] args = returns args
parse_options (help ∷ opts) args = exits 0
parse_options (unrecognized ∷ opts) args = exits 1
parse_options (test_opt optarg ∷ opts) args =
    parse_options opts (record args { tests_dump_dir = some optarg })
parse_options (backend_opt optarg ∷ opts) args =
    elim (find_first (spelled optarg) backend_strings) [
      | none ↦ exits 1
      | some opt ↦ parse_options opts (record args { backend = opt.backend })
    ]

-- The end of `parse_args`: whether arguments are left.
abbrev pub check_rest : Bool → Outcome → Outcome
check_rest left (exits status) = exits status
check_rest left (returns args) = if left then exits 1 else returns args

unfoldable pub parse_args : List Opt → Bool → Outcome
unfolding parse_options
parse_args opts left =
    check_rest left (parse_options opts (record { backend = backend_drm; tests_dump_dir = none }))

-- What `main` goes on to do: run the tests, or start the threads with a backend.
pub data Course : Type 0 where
  run_tests : Bytes → Course
  run_threads : Backend → Course
  stop : ℕ → Course

-- The test `tests_dump_dir != NULL`.
abbrev pub tests_or_threads : Option Bytes → Backend → Course
tests_or_threads none backend = run_threads backend
tests_or_threads (some dump_dir) backend = run_tests dump_dir

abbrev pub course : Outcome → Course
course (exits status) = stop status
course (returns args) = tests_or_threads args.tests_dump_dir args.backend

unfoldable pub main : List Opt → Bool → Course
unfolding parse_args
main opts left = course (parse_args opts left)
