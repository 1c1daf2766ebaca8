-- ===== src/Start/Chosen.antt =====
-- Which backend display/main.c starts, and when it ends with a status.
use ttds.Prelude.{
  ℕ, ◌≡◌, ◌∙◌, refl, ap, Bool, true, false, List, [], ◌∷◌, Option, none, some, inl, inr, arith,
  Bool-cases, map, ◌&&◌, ◌==◌,
}
use ttds.Prelude.Text.{Bytes, codes}
use ttds.Prelude.First.{find_first}
use ttds.Rendering.{backend_drm, backend_mem}
use ttds.Start.{
  Opt, help, unrecognized, backend_opt, test_opt, Args, lower, equal_ignoring_case, Outcome,
  returns, exits, parse_options, check_rest, parse_args, Course, run_tests, run_threads, stop,
  tests_or_threads, course, main,
}

-- The spelling of a backend, in capitals or not.
abbrev pub Spells : Bytes → Bytes → Type 0
Spells word optarg = map lower optarg ≡ map lower word

-- An option gives a backend, a directory for the tests, or nothing that lets the program go on.
pub data Means : Opt → (Args → Args) → Type 0 where
  drm :
      (optarg : Bytes)
      → Spells (codes "DRM") optarg
      → Means (backend_opt optarg) (λ args. record args { backend = backend_drm })
  mem :
      (optarg : Bytes)
      → Spells (codes "MEM") optarg
      → Means (backend_opt optarg) (λ args. record args { backend = backend_mem })
  dump : (dir : Bytes) → Means (test_opt dir) (λ args. record args { tests_dump_dir = some dir })

-- The options in order, each on the arguments that those before it leave, up to the first that ends
-- the program.
pub data Reads : List Opt → Args → Outcome → Type 0 where
  done_reading : {args : Args} → Reads [] args (returns args)
  asks_help : {opts : List Opt} {args : Args} → Reads (help ∷ opts) args (exits 0)
  fails : {opts : List Opt} {args : Args} → Reads (unrecognized ∷ opts) args (exits 1)
  no_backend :
      {opts : List Opt} {args : Args} (optarg : Bytes)
      → ¬ Spells (codes "DRM") optarg
      → ¬ Spells (codes "MEM") optarg
      → Reads (backend_opt optarg ∷ opts) args (exits 1)
  goes_on :
      {opt : Opt} {opts : List Opt} {args : Args} {outcome : Outcome} (change : Args → Args)
      → Means opt change
      → Reads opts (change args) outcome
      → Reads (opt ∷ opts) args outcome

==_true : (a b : ℕ) → (a == b) ≡ true → a ≡ b
==_true a b e = ground arith

==_refl : (a b : ℕ) → a ≡ b → (a == b) ≡ true
==_refl a b e = ground arith

&&_true : (a b : Bool) → (a && b) ≡ true → (a ≡ true) × (b ≡ true)
&&_true true true e = (refl, refl)
&&_true true false e = cc
&&_true false b e = cc

equal_ignoring_case-Spells :
    (optarg word : Bytes) → equal_ignoring_case optarg word ≡ true → Spells word optarg
unfolding equal_ignoring_case
equal_ignoring_case-Spells [] [] e = refl
equal_ignoring_case-Spells [] (d ∷ word) e = cc
equal_ignoring_case-Spells (c ∷ optarg) [] e = cc
equal_ignoring_case-Spells (c ∷ optarg) (d ∷ word) e =
    let (tails, heads) = &&_true (equal_ignoring_case optarg word) (lower c == lower d) e in
    let rest = equal_ignoring_case-Spells optarg word tails in
    let first : lower c ≡ lower d = ==_true (lower c) (lower d) heads in
    ap (λ l. lower c ∷ l) rest ∙ ap (λ a. a ∷ map lower word) first

Spells-equal_ignoring_case :
    (optarg word : Bytes) → Spells word optarg → equal_ignoring_case optarg word ≡ true
unfolding equal_ignoring_case
Spells-equal_ignoring_case [] [] e = refl
Spells-equal_ignoring_case [] (d ∷ word) e = cc
Spells-equal_ignoring_case (c ∷ optarg) [] e = cc
Spells-equal_ignoring_case (c ∷ optarg) (d ∷ word) e =
    let heads : lower c ≡ lower d = cc in
    rw (Spells-equal_ignoring_case optarg word (cc), ==_refl (lower c) (lower d) heads) refl

not-Spells : (optarg word : Bytes) → equal_ignoring_case optarg word ≡ false → ¬ Spells word optarg
not-Spells optarg word differs spells =
    let same = Spells-equal_ignoring_case optarg word spells in cc

parse_options-Reads : (opts : List Opt) (args : Args) → Reads opts args (parse_options opts args)
unfolding parse_options find_first
parse_options-Reads [] args = done_reading
parse_options-Reads (help ∷ opts) args = asks_help
parse_options-Reads (unrecognized ∷ opts) args = fails
parse_options-Reads (test_opt dir ∷ opts) args = goes_on _ (dump dir) (parse_options-Reads opts _)
parse_options-Reads (backend_opt optarg ∷ opts) args =
    elim (Bool-cases (equal_ignoring_case optarg (codes "DRM"))) [
      | inl is ↦
          rw (is, parse_options, find_first)
            (goes_on _ (drm optarg (equal_ignoring_case-Spells optarg (codes "DRM") is))
              (parse_options-Reads opts _))
      | inr not_drm ↦ elim (Bool-cases (equal_ignoring_case optarg (codes "MEM"))) [
        | inl is ↦
            rw (not_drm, is, parse_options, find_first)
              (goes_on _ (mem optarg (equal_ignoring_case-Spells optarg (codes "MEM") is))
                (parse_options-Reads opts _))
        | inr not_mem ↦
            rw (not_drm, not_mem, parse_options, find_first)
              (no_backend optarg (not-Spells optarg (codes "DRM") not_drm)
                (not-Spells optarg (codes "MEM") not_mem))
      ]
    ]

abbrev pub defaults : Args
defaults = record { backend = backend_drm; tests_dump_dir = none }

-- What the program does after reading the options, with or without further arguments.
pub data Goes : Bool → Outcome → Course → Type 0 where
  ended : (left : Bool) (status : ℕ) → Goes left (exits status) (stop status)
  leftover : (args : Args) → Goes true (returns args) (stop 1)
  tests :
      (args : Args) (dir : Bytes)
      → args.tests_dump_dir ≡ some dir
      → Goes false (returns args) (run_tests dir)
  threads :
      (args : Args)
      → args.tests_dump_dir ≡ none
      → Goes false (returns args) (run_threads args.backend)

tests_or_threads-Goes :
    (args : Args) (dir : Option Bytes)
    → args.tests_dump_dir ≡ dir
    → Goes false (returns args) (tests_or_threads dir args.backend)
tests_or_threads-Goes args none unset = threads args unset
tests_or_threads-Goes args (some dir) set = tests args dir set

course-Goes :
    (left : Bool) (outcome : Outcome) → Goes left outcome (course (check_rest left outcome))
course-Goes left (exits status) = ended left status
course-Goes true (returns args) = leftover args
course-Goes false (returns args) = tests_or_threads-Goes args args.tests_dump_dir refl

-- For every sequence of options and with or without further arguments, the program does what the
-- options say: they are read in order from the defaults on, a later one in place of an earlier one,
-- up to the first that asks for help (status 0), is unknown or names no backend (status 1); if all
-- are read, further arguments end the program (status 1), a directory runs the tests, and otherwise
-- the threads start on the backend, which was DRM before any option.
pub main-Goes :
    (opts : List Opt) (left : Bool)
    → (outcome : Outcome) × Reads opts defaults outcome × Goes left outcome (main opts left)
unfolding main parse_args
main-Goes opts left = (
  parse_options opts defaults,
  parse_options-Reads opts defaults,
  course-Goes left (parse_options opts defaults),
)
