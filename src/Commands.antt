-- ===== src/Commands.antt =====
-- The command parser of display/threads/commands.c: `find_target`, `parse`, `collect_args`,
-- `eat_whitespace` and `cmd_should_ignore`, over the bytes of the array `line` from a cursor on. A
-- cursor is the list of the bytes from it to the end of the array, so reading past that end is the
-- fault `out_of_bounds`; a token is the list of its bytes without the NUL that ends it. A NUL that
-- the code writes into the line to end a token lies before the new cursor, or is the first byte at
-- it. The other parts of the file are in the modules below.
pub mod Scan
pub mod Syntax
pub mod Total
pub mod Values
pub mod Actions
pub mod Dispatch
pub mod Reader
pub mod Session
pub mod Kept
pub mod Stale
pub mod Batch
pub mod Line
pub mod Hex
pub mod Tests
use package.ttds.Prelude.{
  ℕ, zero, suc, ◌+◌, Bool, true, false, not, ◌&&◌, ◌||◌, List, [], ◌∷◌, ◌++◌,
}
use package.ttds.Prelude.{leb, ◌==◌, if◌then◌else◌, Option, none, some}
use package.ttds.Prelude.Text.{Bytes, length}
use package.ttds.Prelude.Run.{Run, done, fatal, fault, spent, out_of_bounds, ◌>>=◌}

-- The blanks of the C locale.
abbrev pub isspace : ℕ → Bool
isspace c = c == 32 || leb 9 c && leb c 13

-- `char **argv`, which is null, or an array, or an array that has been freed.
pub data Argv : Type 0 where
  null : Argv
  live : List Bytes → Argv
  dangling : Argv

-- `struct command` less the target, which is one for the line.
pub record Command : Type 0 where
  pub action : Bytes
  pub argc : ℕ
  pub argv : Argv

-- `*cursor`.
abbrev pub peek : Bytes → Run ℕ
peek [] = fault out_of_bounds
peek (c ∷ cs) = done c

-- `cursor + 1`.
abbrev pub advance : Bytes → Bytes
advance [] = []
advance (c ∷ cs) = cs

-- `*cursor = '\0'`.
abbrev pub terminate : Bytes → Bytes
terminate [] = []
terminate (c ∷ cs) = 0 ∷ cs

unfoldable pub eat_whitespace : Bytes → Run Bytes
eat_whitespace [] = fault out_of_bounds
eat_whitespace (c ∷ cs) = if not (c == 0) && isspace c then eat_whitespace cs else done (c ∷ cs)

-- The loops that look for the end of a token: its bytes, and the cursor at the byte that ends it.
unfoldable pub token : (ℕ → Bool) → Bytes → Run (Bytes × Bytes)
token stop [] = fault out_of_bounds
token stop (c ∷ cs) =
    let rest = (token stop cs >>= λ r. done (c ∷ r.0, r.1)) in
    if stop c then done ([], c ∷ cs) else rest

abbrev pub ends_target : ℕ → Bool
ends_target c = c == b':' || c == 0

abbrev pub ends_action : ℕ → Bool
ends_action c = c == 0 || isspace c

abbrev pub ends_arg : ℕ → Bool
ends_arg c = isspace c || c == 0 || c == b';'

-- The target and the cursor behind it; `none` is the null result, which leaves the cursor.
unfoldable pub find_target : Bytes → Run (Option (Bytes × Bytes))
find_target input = token ends_target input >>= λ r. peek r.1 >>= λ e.
    if e == 0
    then done none
    else elim r.0 [ [] ↦ done none | c ∷ cs ↦ done (some (c ∷ cs, advance r.1)) ]

-- The test of what `realloc` returns: without memory the process ends.
abbrev pub reallocated : Bool → Run Bool
reallocated true = done true
reallocated false = fault fatal

-- `argc`, `argv` and the cursor that `collect_args` leaves. The flag says whether `realloc` returns
-- memory. Each round but the last reads an
-- argument, so there are at most as many rounds as bytes, and one.
unfoldable pub collect_args : Bool → ℕ → Bytes → ℕ → List Bytes → Run (ℕ × List Bytes × Bytes)
collect_args memory zero cursor argc argv = spent
collect_args memory (suc fuel) cursor argc argv = eat_whitespace cursor >>= λ input.
    peek input >>= λ c. elim (c == 0 || c == b';') [
      | true ↦ done (argc, argv, terminate input)
      | false ↦ token ends_arg input >>= λ r. reallocated memory >>= λ ok. peek r.1 >>= λ e.
          elim (e == 0) [
            | true ↦ done (argc + 1, argv ++ r.0 ∷ [], r.1)
            | false ↦ elim (e == b';') [
              | true ↦ done (argc + 1, argv ++ r.0 ∷ [], advance r.1)
              | false ↦ collect_args memory fuel (advance r.1) (argc + 1) (argv ++ r.0 ∷ [])
            ]
          ]
    ]

abbrev pub as_argv : List Bytes → Argv
as_argv [] = null
as_argv (a ∷ rest) = live (a ∷ rest)

-- The result of `parse`, with the same flag: whether there was a command, the cursor, and `struct parse_result`, whose
-- `argc` and `argv` stay as they were if the action ends the line.
unfoldable pub parse : Bool → Bytes → Command → Run (Bool × Bytes × Command)
parse memory cursor result = eat_whitespace cursor >>= λ input. peek input >>= λ c.
    if c == 0
    then done (false, input, result)
    else (token ends_action input >>= λ r. peek r.1 >>= λ e.
        if not (e == 0) && not (e == b';')
        then (collect_args memory (suc (length cursor)) (advance r.1) 0 [] >>= λ a.
            done (true, a.2, record { action = r.0; argc = a.0; argv = as_argv a.1 }))
        else done (true, advance r.1, record result { action = r.0 }))

-- `strlen(line)`.
unfoldable pub strlen : Bytes → Run ℕ
strlen [] = fault out_of_bounds
strlen (c ∷ cs) = let rest = (strlen cs >>= λ n. done (suc n)) in if c == 0 then done 0 else rest

unfoldable pub cmd_should_ignore : Bytes → Run Bool
cmd_should_ignore line = strlen line >>= λ len.
    if len == 0 then done true else peek line >>= λ c. if c == b'#' then done true else done false
