-- ===== src/Commands/Syntax.antt =====
-- What the parser of display/threads/commands.c reads: the grammar `<action> <args>...[;...]` as a
-- relation between texts and commands, and `parse` on the texts of that relation.
use mathlib.Core.Path.{ap₂}
use mathlib.Core.List.{append_assoc, append-nil}
use ttds.Prelude.{
  ℕ, zero, suc, ◌+◌, ◌≤◌, ◌<◌, ◌≡◌, refl, true, false, Bool, ◌||◌, List, [], ◌∷◌, ◌++◌, arith,
}
use ttds.Prelude.{◌==◌, ◌∙◌, sym}
use ttds.Prelude.Text.{Bytes, length, length-append}
use ttds.Prelude.Run.{done, Run}
use ttds.Commands.{isspace, Command, as_argv, ends_action, ends_arg, collect_args, parse}
use ttds.Commands.Scan.{All, Lacks, eat_whitespace-blanks, token-append}

-- A token that no blank, NUL or stop byte interrupts.
abbrev pub IsWord : (ℕ → Bool) → Bytes → Type 0
IsWord stop [] = ⊥
IsWord stop (c ∷ cs) = Lacks stop (c ∷ cs)

-- `Args ws text after` says that the text, which begins with no blank, holds the arguments `ws`,
-- and that `collect_args` leaves the cursor `after`: behind a semicolon that touches the last
-- argument, at the NUL that ends the line, or, if blanks stand behind the last argument, at a NUL in
-- place of what follows them.
pub data Args : List Bytes → Bytes → Bytes → Type 0 where
  at_end : {w rest : Bytes} → IsWord ends_arg w → Args (w ∷ []) (w ++ 0 ∷ rest) (0 ∷ rest)
  at_semicolon : {w rest : Bytes} → IsWord ends_arg w → Args (w ∷ []) (w ++ b';' ∷ rest) rest
  none_left : {c : ℕ} {rest : Bytes} → (c == 0 || c == b';') ≡ true → Args [] (c ∷ rest) (0 ∷ rest)
  another :
      {w : Bytes} {ws : List Bytes} {text after : Bytes} (b : ℕ) (bs : Bytes)
      → IsWord ends_arg w
      → All isspace (b ∷ bs)
      → Args ws text after
      → Args (w ∷ ws) (w ++ b ∷ (bs ++ text)) after

-- What `collect_args` does behind an argument `w` that the byte `e` ends.
abbrev behind : ℕ → ℕ → List Bytes → Bytes → ℕ → Bytes → Run (ℕ × List Bytes × Bytes)
behind fuel argc argv w e rest = elim (e == 0) [
  | true ↦ done (argc + 1, argv ++ w ∷ [], e ∷ rest)
  | false ↦ elim (e == b';') [
    | true ↦ done (argc + 1, argv ++ w ∷ [], rest)
    | false ↦ collect_args true fuel rest (argc + 1) (argv ++ w ∷ [])
  ]
]

collect_args_round :
    (fuel argc : ℕ) (argv : List Bytes) (bs w : Bytes) (e : ℕ) (rest : Bytes)
    → All isspace bs
    → IsWord ends_arg w
    → ends_arg e ≡ true
    → collect_args true (suc fuel) (bs ++ (w ++ e ∷ rest)) argc argv
      ≡ behind fuel argc argv w e rest
unfolding collect_args
collect_args_round fuel argc argv bs [] e rest blanks word end = absurd word
collect_args_round fuel argc argv bs (c ∷ cs) e rest blanks word end =
    let not_blank : isspace c ≡ false = ground arith in
    let not_end : (c == 0 || c == b';') ≡ false = ground arith in
    ground (
      arith,
      eat_whitespace-blanks bs c (cs ++ e ∷ rest) blanks not_blank,
      token-append ends_arg (c ∷ cs) e rest word end,
    )

collect_args_stop :
    (fuel argc : ℕ) (argv : List Bytes) (bs : Bytes) (c : ℕ) (rest : Bytes)
    → All isspace bs
    → (c == 0 || c == b';') ≡ true
    → collect_args true (suc fuel) (bs ++ c ∷ rest) argc argv ≡ done (argc, argv, 0 ∷ rest)
unfolding collect_args
collect_args_stop fuel argc argv bs c rest blanks end =
    let not_blank : isspace c ≡ false = ground arith in
    ground (arith, eat_whitespace-blanks bs c rest blanks not_blank)

behind_blank :
    (fuel argc : ℕ) (argv : List Bytes) (w : Bytes) (b : ℕ) (rest : Bytes)
    → isspace b ≡ true
    → behind fuel argc argv w b rest ≡ collect_args true fuel rest (argc + 1) (argv ++ w ∷ [])
behind_blank fuel argc argv w b rest blank = ground arith

-- `collect_args` reads all arguments, however many blanks stand before each of them.
pub collect_args-Args :
    {ws : List Bytes} {text after : Bytes} (fuel argc : ℕ) (argv : List Bytes) (bs : Bytes)
    → Args ws text after
    → All isspace bs
    → length ws < fuel
    → collect_args true fuel (bs ++ text) argc argv ≡ done (argc + length ws, argv ++ ws, after)
collect_args-Args zero argc argv bs (at_end word) blanks enough = absurd (omega arith)
collect_args-Args zero argc argv bs (none_left end) blanks enough = absurd (omega arith)
collect_args-Args zero argc argv bs (at_semicolon word) blanks enough = absurd (omega arith)
collect_args-Args zero argc argv bs (another b bs' word more later) blanks enough =
    absurd (omega arith)
collect_args-Args (suc fuel) argc argv bs (at_end {w} {rest} word) blanks enough =
    collect_args_round fuel argc argv bs w 0 rest blanks word refl ∙ ground arith
collect_args-Args (suc fuel) argc argv bs (at_semicolon {w} {rest} word) blanks enough =
    collect_args_round fuel argc argv bs w b';' rest blanks word refl ∙ ground arith
collect_args-Args (suc fuel) argc argv bs (none_left {c} {rest} end) blanks enough =
    collect_args_stop fuel argc argv bs c rest blanks end
    ∙ ap₂ (λ n l. done (n, l, 0 ∷ rest)) (omega arith) (sym (append-nil argv))
collect_args-Args (suc fuel) argc argv bs (another {w} {ws} {text} {after} b bs' word more later)
      blanks enough =
    let stops : ends_arg b ≡ true = ground arith in
    collect_args_round fuel argc argv bs w b (bs' ++ text) blanks word stops
    ∙ behind_blank fuel argc argv w b (bs' ++ text) (more.0)
    ∙ (collect_args-Args fuel (argc + 1) (argv ++ w ∷ []) bs' later more.1 (omega arith) ∙ regroup)
  where
    regroup :
        ◌≡◌ {A = Run (ℕ × List Bytes × Bytes)}
          (done (argc + 1 + length ws, (argv ++ w ∷ []) ++ ws, after))
          (done (argc + suc (length ws), argv ++ w ∷ ws, after))
    regroup = ap₂ (λ n l. done (n, l, after)) (omega arith) (append_assoc argv (w ∷ []) ws)

-- The arguments need fewer rounds than the text has bytes.
pub length-Args :
    {ws : List Bytes} {text after : Bytes} → Args ws text after → length ws ≤ length text
length-Args (at_end {w} {rest} word) = omega (arith, length-append w (0 ∷ rest))
length-Args (at_semicolon {w} {rest} word) = omega (arith, length-append w (b';' ∷ rest))
length-Args (none_left end) = omega arith
length-Args (another {w} {text} b bs word more later) =
    omega (arith, length-Args later, length-append w (b ∷ (bs ++ text)), length-append bs text)

-- The parser reads `<action> <args>...`, with any number of blanks before the action and before each
-- argument, if there is memory for the arguments: the command has the action, the arguments and their number, whatever it held before,
-- and the cursor is where `Args` says.
pub parse-Args :
    {ws : List Bytes} {text after : Bytes} (bs a : Bytes) (b : ℕ) (bs' : Bytes) (old : Command)
    → All isspace bs
    → IsWord ends_action a
    → All isspace (b ∷ bs')
    → Args ws text after
    → parse true (bs ++ (a ++ b ∷ (bs' ++ text))) old
      ≡ done (true, after, record { action = a; argc = length ws; argv = as_argv ws })
unfolding parse
parse-Args bs [] b bs' old blanks word more args = absurd word
parse-Args {ws} {text} bs (c ∷ cs) b bs' old blanks word more args =
    let line = bs ++ (c ∷ (cs ++ b ∷ (bs' ++ text))) in
    let not_blank : isspace c ≡ false = ground arith in
    let stops : ends_action b ≡ true = ground arith in
    let enough : length ws < suc (length line) = omega (
      arith,
      length-Args args,
      length-append bs (c ∷ (cs ++ b ∷ (bs' ++ text))),
      length-append cs (b ∷ (bs' ++ text)),
      length-append bs' text,
    ) in
    ground (
      arith,
      eat_whitespace-blanks bs c (cs ++ b ∷ (bs' ++ text)) blanks not_blank,
      token-append ends_action (c ∷ cs) b (bs' ++ text) word stops,
      collect_args-Args (suc (length line)) 0 [] bs' args more.1 enough,
    )

-- An action that ends the line: the number and the array of the arguments stay those of the
-- command before it, and the cursor steps over the NUL.
pub parse_action_at_end :
    (memory : Bool) (bs a rest : Bytes) (old : Command)
    → All isspace bs
    → IsWord ends_action a
    → parse memory (bs ++ (a ++ 0 ∷ rest)) old ≡ done (true, rest, record old { action = a })
unfolding parse
parse_action_at_end memory bs [] rest old blanks word = absurd word
parse_action_at_end memory bs (c ∷ cs) rest old blanks word =
    let not_blank : isspace c ≡ false = ground arith in
    ground (
      arith,
      eat_whitespace-blanks bs c (cs ++ 0 ∷ rest) blanks not_blank,
      token-append ends_action (c ∷ cs) 0 rest word refl,
    )

-- A line that has blanks alone before its NUL holds no further command.
pub parse_nothing :
    (memory : Bool) (bs rest : Bytes) (old : Command)
    → All isspace bs
    → parse memory (bs ++ 0 ∷ rest) old ≡ done (false, 0 ∷ rest, old)
unfolding parse
parse_nothing memory bs rest old blanks =
    ground (arith, eat_whitespace-blanks bs 0 rest blanks refl)
