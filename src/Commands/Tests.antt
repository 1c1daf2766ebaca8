-- ===== src/Commands/Tests.antt =====
-- The parser and the actions of display/threads/commands.c on concrete lines and commands.
mod Lines
use ttds.Prelude.{◌≡◌, refl, true, false, ◌++◌, ◌∷◌, [], some, List, arith}
use ttds.Prelude.Text.{Bytes, codes, equal}
use ttds.Prelude.Int.{pos}
use ttds.Prelude.Run.{done}
use ttds.Canvas.Bezier.{FloatOps}
use ttds.Canvas.Tests.{small, small-IsValid}
use ttds.Panes.Tests.{root_pane, one_pane, one_pane-Represents, one_pane-WellFormed}
use ttds.Commands.{
  null, live, dangling, Command, as_argv, ends_action, ends_target, parse, eat_whitespace, token,
  collect_args,
}
use ttds.Commands.Reader.{handle_line}
use ttds.Commands.Batch.{Batch, end_of_line, command, NoCurve, Serving}
use ttds.Commands.Line.{Handled, handle_line-Handled}
use ttds.Commands.Scan.{Lacks}
use ttds.Commands.Syntax.{
  IsWord, Args, at_semicolon, at_end, another, parse-Args, parse_action_at_end,
}
use ttds.Commands.Total.{is_nul, line_of, Parsed, parse-Parsed}
use ttds.Commands.Values.{no_such_action, parse_color}
use ttds.Commands.Hex.{hex_byte, parse_color-hex_byte}
use ttds.Commands.Actions.{Display, World, Answer}
use ttds.Commands.Dispatch.{call_action, run}
use ttds.Commands.Kept.{Sound}
use ttds.Commands.Kept.Served.{command_of, Served, run-Served}
use ttds.Commands.Stale.{run-dangling}

abbrev stale : Command
stale = record { action = []; argc = 0; argv = null }

abbrev nul2 : Bytes
nul2 = 0 ∷ 0 ∷ []

two_commands :
    parse true (codes " RECT #ffffff 1; REMOVE" ++ nul2) stale
    ≡ done (
      true,
      codes " REMOVE" ++ nul2,
      record { action = codes "RECT"; argc = 2; argv = live (codes "#ffffff" ∷ codes "1" ∷ []) },
    )
unfolding parse eat_whitespace token collect_args
two_commands = refl

blank_before_semicolon :
    parse true (codes " RECT 1 ; REMOVE" ++ nul2) stale
    ≡ done (
      true,
      0 ∷ (codes " REMOVE" ++ nul2),
      record { action = codes "RECT"; argc = 1; argv = live (codes "1" ∷ []) },
    )
unfolding parse eat_whitespace token collect_args
blank_before_semicolon = refl

no_argument :
    parse true (codes "REMOVE" ++ nul2) stale
    ≡ done (true, 0 ∷ [], record stale { action = codes "REMOVE" })
unfolding parse eat_whitespace token collect_args
no_argument = refl

-- `#ffffff 1; REMOVE`.
abbrev arguments : Bytes
arguments = codes "#ffffff" ++ 32 ∷ ([] ++ codes "1" ++ b';' ∷ (codes " REMOVE" ++ nul2))

arguments-Args : Args (codes "#ffffff" ∷ codes "1" ∷ []) arguments (codes " REMOVE" ++ nul2)
arguments-Args =
    another 32 [] (refl, (refl, (refl, (refl, (refl, (refl, (refl, tt))))))) (refl, tt)
      (at_semicolon (refl, tt))

rect-IsWord : IsWord ends_action (codes "RECT")
rect-IsWord = (refl, (refl, (refl, (refl, tt))))

parse-Args_example :
    parse true (codes " " ++ (codes "RECT" ++ 32 ∷ ([] ++ arguments))) stale
    ≡ done (
      true,
      codes " REMOVE" ++ nul2,
      record { action = codes "RECT"; argc = 2; argv = as_argv (codes "#ffffff" ∷ codes "1" ∷ []) },
    )
parse-Args_example =
    parse-Args (codes " ") (codes "RECT") 32 [] stale (refl, tt) rect-IsWord (refl, tt)
      arguments-Args

parse_action_at_end_example :
    parse true (codes " " ++ (codes "RECT" ++ 0 ∷ nul2)) stale
    ≡ done (true, nul2, record stale { action = codes "RECT" })
parse_action_at_end_example =
    parse_action_at_end _ (codes " ") (codes "RECT") nul2 stale (refl, tt) rect-IsWord

two_words-Lacks : Lacks is_nul (codes "LINE 1")
two_words-Lacks = (refl, (refl, (refl, (refl, (refl, (refl, tt))))))

parse-Parsed_example :
    Parsed
      (codes "old")
      (codes "LINE 1")
      stale
      (parse true (line_of (codes "LINE 1") (codes "old")) stale)
parse-Parsed_example = parse-Parsed (codes "LINE 1") (codes "old") stale two_words-Lacks

-- Numbers in place of `float`.
abbrev pub no_floats : FloatOps
no_floats = record {
  Float = Unit {0};
  of_int = λ n. tt;
  plus = λ a b. tt;
  minus = λ a b. tt;
  times = λ a b. tt;
  divide = λ a b. tt;
  square = λ a. tt;
  sqrtf = λ a. tt;
  at_most = λ a b. false;
  roundf = λ a. pos 0;
}

abbrev world : World
world = record {
  memory_ok = true;
  strdup_ok = true;
  canvas = some small;
  files_ok = true;
  floats = no_floats;
  fuel = 0;
}

abbrev display : Display
display = record { storage = one_pane; files = []; interrupted = false }

display-Sound : Sound display
display-Sound = record {
  panes = root_pane ∷ [];
  represents = one_pane-Represents;
  well_formed = one_pane-WellFormed;
  fit = (tt, tt);
}

-- A radius that no 16 bits hold.
abbrev circle_arguments : List Bytes
circle_arguments = codes "#00ff7f" ∷ codes "-1" ∷ codes "0x10" ∷ codes "70000" ∷ []

not_curve : equal (codes "CIRCLE") (codes "BEZIER2") ≡ false
unfolding equal
not_curve = refl

run-Served_example :
    Served (run world display (codes "root") (command_of (codes "CIRCLE") circle_arguments))
run-Served_example =
    run-Served world display (codes "root") (codes "CIRCLE") circle_arguments refl small-IsValid
      refl not_curve display-Sound

-- A command with a freed array that names no action.
abbrev left_over : Command
left_over = record { action = codes "DRAW"; argc = 1; argv = dangling }

unanswered :
    run world display (codes "a") left_over
    ≡ done (dangling, (some (no_such_action (codes "DRAW")), display))
unfolding run call_action equal
unanswered = refl

run-dangling_example :
    ◌≡◌ {A = Answer}
      (some (no_such_action (codes "DRAW")), display)
      (some (no_such_action (codes "DRAW")), display)
run-dangling_example =
    run-dangling world display (codes "a") left_over
      (dangling, (some (no_such_action (codes "DRAW")), display)) refl unanswered

-- `root:REMOVE x;COUNT y`, with bytes of an earlier line behind it.
abbrev two_texts : Bytes
two_texts = codes "REMOVE x;COUNT y"

abbrev two_named : List (Bytes × List Bytes)
two_named = (codes "REMOVE", codes "x" ∷ []) ∷ (codes "COUNT", codes "y" ∷ []) ∷ []

two-Batch : Batch two_named (line_of two_texts (codes "old"))
two-Batch =
    command [] (codes "REMOVE") 32 [] tt (refl, (refl, (refl, (refl, (refl, (refl, tt))))))
      (refl, tt) (at_semicolon (refl, tt))
      (command [] (codes "COUNT") 32 [] tt (refl, (refl, (refl, (refl, (refl, tt))))) (refl, tt)
        (at_end (refl, tt)) (end_of_line [] (0 ∷ codes "old") tt))

two-Lacks : Lacks is_nul two_texts
two-Lacks = (
  refl,
  (
    refl,
    (
      refl,
      (
        refl,
        (
          refl,
          (
            refl,
            (refl, (refl, (refl, (refl, (refl, (refl, (refl, (refl, (refl, (refl, tt)))))))))),
          ),
        ),
      ),
    ),
  ),
)

root-IsWord : IsWord ends_target (codes "root")
root-IsWord = (refl, (refl, (refl, (refl, tt))))

two-NoCurve : NoCurve two_named
unfolding equal
two-NoCurve = (refl, (refl, tt))

world-Serving : Serving world
world-Serving = record { memory = refl; allocates = small-IsValid; files = refl }

handle_line-Handled_example : Handled (
    handle_line
      (λ k. world)
      (b'r' ∷ codes "oot" ++ b':' ∷ (two_texts ++ b'\n' ∷ 0 ∷ codes "old"))
      display)
handle_line-Handled_example =
    handle_line-Handled (λ k. world) b'r' (codes "oot") two_texts (codes "old") two_named display
      (λ k. world-Serving) root-IsWord refl two-Lacks two-Batch two-NoCurve display-Sound

parse_color-hex_byte_example :
    parse_color (b'#' ∷ hex_byte 58 (hex_byte 34 (hex_byte 189 [])))
    ≡ some (record { r = 58; g = 34; b = 189 })
parse_color-hex_byte_example =
    parse_color-hex_byte 58 34 189 (omega arith) (omega arith) (omega arith)
