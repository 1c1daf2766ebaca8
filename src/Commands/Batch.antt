-- ===== src/Commands/Batch.antt =====
-- The loop over the commands of one line, of display/threads/commands.c, on the lines whose commands
-- all have a blank behind their action, and so an argument list of their own.
use ttds.Prelude.{
  ℕ, zero, suc, ◌≤◌, ◌<◌, ◌≡◌, refl, true, false, List, [], ◌∷◌, ◌++◌, Option, none, some, arith,
}
use ttds.Prelude.Text.{Bytes, codes, equal, length, length-append}
use ttds.Prelude.Run.{Run, done}
use ttds.Panes.Create.{Allocates}
use ttds.Commands.{Argv, Command, isspace, ends_action, parse}
use ttds.Commands.Scan.{All}
use ttds.Commands.Syntax.{
  IsWord, Args, at_end, at_semicolon, none_left, another, parse-Args, parse_nothing,
}
use ttds.Commands.Values.{Reply}
use ttds.Commands.Actions.{Display, World}
use ttds.Commands.Dispatch.{run}
use ttds.Commands.Reader.{Progress, after_run, command_loop}
use ttds.Commands.Kept.{Sound}
use ttds.Commands.Kept.Served.{command_of, run-Served}

-- The cursor stands at the commands of the list, up to a NUL.
pub data Batch : List (Bytes × List Bytes) → Bytes → Type 0 where
  end_of_line : (bs rest : Bytes) → All isspace bs → Batch [] (bs ++ 0 ∷ rest)
  command :
      {ws : List Bytes} {text after : Bytes} {more : List (Bytes × List Bytes)} (bs a : Bytes)
      (b : ℕ) (bs' : Bytes)
      → All isspace bs
      → IsWord ends_action a
      → All isspace (b ∷ bs')
      → Args ws text after
      → Batch more after
      → Batch ((a, ws) ∷ more) (bs ++ (a ++ b ∷ (bs' ++ text)))

-- What follows the arguments is no longer than their text.
Args-shorter :
    {ws : List Bytes} {text after : Bytes} → Args ws text after → length after ≤ length text
Args-shorter (at_end {w} {rest} word) = omega (arith, length-append w (0 ∷ rest))
Args-shorter (at_semicolon {w} {rest} word) = omega (arith, length-append w (b';' ∷ rest))
Args-shorter (none_left end) = omega arith
Args-shorter (another {w} {text = text} b bs word more later) =
    omega (arith, Args-shorter later, length-append w (b ∷ (bs ++ text)), length-append bs text)

pub length-Batch :
    {cs : List (Bytes × List Bytes)} {cursor : Bytes} → Batch cs cursor → length cs ≤ length cursor
length-Batch (end_of_line bs rest blanks) = omega arith
length-Batch (command {text = text} bs a b bs' blanks word more args later) = omega (
  arith,
  length-Batch later,
  Args-shorter args,
  length-append bs (a ++ b ∷ (bs' ++ text)),
  length-append a (b ∷ (bs' ++ text)),
  length-append bs' text,
)

-- No command of the list is `BEZIER2`.
abbrev pub NoCurve : List (Bytes × List Bytes) → Type 0
NoCurve [] = Unit {0}
NoCurve ((a, ws) ∷ more) = (equal a (codes "BEZIER2") ≡ false) × NoCurve more

-- There is memory for arguments and messages, the backend's canvases may be drawn on, and the system
-- calls of `SAVE` succeed.
pub record Serving (w : World) : Type 0 where
  pub memory : w.memory_ok ≡ true
  pub allocates : Allocates w.canvas
  pub files : w.files_ok ≡ true

-- The loop ends, with sound panes.
pub record Executed (r : Run Progress) : Type 0 where
  pub out : Progress
  pub returns : r ≡ done out
  pub sound : Sound out.display

module _ (fuel : ℕ) (worlds : ℕ → World) (target : Bytes) (p : Progress) where
  loop_end :
      (cursor : Bytes) (c : Command)
      → parse (worlds fuel).memory_ok p.cursor p.result ≡ done (false, cursor, c)
      → command_loop (suc fuel) worlds target p ≡ done p
  unfolding command_loop
  loop_end cursor c e = rw (e, command_loop) refl

  loop_answer :
      (cursor : Bytes) (c : Command) (argv : Argv) (answer : Reply) (u : Display)
      → parse (worlds fuel).memory_ok p.cursor p.result ≡ done (true, cursor, c)
      → run (worlds fuel) p.display target c ≡ done (argv, (some answer, u))
      → command_loop (suc fuel) worlds target p
        ≡ done (after_run p cursor (record c { argv = argv }) (some answer) u)
  unfolding command_loop
  loop_answer cursor c argv answer u e e' = rw (e, command_loop, e') refl

  loop_go :
      (cursor : Bytes) (c : Command) (argv : Argv) (u : Display)
      → parse (worlds fuel).memory_ok p.cursor p.result ≡ done (true, cursor, c)
      → run (worlds fuel) p.display target c ≡ done (argv, (none, u))
      → command_loop (suc fuel) worlds target p
        ≡ command_loop fuel worlds target (after_run p cursor (record c { argv = argv }) none u)
  unfolding command_loop
  loop_go cursor c argv u e e' = rw (e, command_loop, e') refl

  -- A command that was run: an answer ends the loop, and otherwise the rest of the loop runs.
  loop_step :
      (cursor : Bytes) (c : Command) (argv : Argv) (reply : Option Reply) (u : Display)
      → parse (worlds fuel).memory_ok p.cursor p.result ≡ done (true, cursor, c)
      → run (worlds fuel) p.display target c ≡ done (argv, (reply, u))
      → Sound u
      → ((q : Progress)
          → q.cursor ≡ cursor
          → Sound q.display
          → Executed (command_loop fuel worlds target q))
      → Executed (command_loop (suc fuel) worlds target p)
  loop_step cursor c argv (some answer) u e e' s rest =
      rw (loop_answer cursor c argv answer u e e') (record { out = _; returns = refl; sound = s })
  loop_step cursor c argv none u e e' s rest = rw (loop_go cursor c argv u e e') (rest _ refl s)

module _ (worlds : ℕ → World) (target : Bytes) (serving : (k : ℕ) → Serving (worlds k)) where
  pub command_loop-Executed :
      {cs : List (Bytes × List Bytes)} {cursor : Bytes}
      → Batch cs cursor
      → (fuel : ℕ) (p : Progress) → length cs < fuel
      → p.cursor ≡ cursor
      → NoCurve cs
      → Sound p.display
      → Executed (command_loop fuel worlds target p)
  command_loop-Executed batch zero p enough at curve s = absurd (omega arith)
  command_loop-Executed (end_of_line bs rest blanks) (suc fuel) p enough at curve s =
      rw
        (loop_end fuel worlds target p (0 ∷ rest) p.result
          (rw ((serving fuel).memory, at) (parse_nothing _ bs rest p.result blanks)))
        (record { out = p; returns = refl; sound = s })
  command_loop-Executed (command {ws} {after = after} bs a b bs' blanks word more args later)
        (suc fuel) p enough at curve s =
      let ok = serving fuel in
      let served =
        run-Served (worlds fuel) p.display target a ws ok.memory ok.allocates ok.files curve.0 s in
      loop_step fuel worlds target p after (command_of a ws) served.argv served.reply served.out
        (rw (ok.memory, at) (parse-Args bs a b bs' p.result blanks word more args)) served.returns
        served.sound
        λ q at_q sound. command_loop-Executed later fuel q (omega arith) at_q curve.1 sound
