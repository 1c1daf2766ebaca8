-- ===== src/Commands/Session.antt =====
-- The loop of `cmd_inner` and `cmd_thread` of display/threads/commands.c: which lines are read and
-- when the reading ends. What `poll` and `fgets` answer is an input.
pub mod Ran
use mathlib.Core.List.{append_assoc}
use ttds.Prelude.{
  suc, ℕ, ◌≡◌, refl, Bool, true, false, not, ◌&&◌, List, [], ◌∷◌, ◌++◌, Option, none, some,
  if◌then◌else◌, ◌==◌, ap, ◌∙◌, arith,
}
use ttds.Prelude.Text.{Bytes, length}
use ttds.Prelude.Run.{Run, done, fault, fatal, spent, ◌>>=◌}
use ttds.Commands.{ends_target, cmd_should_ignore, strlen}
use ttds.Commands.Scan.{Lacks}
use ttds.Commands.Syntax.{IsWord}
use ttds.Commands.Total.{is_nul, line_of}
use ttds.Commands.Actions.{Display, World}
use ttds.Commands.Reader.{Output, handle_line, trim}
use ttds.Commands.Batch.{Batch, NoCurve, Serving}
use ttds.Commands.Kept.{Sound}
use ttds.Commands.Line.{Handled, handle_line-Handled, trim-newline, strlen-line}

-- What `fgets` puts into the buffer up to its NUL, what is behind it, and the environment of the
-- line's commands.
pub record Line : Type 1 where
  pub text : Bytes
  pub stale : Bytes
  pub worlds : ℕ → World

pub data Fetched : Type 1 where
  fetched : Line → Fetched
  end_of_file broken : Fetched

-- One wait: whether `poll` succeeds, whether each descriptor has input, and what `fgets` gives then.
pub record Wait : Type 1 where
  pub poll_ok : Bool
  pub cancelled : Bool
  pub readable : Bool
  pub input : Fetched

-- What each line printed and whether it called `ui_sync`, in order, and the state.
pub record Session : Type 0 where
  pub lines : List (List Output × Bool)
  pub display : Display

unfoldable pub handle : Line → Display → Run (List Output × Bool × Display)
handle l u = handle_line l.worlds (l.text ++ 0 ∷ l.stale) u

abbrev pub with_line : List Output × Bool × Display → Session → Session
with_line h rest = record { lines = (h.0, h.1) ∷ rest.lines; display = rest.display }

-- The loop of `cmd_inner`. The flag says whether `fds[1].fd` is still the standard input: `poll`
-- reports nothing on a negative descriptor. Where the waits end before that the loop waits on.
unfoldable pub reader_loop : Bool → List Wait → Display → Run Session
reader_loop listening [] u = spent
reader_loop listening (w ∷ ws) u =
    if not w.poll_ok
    then fault fatal
    else if w.cancelled
    then done (record { lines = []; display = u })
    else if not (listening && w.readable)
    then reader_loop listening ws u
    else elim w.input [
      | end_of_file ↦ reader_loop false ws u
      | broken ↦ fault fatal
      | fetched l ↦
          handle l u >>= λ h. reader_loop listening ws h.2 >>= λ rest. done (with_line h rest)
    ]

unfoldable pub cmd_inner : List Wait → Display → Run Session
cmd_inner ws u = reader_loop true ws u

-- `cmd_thread`, with whether `pipe`, `pthread_create` and `write` succeed. The reader runs while it
-- waits in `term_block`, and finds the byte that it writes then. If it cannot write the byte, it does
-- not wait for the reader's end.
unfoldable pub cmd_thread : Bool → Bool → Bool → List Wait → Display → Run (Option Session)
cmd_thread pipe_ok create_ok write_ok ws u =
    if not pipe_ok
    then fault fatal
    else if not create_ok
    then fault fatal
    else if write_ok
    then (cmd_inner ws u >>= λ s. done (some s))
    else done none

-- The lines one after another, and nothing else: what the reader stands for.
abbrev pub run_lines : List Line → Display → Run Session
run_lines [] u = done (record { lines = []; display = u })
run_lines (l ∷ ls) u = handle l u >>= λ h. run_lines ls h.2 >>= λ rest. done (with_line h rest)

-- A line that ends with a newline: it is empty, a comment, or a target with commands that all have a
-- blank behind the action, none of which is `BEZIER2`.
pub data IsProper (l : Line) : Type 0 where
  blank : l.text ≡ b'\n' ∷ [] → IsProper l
  comment : (text : Bytes) → Lacks is_nul text → l.text ≡ b'#' ∷ (text ++ b'\n' ∷ []) → IsProper l
  commands :
      (n : ℕ) (ns text : Bytes) (cs : List (Bytes × List Bytes))
      → IsWord ends_target (n ∷ ns)
      → (n == b'#') ≡ false
      → Lacks is_nul text
      → Batch cs (line_of text l.stale)
      → NoCurve cs
      → l.text ≡ n ∷ ns ++ b':' ∷ (text ++ b'\n' ∷ [])
      → IsProper l
