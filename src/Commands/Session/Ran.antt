-- ===== src/Commands/Session/Ran.antt =====
-- What the reader of display/threads/commands.c does with the lines that it reads.
use mathlib.Core.List.{append_assoc}
use ttds.Prelude.{
  suc, ℕ, ◌≡◌, refl, Bool, true, false, ◌&&◌, List, [], ◌∷◌, ◌++◌, Option, some, ◌==◌, ap, ◌∙◌,
  arith,
}
use ttds.Prelude.Text.{Bytes, length}
use ttds.Prelude.Run.{Run, done, ◌>>=◌, >>=-ext}
use ttds.Commands.{ends_target, cmd_should_ignore, strlen}
use ttds.Commands.Scan.{Lacks}
use ttds.Commands.Syntax.{IsWord}
use ttds.Commands.Total.{is_nul, line_of}
use ttds.Commands.Actions.{Display, World}
use ttds.Commands.Reader.{Output, handle_line, trim}
use ttds.Commands.Batch.{Batch, NoCurve, Serving}
use ttds.Commands.Kept.{Sound}
use ttds.Commands.Line.{handle_line-Handled, trim-newline, strlen-line}
use ttds.Commands.Session.{
  Line, fetched, end_of_file, Wait, Session, handle, with_line, reader_loop, cmd_inner, cmd_thread,
  run_lines, IsProper, blank, comment, commands,
}

-- The line was run or passed over, with sound panes.
pub record Answered (r : Run (List Output × Bool × Display)) : Type 0 where
  pub answer : List Output × Bool × Display
  pub returns : r ≡ done answer
  pub sound : Sound answer.2

module _ (worlds : ℕ → World) (stale : Bytes) (u : Display) where
  ignored-Answered :
      (text line : Bytes)
      → trim (text ++ 0 ∷ stale) ≡ line
      → cmd_should_ignore line ≡ done true
      → Sound u
      → Answered (handle_line worlds (text ++ 0 ∷ stale) u)
  unfolding handle_line
  ignored-Answered text line trimmed ignored s =
      rw (trimmed, ignored) (record { answer = ([], false, u); returns = refl; sound = s })

  blank-Answered : Sound u → Answered (handle_line worlds (b'\n' ∷ 0 ∷ stale) u)
  unfolding trim cmd_should_ignore strlen
  blank-Answered s = ignored-Answered (b'\n' ∷ []) (0 ∷ 0 ∷ stale) refl refl s

  comment_ignored :
      (text : Bytes)
      → Lacks is_nul text
      → cmd_should_ignore (b'#' ∷ (text ++ 0 ∷ 0 ∷ stale)) ≡ done true
  unfolding cmd_should_ignore
  comment_ignored text clean =
      rw (strlen-line (b'#' ∷ text) (0 ∷ stale) (refl, clean)) (ground arith)

  comment-Answered :
      (text : Bytes)
      → Lacks is_nul text
      → Sound u
      → Answered (handle_line worlds ((b'#' ∷ (text ++ b'\n' ∷ [])) ++ 0 ∷ stale) u)
  comment-Answered text clean s =
      ignored-Answered (b'#' ∷ (text ++ b'\n' ∷ [])) (b'#' ∷ (text ++ 0 ∷ 0 ∷ stale))
        (ap trim (append_assoc (b'#' ∷ text) (b'\n' ∷ []) (0 ∷ stale))
          ∙ trim-newline (b'#' ∷ text) b'\n' stale (refl, clean) refl)
        (comment_ignored text clean) s

  commands-Answered :
      (n : ℕ) (ns text : Bytes) (cs : List (Bytes × List Bytes))
      → ((k : ℕ) → Serving (worlds k))
      → IsWord ends_target (n ∷ ns)
      → (n == b'#') ≡ false
      → Lacks is_nul text
      → Batch cs (line_of text stale)
      → NoCurve cs
      → Sound u
      → Answered (handle_line worlds ((n ∷ ns ++ b':' ∷ (text ++ b'\n' ∷ [])) ++ 0 ∷ stale) u)
  commands-Answered n ns text cs serving word no_comment clean batch curve s =
      let h =
        handle_line-Handled worlds n ns text stale cs u serving word no_comment clean batch curve
          s in
      rw
        (
          append_assoc (n ∷ ns) (b':' ∷ (text ++ b'\n' ∷ [])) (0 ∷ stale),
          append_assoc text (b'\n' ∷ []) (0 ∷ stale),
        )
        (record { answer = (h.printed, true, h.out); returns = h.returns; sound = h.sound })

handle-Answered :
    (l : Line) (u : Display)
    → IsProper l
    → ((k : ℕ) → Serving (l.worlds k))
    → Sound u
    → Answered (handle l u)
unfolding handle
handle-Answered l u (blank e) serving s = rw e (blank-Answered l.worlds l.stale u s)
handle-Answered l u (comment text clean e) serving s =
    rw e (comment-Answered l.worlds l.stale u text clean s)
handle-Answered l u (commands n ns text cs word no_comment clean batch curve e) serving s =
    rw e (
      commands-Answered l.worlds l.stale u n ns text cs serving word no_comment clean batch curve s)

-- What the waits let the loop read, up to the one that finds the byte that ends the reading: nothing
-- after the end of the input.
pub data Reads : Bool → List Wait → List Line → Type 1 where
  stop :
      {listening : Bool} {w : Wait} {later : List Wait}
      → w.poll_ok ≡ true
      → w.cancelled ≡ true
      → Reads listening (w ∷ later) []
  idle :
      {listening : Bool} {w : Wait} {ws : List Wait} {ls : List Line}
      → w.poll_ok ≡ true
      → w.cancelled ≡ false
      → (listening && w.readable) ≡ false
      → Reads listening ws ls
      → Reads listening (w ∷ ws) ls
  read :
      {w : Wait} {ws : List Wait} {l : Line} {ls : List Line}
      → w.poll_ok ≡ true
      → w.cancelled ≡ false
      → w.readable ≡ true
      → w.input ≡ fetched l
      → Reads true ws ls
      → Reads true (w ∷ ws) (l ∷ ls)
  finish :
      {w : Wait} {ws : List Wait} {ls : List Line}
      → w.poll_ok ≡ true
      → w.cancelled ≡ false
      → w.readable ≡ true
      → w.input ≡ end_of_file
      → Reads false ws ls
      → Reads true (w ∷ ws) ls

reader_loop-lines :
    {listening : Bool} {ws : List Wait} {ls : List Line} (u : Display)
    → Reads listening ws ls
    → reader_loop listening ws u ≡ run_lines ls u
unfolding reader_loop
reader_loop-lines u (stop ok end) = rw (ok, end) refl
reader_loop-lines u (idle ok on nothing more) = rw (ok, on, nothing) (reader_loop-lines u more)
reader_loop-lines u (read ok on ready got more) =
    rw (ok, on, ready, got)
      (>>=-ext (handle _ u) _ _
        (λ h. ap (λ run. run >>= λ rest. done (with_line h rest)) (reader_loop-lines h.2 more)))
reader_loop-lines u (finish ok on ready got more) =
    rw (ok, on, ready, got) (reader_loop-lines u more)

-- Lines that the loop serves.
abbrev pub AllProper : List Line → Type 1
AllProper [] = Unit {1}
AllProper (l ∷ ls) = IsProper l × ((k : ℕ) → Serving (l.worlds k)) × AllProper ls

-- The lines one after another end, with an entry for each line and with sound panes.
pub record Ran (ls : List Line) (u : Display) (r : Run (Option Session)) : Type 0 where
  pub session : Session
  pub in_order : run_lines ls u ≡ done session
  pub returns : r ≡ done (some session)
  pub answered : length session.lines ≡ length ls
  pub sound : Sound session.display

record Through (ls : List Line) (u : Display) : Type 0 where
  session : Session
  in_order : run_lines ls u ≡ done session
  answered : length session.lines ≡ length ls
  sound : Sound session.display

run_lines-Through : (ls : List Line) (u : Display) → AllProper ls → Sound u → Through ls u
run_lines-Through [] u proper s = record {
  session = _;
  in_order = refl;
  answered = refl;
  sound = s;
}
run_lines-Through (l ∷ ls) u (one, serving, others) s =
    let first = handle-Answered l u one serving s in
    let rest = run_lines-Through ls first.answer.2 others first.sound in
    record {
      session = with_line first.answer rest.session;
      in_order = rw (first.returns, rest.in_order) refl;
      answered = ap suc rest.answered;
      sound = rest.sound;
    }

-- If `pipe`, `pthread_create` and `write` succeed, the thread that reads the commands ends as soon as
-- a wait finds the byte that ends the reading: it has run the lines that were read before, up to the
-- end of the input, one after another and nothing else, and the panes stay sound, whatever is left
-- in the buffer behind a line. Each line ends with a newline and is empty, a comment, or a target
-- with commands that all have a blank behind the action, none of which is `BEZIER2`; there is memory
-- for arguments and messages, the backend's canvases may be drawn on and the system calls of `SAVE`
-- succeed.
pub cmd_thread-Ran :
    (ws : List Wait) (ls : List Line) (u : Display)
    → Reads true ws ls
    → AllProper ls
    → Sound u
    → Ran ls u (cmd_thread true true true ws u)
unfolding cmd_thread cmd_inner
cmd_thread-Ran ws ls u reads proper s =
    let t = run_lines-Through ls u proper s in
    rw (reader_loop-lines u reads, t.in_order)
      (record {
        session = t.session;
        in_order = t.in_order;
        returns = refl;
        answered = t.answered;
        sound = t.sound;
      })
