-- ===== src/Commands/Line.antt =====
-- What a whole line does, from the bytes that `fgets` left in the buffer, in display/threads/commands.c.
use mathlib.Core.List.{append_assoc}
use ttds.Prelude.{
  ℕ, suc, ◌<◌, ◌≡◌, refl, sym, true, false, Bool, List, [], ◌∷◌, ◌++◌, some, arith, ◌∙◌, ◌==◌, ap,
}
use ttds.Prelude.Text.{Bytes, length, length-append}
use ttds.Prelude.Run.{Run, done}
use ttds.Commands.{ends_target, find_target, strlen, cmd_should_ignore}
use ttds.Commands.Scan.{Lacks, token-append}
use ttds.Commands.Syntax.{IsWord}
use ttds.Commands.Total.{is_nul, line_of}
use ttds.Commands.Actions.{Display, World}
use ttds.Commands.Reader.{Output, Progress, trim, zeroed, handle_line}
use ttds.Commands.Batch.{Batch, NoCurve, Serving, length-Batch, command_loop-Executed}
use ttds.Commands.Kept.{Sound}

pub trim-newline :
    (t : Bytes) (e : ℕ) (rest : Bytes)
    → Lacks is_nul t
    → (e == 0) ≡ false
    → trim (t ++ e ∷ 0 ∷ rest) ≡ t ++ 0 ∷ 0 ∷ rest
unfolding trim
trim-newline [] e rest clean some_byte = ground arith
trim-newline (c ∷ []) e rest clean some_byte = ground arith
trim-newline (c ∷ d ∷ t) e rest clean some_byte =
    ground (arith, trim-newline (d ∷ t) e rest clean.1 some_byte)

pub strlen-line : (t rest : Bytes) → Lacks is_nul t → strlen (t ++ 0 ∷ rest) ≡ done (length t)
unfolding strlen
strlen-line [] rest clean = ground arith
strlen-line (c ∷ t) rest clean = ground (arith, strlen-line t rest clean.1)

target-clean :
    (w text : Bytes) → Lacks ends_target w → Lacks is_nul text → Lacks is_nul (w ++ b':' ∷ text)
target-clean [] text word clean = (refl, clean)
target-clean (c ∷ w) text word clean = (ground arith, target-clean w text word.1 clean)

module _ (n : ℕ) (ns text stale : Bytes) (word : IsWord ends_target (n ∷ ns))
    (clean : Lacks is_nul text) where
  trimmed :
      trim (n ∷ ns ++ b':' ∷ (text ++ b'\n' ∷ 0 ∷ stale)) ≡ n ∷ ns ++ b':' ∷ line_of text stale
  trimmed =
      ap trim (sym (append_assoc (n ∷ ns) (b':' ∷ text) (b'\n' ∷ 0 ∷ stale)))
      ∙ (trim-newline (n ∷ ns ++ b':' ∷ text) b'\n' stale (target-clean (n ∷ ns) text word clean)
            refl
          ∙ append_assoc (n ∷ ns) (b':' ∷ text) (0 ∷ 0 ∷ stale))

  not_ignored :
      (n == b'#') ≡ false → cmd_should_ignore (n ∷ ns ++ b':' ∷ line_of text stale) ≡ done false
  unfolding cmd_should_ignore
  not_ignored comment =
      let long : strlen (n ∷ ns ++ b':' ∷ line_of text stale)
          ≡ done (length (n ∷ ns ++ b':' ∷ text)) =
        ap strlen (sym (append_assoc (n ∷ ns) (b':' ∷ text) (0 ∷ 0 ∷ stale)))
        ∙ strlen-line (n ∷ ns ++ b':' ∷ text) (0 ∷ stale) (target-clean (n ∷ ns) text word clean) in
      rw long (ground arith)

  target_found :
      find_target (n ∷ ns ++ b':' ∷ line_of text stale) ≡ done (some (n ∷ ns, line_of text stale))
  unfolding find_target
  target_found = rw (token-append ends_target (n ∷ ns) b':' (line_of text stale) word refl) refl

-- The line was run: what it printed, with a call of `ui_sync`, and sound panes.
pub record Handled (r : Run (List Output × Bool × Display)) : Type 0 where
  pub printed : List Output
  pub out : Display
  pub returns : r ≡ done (printed, true, out)
  pub sound : Sound out

-- For a line `<target>:<commands>` that ends with a newline, whose commands all have a blank behind
-- the action and none of which is `BEZIER2`, the reader ends without a fault and calls `ui_sync`,
-- and the panes stay distinct names with canvases that may be drawn on, whatever earlier lines left
-- behind the line in the buffer. There is memory for arguments and messages, the backend's canvases
-- may be drawn on and the system calls of `SAVE` succeed.
pub handle_line-Handled :
    (worlds : ℕ → World) (n : ℕ) (ns text stale : Bytes) (cs : List (Bytes × List Bytes))
    (u : Display)
    → ((k : ℕ) → Serving (worlds k))
    → IsWord ends_target (n ∷ ns)
    → (n == b'#') ≡ false
    → Lacks is_nul text
    → Batch cs (line_of text stale)
    → NoCurve cs
    → Sound u
    → Handled (handle_line worlds (n ∷ ns ++ b':' ∷ (text ++ b'\n' ∷ 0 ∷ stale)) u)
unfolding handle_line
handle_line-Handled worlds n ns text stale cs u serving word comment clean batch curve s =
    let start : Progress = record {
      cursor = line_of text stale;
      result = zeroed;
      has_failed = false;
      printed = [];
      display = u;
    } in
    let fuel = suc (length (n ∷ ns ++ b':' ∷ line_of text stale)) in
    let enough : length cs < fuel =
      omega (arith, length-Batch batch, length-append (n ∷ ns) (b':' ∷ line_of text stale)) in
    let run = command_loop-Executed worlds (n ∷ ns) serving batch fuel start enough refl curve s in
    rw
      (
        trimmed n ns text stale word clean,
        not_ignored n ns text stale word clean comment,
        target_found n ns text stale word clean,
        trimmed n ns text stale word clean,
        run.returns,
      )
      (record { printed = _; out = _; returns = refl; sound = run.sound })
