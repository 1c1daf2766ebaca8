-- ===== src/Commands/Kept/Served.antt =====
-- `run` of display/threads/commands.c for every command whose arguments are those of its own line.
use ttds.Prelude.{
  ◌≡◌, refl, Bool, true, false, List, [], ◌∷◌, Option, some, inl, inr, Bool-cases, arith,
  if◌then◌else◌,
}
use ttds.Prelude.Text.{Bytes, codes, equal, length}
use ttds.Prelude.Run.{Run, done, ◌>>=◌}
use ttds.Canvas.{Canvas}
use ttds.Canvas.Texel.{SameShape}
use ttds.Panes.Create.{Allocates}
use ttds.Commands.{Argv, Command, as_argv}
use ttds.Commands.Values.{Reply}
use ttds.Commands.Actions.{Display, World, Act, Answer}
use ttds.Commands.Dispatch.{Table, actions, root_actions, release, call_action, run}
use ttds.Commands.Kept.{SoundFor, Sound, Anything, Kept}
use ttds.Commands.Kept.Acts.{
  act_create-Kept, act_remove-Kept, act_rect-Kept, act_circle-Kept, act_line-Kept,
  act_copy_rect-Kept, act_triangle-Kept, act_term-Kept, act_save-Kept, act_count-Kept,
}

-- A command as `parse` makes it.
abbrev pub command_of : Bytes → List Bytes → Command
command_of action ws = record { action = action; argc = length ws; argv = as_argv ws }

-- The action, called on the arguments, returns and keeps the panes sound.
abbrev Keeps : (Canvas → Type 0) → Act → Type 0
Keeps Fits hook =
    (u : Display) (target : Bytes) (ws : List Bytes)
    → SoundFor Fits u
    → Kept Fits (hook u target (length ws) (as_argv ws))

-- What a table must have, for the actions that a command may name.
abbrev Serves : (Canvas → Type 0) → Bytes → Table → Type 0
Serves Fits action [] = Unit {0}
Serves Fits action ((name, hook) ∷ table) =
    (equal action name ≡ true → Keeps Fits hook) × Serves Fits action table

record Called (Fits : Canvas → Type 0) (r : Run (Bool × Argv × Answer)) : Type 0 where
  found : Bool
  argv : Argv
  reply : Option Reply
  out : Display
  returns : r ≡ done (found, argv, (reply, out))
  sound : SoundFor Fits out

-- The command was run: an answer, and sound panes.
pub record ServedFor (Fits : Canvas → Type 0) (r : Run (Argv × Answer)) : Type 0 where
  pub argv : Argv
  pub reply : Option Reply
  pub out : Display
  pub returns : r ≡ done (argv, (reply, out))
  pub sound : SoundFor Fits out

abbrev pub Served : Run (Argv × Answer) → Type 0
Served r = ServedFor Anything r

release-returns : (ws : List Bytes) → (argv : Argv) × (release (as_argv ws) ≡ done argv)
release-returns [] = (_, refl)
release-returns (w ∷ ws) = (_, refl)

call_action-Called :
    {Fits : Canvas → Type 0} (memory : Bool) (table : Table) (u : Display) (target action : Bytes)
    (ws : List Bytes)
    → memory ≡ true
    → SoundFor Fits u
    → Serves Fits action table
    → Called Fits (call_action memory table u target (command_of action ws))
unfolding call_action
call_action-Called memory [] u target action ws ok s serves =
    rw ok (record { found = false; argv = _; reply = _; out = u; returns = refl; sound = s })
call_action-Called memory ((name, hook) ∷ table) u target action ws ok s (good, serves) =
    elim (Bool-cases (equal action name)) [
      | inl hit ↦
          let kept = good hit u target ws s in
          let (argv, released) = release-returns ws in
          record {
            found = true;
            argv = argv;
            reply = kept.reply;
            out = kept.out;
            returns = rw (hit, kept.returns, released) refl;
            sound = kept.sound;
          }
      | inr miss ↦
          let called = call_action-Called memory table u target action ws ok s serves in
          record {
            found = called.found;
            argv = called.argv;
            reply = called.reply;
            out = called.out;
            returns = rw miss called.returns;
            sound = called.sound;
          }
    ]

module _ (Fits : Canvas → Type 0) (shaped : (c d : Canvas) → Fits c → SameShape c d → Fits d)
    (w : World) (memory : w.memory_ok ≡ true) (allocates : Allocates w.canvas)
    (fits : (c : Canvas) → w.canvas ≡ some c → Fits c) where
  Serves-actions :
      (action : Bytes) → equal action (codes "BEZIER2") ≡ false → Serves Fits action (actions w)
  Serves-actions action curve = (
    λ _ u target ws s. act_create-Kept Fits shaped w memory u target ws s allocates fits,
    (
      λ _ u target ws s. act_remove-Kept Fits shaped w memory u target ws s,
      (
        λ _ u target ws s. act_rect-Kept Fits shaped w memory u target ws s,
        (
          λ _ u target ws s. act_circle-Kept Fits shaped w memory u target ws s,
          (
            λ _ u target ws s. act_line-Kept Fits shaped w memory u target ws s,
            (
              λ _ u target ws s. act_copy_rect-Kept Fits shaped w memory u target ws s,
              (
                λ named. absurd (ground (arith, named, curve)),
                (λ _ u target ws s. act_triangle-Kept Fits shaped w memory u target ws s, tt),
              ),
            ),
          ),
        ),
      ),
    ),
  )

  Serves-root : (action : Bytes) → w.files_ok ≡ true → Serves Fits action (root_actions w)
  Serves-root action files = (
    λ _ u target ws s. act_term-Kept Fits shaped w memory u target ws s,
    (
      λ _ u target ws s. act_save-Kept Fits shaped w memory u target ws s files,
      (λ _ u target ws s. act_count-Kept Fits shaped w memory u target ws s, tt),
    ),
  )

  -- The answer of the table that has the action.
  run-actions :
      (u : Display) (target action : Bytes) (ws : List Bytes)
      → SoundFor Fits u
      → equal action (codes "BEZIER2") ≡ false
      → ServedFor Fits (
          call_action w.memory_ok (actions w) u target (command_of action ws) >>= λ s.
          done (s.1, s.2))
  run-actions u target action ws s curve =
      let called =
        call_action-Called w.memory_ok (actions w) u target action ws memory s
          (Serves-actions action curve) in
      rw called.returns (record {
        argv = called.argv;
        reply = called.reply;
        out = called.out;
        returns = refl;
        sound = called.sound;
      })

-- With a property of the canvases that depends on their shape alone.
pub run-ServedFor :
    (Fits : Canvas → Type 0) (w : World) (u : Display) (target action : Bytes) (ws : List Bytes)
    → ((c d : Canvas) → Fits c → SameShape c d → Fits d)
    → w.memory_ok ≡ true
    → Allocates w.canvas
    → ((c : Canvas) → w.canvas ≡ some c → Fits c)
    → w.files_ok ≡ true
    → equal action (codes "BEZIER2") ≡ false
    → SoundFor Fits u
    → ServedFor Fits (run w u target (command_of action ws))
unfolding run
run-ServedFor Fits w u target action ws shaped memory allocates fits files curve s =
    elim (Bool-cases (equal target (codes "root"))) [
      | inr other ↦
          rw other (run-actions Fits shaped w memory allocates fits u target action ws s curve)
      | inl root ↦
          let called =
            call_action-Called w.memory_ok (root_actions w) u target action ws memory s
              (Serves-root Fits shaped w memory allocates fits action files) in
          rw (root, called.returns) (after called.found called)
    ]
  where
    after :
        (found : Bool)
        (called : Called Fits
          (call_action w.memory_ok (root_actions w) u target (command_of action ws)))
        → ServedFor Fits (
            if found
            then done (called.argv, (called.reply, called.out))
            else (call_action w.memory_ok (actions w) u target (command_of action ws) >>= λ r.
                done (r.1, r.2)))
    after true called = record {
      argv = called.argv;
      reply = called.reply;
      out = called.out;
      returns = refl;
      sound = called.sound;
    }
    after false called = run-actions Fits shaped w memory allocates fits u target action ws s curve

-- On a display whose panes are distinct names with canvases that may be drawn on, every command
-- with its own arguments, whatever its target, its action and the number and the text of its
-- arguments, returns an answer and leaves such a display, if there is memory for messages, the
-- backend's canvases may be drawn on, the system calls of `SAVE` succeed, and the action is not
-- `BEZIER2`. No command reads or
-- writes outside a buffer or an array, follows a freed pointer, or frees one twice.
pub run-Served :
    (w : World) (u : Display) (target action : Bytes) (ws : List Bytes)
    → w.memory_ok ≡ true
    → Allocates w.canvas
    → w.files_ok ≡ true
    → equal action (codes "BEZIER2") ≡ false
    → Sound u
    → Served (run w u target (command_of action ws))
run-Served w u target action ws memory allocates files curve s =
    run-ServedFor Anything w u target action ws (λ c d h shape. tt) memory allocates (λ c e. tt)
      files curve s
