-- ===== src/Rendering/Rounds.antt =====
-- The panes of display/threads/ui.c over any backend of display/rendering/rendering.h: the thread that
-- runs the commands and the one that shows the panes take turns at the mutex, in any order.
use ttds.Prelude.{ℕ, ◌<◌, ◌≡◌, sym, subst, true, false, Option, some, List, inl, inr, arith}
use ttds.Prelude.Int.{pos}
use ttds.Prelude.Text.{Bytes, codes, equal}
use ttds.Prelude.Run.{Run, done}
use ttds.Canvas.{Canvas}
use ttds.Panes.{Pane, Storage, Failure, ui_pane_draw_shape}
use ttds.Panes.Registry.{Represents, WellFormed}
use ttds.Panes.Canvases.{Canvases, Canvases-mono, Canvases-set, Canvases-StandsAt}
use ttds.Panes.Draw.{KeepsShape, StandsAt-IsValid, ui_pane_draw_shape-Drawn, find_from-StandsAt}
use ttds.Rotation.{after_sleep, Wake, Rotation, rotate_round, next_index}
use ttds.Rotation.Sleep.{Monotonic}
use ttds.Rotation.Turns.{rotate_round-Shown, after_sleep-time}
use ttds.Commands.{Argv}
use ttds.Commands.Values.{Reply}
use ttds.Commands.Actions.{Display, World}
use ttds.Commands.Dispatch.{run}
use ttds.Commands.Kept.{SoundFor}
use ttds.Commands.Kept.Served.{command_of, run-ServedFor}
use ttds.Rendering.{Vtable}
use ttds.Rendering.Laws.{Allots-canvas, IsRendering}

module _ (vt : Vtable) (laws : IsRendering vt) where
  open laws use {IsReady, Fits, Allows, Displays}

  -- What the two threads share, and the variables of the one that shows the panes.
  pub record Ui : Type 0 where
    pub storage : Storage
    pub ctx : vt.Ctx
    pub rotation : Rotation

  -- One turn of a thread: a command with its own arguments is run, on a canvas of the backend, with
  -- any answer; a drawing function draws on a pane; or a round shows a pane, while there is one.
  pub data Step (s u : Ui) : Type 1 where
    obeys :
        (w : World) (a : vt.Allocated) (before : Display) (target action : Bytes) (ws : List Bytes)
        (argv : Argv) (reply : Option Reply) (out : Display)
        → Allows a
        → vt.canvas_init a s.ctx ≡ done w.canvas
        → w.memory_ok ≡ true
        → w.files_ok ≡ true
        → equal action (codes "BEZIER2") ≡ false
        → before.storage ≡ s.storage
        → run w before target (command_of action ws) ≡ done (argv, (reply, out))
        → u ≡ record s { storage = out.storage }
        → Step s u
    draws :
        (name : Bytes) (inner : Canvas → Run Canvas) (answer : Failure) (out : Storage)
        → KeepsShape inner
        → ui_pane_draw_shape s.storage name inner ≡ done (answer, out)
        → u ≡ record s { storage = out }
        → Step s u
    shows :
        (a : vt.Showing) (wake : Wake) (p : Pane) (next : Rotation) (out : vt.Ctx)
        → Displays a
        → 0 < s.storage.count
        → wake.poll_ok ≡ true
        → Monotonic wake
        → rotate_round s.storage wake s.rotation ≡ done (p, some next)
        → vt.rendering_show a s.ctx p.canvas ≡ done out
        → u ≡ record s { ctx = out; rotation = next }
        → Step s u

  pub data Reach (s : Ui) : Ui → Type 1 where
    start : Reach s s
    turn : {t u : Ui} → Reach s t → Step t u → Reach s u

  -- The panes are a well-formed list whose canvases fit the backend, which is ready.
  pub record IsSafe (s : Ui) : Type 0 where
    pub panes : List Pane
    pub represents : Represents s.storage panes
    pub well_formed : WellFormed panes
    pub fit : Canvases (Fits s.ctx) panes
    pub ready : IsReady s.ctx
    pub time : (n : ℕ) × (s.rotation.sleep_time ≡ pos n)

  -- The round that a waiting thread could make now: it shows a pane of the list.
  pub record Showable (s : Ui) (a : vt.Showing) (wake : Wake) : Type 0 where
    pub pane : Pane
    pub next : Option Rotation
    pub out : vt.Ctx
    pub round : rotate_round s.storage wake s.rotation ≡ done (pane, next)
    pub shown : vt.rendering_show a s.ctx pane.canvas ≡ done out

  run-IsSafe :
      (s : Ui) (w : World) (a : vt.Allocated) (before : Display) (target action : Bytes)
      (ws : List Bytes) (argv : Argv) (reply : Option Reply) (out : Display)
      → IsSafe s
      → Allows a
      → vt.canvas_init a s.ctx ≡ done w.canvas
      → w.memory_ok ≡ true
      → w.files_ok ≡ true
      → equal action (codes "BEZIER2") ≡ false
      → before.storage ≡ s.storage
      → run w before target (command_of action ws) ≡ done (argv, (reply, out))
      → IsSafe (record s { storage = out.storage })
  run-IsSafe s w a before target action ws argv reply out safe allowed made memory files curve same
        returns =
      let (allocates, fits) =
        Allots-canvas w.canvas (laws.allots a s.ctx allowed safe.ready) made in
      let sound : SoundFor (Fits s.ctx) before = record {
        panes = safe.panes;
        represents = subst (λ st. Represents st safe.panes) (sym same) safe.represents;
        well_formed = safe.well_formed;
        fit = safe.fit;
      } in
      let r =
        run-ServedFor (Fits s.ctx) w before target action ws (laws.drawn s.ctx) memory allocates
          fits files curve sound in
      let reached : r.out ≡ out = cc (r.returns, returns) in
      let after = subst (SoundFor (Fits s.ctx)) reached r.sound in
      record {
        panes = after.panes;
        represents = after.represents;
        well_formed = after.well_formed;
        fit = after.fit;
        ready = safe.ready;
        time = safe.time;
      }

  drawn-IsSafe :
      (s : Ui) (name : Bytes) (inner : Canvas → Run Canvas) (answer : Failure) (out : Storage)
      → IsSafe s
      → KeepsShape inner
      → ui_pane_draw_shape s.storage name inner ≡ done (answer, out)
      → IsSafe (record s { storage = out })
  drawn-IsSafe s name inner answer out safe keeps returns =
      let d =
        ui_pane_draw_shape-Drawn s.storage safe.panes name inner keeps.0 safe.represents
          safe.well_formed in
      elim d.answers [
        | inl (missing, answers, same) ↦
            let kept : s.storage ≡ out = cc (answers, returns) in
            record {
              panes = safe.panes;
              represents = subst (λ st. Represents st safe.panes) kept safe.represents;
              well_formed = safe.well_formed;
              fit = safe.fit;
              ready = safe.ready;
              time = safe.time;
            }
        | inr (i, p, c, found, runs, answers, changed) ↦
            let same : d.out ≡ out = cc (answers, returns) in
            let (j, place, at) = find_from-StandsAt safe.panes 0 name i p found in
            let shape = keeps.1 p.canvas c (StandsAt-IsValid at safe.well_formed) runs in
            record {
              panes = d.panes;
              represents = subst (λ st. Represents st d.panes) same d.represents;
              well_formed = d.well_formed;
              fit = subst (Canvases (Fits s.ctx)) (sym changed) (
                  Canvases-set (Fits s.ctx) safe.panes i (record p { canvas = c }) safe.fit
                    (laws.drawn s.ctx p.canvas c (Canvases-StandsAt (Fits s.ctx) at safe.fit)
                      shape));
              ready = safe.ready;
              time = safe.time;
            }
      ]

  shown-IsSafe :
      (s : Ui) (a : vt.Showing) (wake : Wake) (p : Pane) (next : Rotation) (out : vt.Ctx)
      → IsSafe s
      → Displays a
      → 0 < s.storage.count
      → wake.poll_ok ≡ true
      → Monotonic wake
      → rotate_round s.storage wake s.rotation ≡ done (p, some next)
      → vt.rendering_show a s.ctx p.canvas ≡ done out
      → IsSafe (record s { ctx = out; rotation = next })
  shown-IsSafe s a wake p next out safe displays some_pane ok mono round shown =
      let (before, time) = safe.time in
      let w =
        rotate_round-Shown s.storage safe.panes wake s.rotation before safe.represents
          (omega (arith, safe.represents.counted)) time ok mono in
      let same : w.pane ≡ p = cc (w.returns, round) in
      let fits : Fits s.ctx p.canvas =
        subst (λ q. Fits s.ctx q.canvas) same (Canvases-StandsAt (Fits s.ctx) w.stands safe.fit) in
      let (out', returns, ready, kept) = laws.shows a s.ctx p.canvas displays safe.ready fits in
      let here : out' ≡ out = cc (returns, shown) in
      record {
        panes = safe.panes;
        represents = safe.represents;
        well_formed = safe.well_formed;
        fit =
            subst (λ x. Canvases (Fits x) safe.panes) here (Canvases-mono safe.panes kept safe.fit);
        ready = subst IsReady here ready;
        time =
            after_sleep-time (next_index s.storage.count s.rotation) before w.result w.time next
              w.slept (cc (w.returns, round));
      }

  Step-IsSafe : {s u : Ui} → Step s u → IsSafe s → IsSafe u
  Step-IsSafe {s}
        (obeys w a before target action ws argv reply out allowed made memory files curve same
          returns eq)
        safe =
      subst IsSafe (sym eq) (
        run-IsSafe s w a before target action ws argv reply out safe allowed made memory files curve
          same returns)
  Step-IsSafe {s} (draws name inner answer out keeps returns same) safe =
      subst IsSafe (sym same) (drawn-IsSafe s name inner answer out safe keeps returns)
  Step-IsSafe {s} (shows a wake p next out displays some_pane ok mono round shown same) safe =
      subst IsSafe (sym same)
        (shown-IsSafe s a wake p next out safe displays some_pane ok mono round shown)

  Reach-IsSafe : {s u : Ui} → IsSafe s → Reach s u → IsSafe u
  Reach-IsSafe safe start = safe
  Reach-IsSafe safe (turn before step) = Step-IsSafe step (Reach-IsSafe safe before)

  -- From panes that fit a ready backend on, whatever turns the threads take, the panes stay a
  -- well-formed list that fits the backend, which stays ready; and while there is a pane, a round
  -- finds one and showing it on the backend returns. The turns are commands with their own arguments
  -- but `BEZIER2`, on a canvas that the backend gives and with memory for messages; drawing functions that return and keep the
  -- shape of a canvas; and rounds that find a pane, show it and go on. A round without a pane is not
  -- among them.
  pub Reach-Showable :
      (s u : Ui) (a : vt.Showing) (wake : Wake)
      → IsSafe s
      → Reach s u
      → 0 < u.storage.count
      → Displays a
      → wake.poll_ok ≡ true
      → Monotonic wake
      → IsSafe u × Showable u a wake
  Reach-Showable s u a wake safe reach some_pane displays ok mono =
      let now = Reach-IsSafe safe reach in
      let (before, time) = now.time in
      let w =
        rotate_round-Shown u.storage now.panes wake u.rotation before now.represents
          (omega (arith, now.represents.counted)) time ok mono in
      let (out, returns, ready, kept) =
        laws.shows a u.ctx w.pane.canvas displays now.ready
          (Canvases-StandsAt (Fits u.ctx) w.stands now.fit) in
      (
        now,
        record {
          pane = w.pane;
          next = after_sleep (next_index u.storage.count u.rotation) w.result w.time;
          out = out;
          round = w.returns;
          shown = returns;
        },
      )
