-- ===== src/Rendering/Laws.antt =====
-- What the panes of display/threads/ui.c rely on in a backend of display/rendering/rendering.h.
use ttds.Prelude.{◌≡◌, Option, none, some, subst}
use ttds.Panes.Create.{Allocates}
use ttds.Prelude.Run.{Run, done}
use ttds.Canvas.{Canvas}
use ttds.Canvas.Texel.{IsValid, SameShape}
use ttds.Rendering.{Vtable}

-- The canvas is null, or it may be drawn on and shown.
pub data Allots (Fits : Canvas → Type 0) (r : Run (Option Canvas)) : Type 0 where
  short : r ≡ done none → Allots Fits r
  allotted : (c : Canvas) → r ≡ done (some c) → Fits c → IsValid c → Allots Fits r

-- A context is ready for canvases that fit it. Drawing keeps them fitting, and showing one of them
-- returns a ready context for which the same canvases fit. The last two fields say which answers of
-- the system are those of a machine that works.
pub record IsRendering (vt : Vtable) : Type 1 where
  pub IsReady : vt.Ctx → Type 0
  pub Fits : vt.Ctx → Canvas → Type 0
  pub Allows : vt.Allocated → Type 0
  pub Displays : vt.Showing → Type 0
  pub allots :
      (a : vt.Allocated) (ctx : vt.Ctx)
      → Allows a
      → IsReady ctx
      → Allots (Fits ctx) (vt.canvas_init a ctx)
  pub drawn : (ctx : vt.Ctx) (c d : Canvas) → Fits ctx c → SameShape c d → Fits ctx d
  pub shows :
      (a : vt.Showing) (ctx : vt.Ctx) (c : Canvas)
      → Displays a
      → IsReady ctx
      → Fits ctx c
      → (out : vt.Ctx) × (vt.rendering_show a ctx c ≡ done out)
        × IsReady out
        × ((d : Canvas) → Fits ctx d → Fits out d)

-- What is known of the canvas that the call gives.
pub Allots-canvas :
    {Fits : Canvas → Type 0} {r : Run (Option Canvas)} (canvas : Option Canvas)
    → Allots Fits r
    → r ≡ done canvas
    → Allocates canvas × ((c : Canvas) → canvas ≡ some c → Fits c)
Allots-canvas none (short null) made = (tt, λ c e. cc)
Allots-canvas none (allotted c is fits valid) made = cc
Allots-canvas (some c) (short null) made = cc
Allots-canvas {Fits} (some c) (allotted d is fits valid) made =
    let same : d ≡ c = cc in
    (subst IsValid same valid, λ e eq. let found : d ≡ e = cc in subst Fits found fits)
