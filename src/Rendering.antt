-- ===== src/Rendering.antt =====
-- The table of backends of display/rendering/rendering.h and display/rendering/rendering.c: what a
-- backend offers to the panes, and the two backends in it. What the system answers to a call is an
-- argument of the call. Logging and cleanup change nothing that is modelled, and the input thread of
-- the DRM backend is in `Input`; that of the memory backend only calls `term_block`.
pub mod Laws
pub mod Mem
pub mod Drm
pub mod Rounds
mod Tests
use package.ttds.Prelude.{ℕ, Bool, Option, none, some, List}
use package.ttds.Prelude.Run.{Run, done, ◌>>=◌}
use package.ttds.Canvas.{Canvas}
use package.ttds.Backend.{mem_rendering_init, mem_rendering_show, mem_canvas_init}
use package.ttds.Drm.Setup.{Card, RenderingCtx, drm_rendering_init}
use package.ttds.Drm.Screen.{Flip, drm_rendering_show, drm_canvas_init}

-- `enum backend`.
pub data Backend : Type 0 where
  backend_drm backend_mem : Backend

-- `struct rendering_vtable`, over the backend's context and the answers that its calls get. A null
-- pointer is `none`.
pub record Vtable : Type 1 where
  pub Ctx : Type 0
  pub Started : Type 0
  pub Allocated : Type 0
  pub Showing : Type 0
  pub rendering_init : Started → Run (Option Ctx)
  pub rendering_show : Showing → Ctx → Canvas → Run Ctx
  pub canvas_init : Allocated → Ctx → Run (Option Canvas)

abbrev pub not_null {ℓ} : {A : Type ℓ} → Run A → Run (Option A)
not_null r = r >>= λ x. done (some x)

-- Its answers: whether the two allocations succeed.
abbrev pub mem_vtable : Vtable
mem_vtable = record {
  Ctx = Canvas;
  Started = Bool × Bool;
  Allocated = Bool × Bool;
  Showing = Unit {0};
  rendering_init = λ a. done (mem_rendering_init a.0 a.1);
  rendering_show = λ a ctx c. mem_rendering_show ctx c;
  canvas_init = λ a ctx. done (mem_canvas_init a.0 a.1 ctx);
}

-- Its answers: whether there is memory, and what the card says; whether the two allocations succeed,
-- and what stands in the memory; and the answers to the page flips.
abbrev pub drm_vtable : Vtable
drm_vtable = record {
  Ctx = RenderingCtx;
  Started = Bool × Card;
  Allocated = Bool × Bool × (ℕ → ℕ);
  Showing = List Flip;
  rendering_init = λ a. not_null (drm_rendering_init a.0 a.1);
  rendering_show = λ a ctx c. drm_rendering_show a ctx c;
  canvas_init = λ a ctx. not_null (drm_canvas_init a.0 a.1 a.2 ctx);
}

unfoldable pub supported_backends : Backend → Vtable
supported_backends backend_drm = drm_vtable
supported_backends backend_mem = mem_vtable
