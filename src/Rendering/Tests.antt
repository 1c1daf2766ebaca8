-- ===== src/Rendering/Tests.antt =====
-- The theorem on the panes over a backend of display/rendering/rendering.h, on the screen of
-- display/rendering/drm/drm.c: one pane, which a command fills.
use ttds.Prelude.{some, ◌≡◌, refl, true, false, [], ◌∷◌, arith, subst}
use ttds.Prelude.Text.{codes, equal}
use ttds.Prelude.Run.{done}
use ttds.Canvas.Texel.{SameShape}
use ttds.Canvas.Rect.{rendering_fill, rendering_fill-Paints}
use ttds.Canvas.Tests.{white}
use ttds.Panes.{
  Pane, Storage, wild, owned, put, ui_ok, ui_pane_draw_shape, ui_pane_count,
  lookup_pane_thread_unsafe, lookup_from, pane_at,
}
use ttds.Panes.Draw.{KeepsShape}
use ttds.Rotation.{Wake, initial}
use ttds.Rotation.Sleep.{Monotonic}
use ttds.Drm.Screen.{flipped, drm_canvas_init, buf_at}
use ttds.Drm.Screen.Fits.{Fits-IsValid}
use ttds.Drm.Tests.{screen, screen-IsScreen, fresh, fresh-Fits}
use ttds.Commands.{null}
use ttds.Commands.Tests.{no_floats}
use ttds.Commands.Values.{pane_count, parse_args}
use ttds.Commands.Actions.{Display, World, act_count}
use ttds.Commands.Dispatch.{call_action, run}
use ttds.Commands.Kept.Served.{command_of}
use ttds.Rendering.{drm_vtable}
use ttds.Rendering.Drm.{drm_laws}
use ttds.Rendering.Rounds.{Ui, draws, obeys, Reach, start, turn, IsSafe, Showable, Reach-Showable}

fill-KeepsShape : KeepsShape (λ c. rendering_fill c white)
fill-KeepsShape = (
  λ c v. let p = rendering_fill-Paints c white v in (p.out, p.returns, p.valid),
  λ c d v e.
      let p = rendering_fill-Paints c white v in
      let same : p.out ≡ d = cc (p.returns, e) in subst (SameShape c) same p.shape,
)

abbrev root : Pane
root = record { name = codes "root"; canvas = fresh }

abbrev one : Ui drm_vtable drm_laws
one = record {
  storage = record { count = 1; slots = put (λ i. wild) 0 (owned root) };
  ctx = screen;
  rotation = initial;
}

one-IsSafe : IsSafe drm_vtable drm_laws one
one-IsSafe = record {
  panes = root ∷ [];
  represents = record { counted = refl; bounded = omega arith; held = (refl, tt) };
  well_formed = (tt, Fits-IsValid screen-IsScreen fresh-Fits, tt);
  fit = (fresh-Fits, tt);
  ready = screen-IsScreen;
  time = (5000, refl);
}

abbrev timeout : Wake
timeout = record { poll_ok = true; cancelled = false; synced = false; prior = 100; post = 5100 }

timeout-Monotonic : Monotonic timeout
timeout-Monotonic = record { forward = omega arith; short = omega arith }

-- The pane after the fill.
abbrev filled_root : Pane
filled_root = record root {
  canvas = (rendering_fill-Paints fresh white (Fits-IsValid screen-IsScreen fresh-Fits)).out;
}

abbrev filled : Storage
filled = record { count = 1; slots = put (put (λ i. wild) 0 (owned root)) 0 (owned filled_root) }

fill_returns :
    ui_pane_draw_shape one.storage (codes "root") (λ c. rendering_fill c white)
    ≡ done (ui_ok, filled)
unfolding ui_pane_draw_shape lookup_pane_thread_unsafe lookup_from pane_at equal
fill_returns =
    rw (rendering_fill-Paints fresh white (Fits-IsValid screen-IsScreen fresh-Fits)).returns refl

abbrev after_fill : Ui drm_vtable drm_laws
after_fill = record one { storage = filled }

one-Reach : Reach drm_vtable drm_laws one after_fill
one-Reach = turn start (
    draws (codes "root") (λ c. rendering_fill c white) ui_ok filled fill-KeepsShape fill_returns
      refl)

abbrev drm_world : World
drm_world = record {
  memory_ok = true;
  strdup_ok = true;
  canvas = some fresh;
  files_ok = true;
  floats = no_floats;
  fuel = 0;
}

abbrev counting : Display
counting = record { storage = filled; files = []; interrupted = false }

fresh_made : drm_vtable.canvas_init (true, true, λ q. q) screen ≡ done (some fresh)
unfolding drm_canvas_init buf_at
fresh_made = refl

count_returns :
    run drm_world counting (codes "root") (command_of (codes "COUNT") [])
    ≡ done (null, (some (pane_count 1), counting))
unfolding run call_action act_count parse_args ui_pane_count equal
count_returns = refl

not_curve : equal (codes "COUNT") (codes "BEZIER2") ≡ false
unfolding equal
not_curve = refl

-- The fill, and a command that counts the panes.
two-Reach : Reach drm_vtable drm_laws one after_fill
two-Reach = turn one-Reach (
    obeys drm_world (true, true, λ q. q) counting (codes "root") (codes "COUNT") [] null
      (some (pane_count 1)) counting (refl, refl) fresh_made refl refl not_curve refl count_returns
      refl)

Reach-Showable_example :
    IsSafe drm_vtable drm_laws after_fill
    × Showable drm_vtable drm_laws after_fill (flipped ∷ []) timeout
Reach-Showable_example =
    Reach-Showable drm_vtable drm_laws one after_fill (flipped ∷ []) timeout one-IsSafe two-Reach
      (omega arith) tt refl timeout-Monotonic
