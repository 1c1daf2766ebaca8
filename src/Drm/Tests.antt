-- ===== src/Drm/Tests.antt =====
-- The theorems on display/rendering/drm/drm.c at a card with a second connector in use, two CRTCs and
-- two planes, and a mode of two columns and one row.
use ttds.Prelude.{ℕ, ◌<◌, ◌≡◌, refl, true, [], ◌∷◌, some, inl, arith, ◌==◌, if◌then◌else◌}
use ttds.Prelude.Int.{pos}
use ttds.Prelude.Text.{codes}
use ttds.Prelude.Run.{done}
use ttds.Canvas.{Canvas, draw_point}
use ttds.Canvas.Texel.{texel, flat, point_area, draw_point-Paints}
use ttds.Canvas.Tests.{white}
use ttds.Drm.Setup.{
  Mode, Connector, Crtc, Plane, Dumb, mapped, Card, FrameBuffer, RenderingCtx, drm_rendering_init,
}
use ttds.Drm.Screen.{busy, flipped, drm_rendering_show}
use ttds.Drm.Screen.Fits.{IsScreen, Fits, Fits-IsValid}
use ttds.Drm.Screen.Shows.{Flipped, drm_rendering_show-Flipped}
use ttds.Drm.Screen.Pixels.{screen_texel, drm_rendering_show-Paints}

abbrev mode : Mode
mode = record { hdisplay = 2; vdisplay = 1 }

abbrev dumb : Dumb
dumb = record { handle = 3; pitch = 8; size = 8 }

abbrev connector : ℕ → Connector
connector id = record { connection = if id == 31 then 2 else 1; count_modes = 4 }

abbrev crtc : ℕ → Crtc
crtc id = record { crtc_id = id; mode_valid = if id == 41 then 0 else 1; mode = mode }

abbrev plane : ℕ → Plane
plane id = record { plane_id = id; crtc_id = 42 }

abbrev type_of : ℕ → ℕ
type_of id = if id == 51 then 0 else 1

abbrev card : Card
card = record {
  dir = some (codes "by-path" ∷ codes "card1" ∷ []);
  card_open = λ name. some 9;
  dumb_buffers = some 1;
  universal_planes_ok = true;
  resources = some (record { connectors = 31 ∷ 32 ∷ []; crtcs = 41 ∷ 42 ∷ [] });
  connector = λ id. some (connector id);
  crtc = λ id. some (crtc id);
  planes = some (51 ∷ 52 ∷ []);
  plane = λ id. some (plane id);
  properties = λ id. some ((some (codes "zpos"), 7) ∷ (some (codes "type"), type_of id) ∷ []);
  create_dumb = λ idx width height. some dumb;
  add_fb = λ handle. some 61;
  map_dumb_ok = λ handle. true;
  mmap = λ handle. mapped (λ q. 0);
}

-- The loops pass over the first connector, the first CRTC and the first plane.
chosen_plane :
    (ctx : RenderingCtx) × (drm_rendering_init true card ≡ done ctx) × (ctx.plane ≡ plane 52)
unfolding drm_rendering_init
chosen_plane = (_, refl, refl)

abbrev frame : ℕ → FrameBuffer
frame id = record { id = id; stride = 8; size = 8; memory = record { size = 8; byte = λ q. 0 } }

abbrev pub screen : RenderingCtx
screen = record {
  card_fd = 9;
  res = record { connectors = 31 ∷ 32 ∷ []; crtcs = 41 ∷ 42 ∷ [] };
  conn = connector 32;
  crtc = crtc 42;
  mode = mode;
  plane = plane 52;
  front_buf_idx = 0;
  buf_0 = frame 61;
  buf_1 = frame 62;
}

pub screen-IsScreen : IsScreen 8 8 screen
screen-IsScreen = record {
  in_front = inl refl;
  holds_0 = (refl, refl, refl);
  holds_1 = (refl, refl, refl);
  width_fits = omega arith;
  height_fits = omega arith;
  row_fits = omega arith;
  rows_fit = omega arith;
  offset_fits = omega arith;
}

abbrev pub fresh : Canvas
fresh = record { width = 2; height = 1; stride = 8; buffer = record { size = 8; byte = λ q. q } }

pub fresh-Fits : Fits 8 8 screen fresh
fresh-Fits = record { width_is = refl; height_is = refl; stride_is = refl; size_is = refl }

drm_rendering_show-Flipped_example :
    (out : RenderingCtx) × (drm_rendering_show (busy ∷ flipped ∷ []) screen fresh ≡ done out)
    × IsScreen 8 8 out
    × Flipped 8 screen fresh out
drm_rendering_show-Flipped_example =
    drm_rendering_show-Flipped screen fresh (busy ∷ flipped ∷ []) screen-IsScreen fresh-Fits tt

drm_rendering_show-Paints_example :
    (d : Canvas) × (out : RenderingCtx) × (draw_point fresh (pos 1) (pos 0) white ≡ done d)
    × (drm_rendering_show (flipped ∷ []) screen d ≡ done out)
    × ((x y k : ℕ)
        → x < 2
        → y < 1
        → k < 4
        → screen_texel 8 out x y k
          ≡ (if point_area (pos 1) (pos 0) x y then flat white x y k else texel fresh x y k))
drm_rendering_show-Paints_example =
    drm_rendering_show-Paints screen fresh (flipped ∷ []) (point_area (pos 1) (pos 0)) (flat white)
      (draw_point fresh (pos 1) (pos 0) white) screen-IsScreen fresh-Fits tt
      (draw_point-Paints fresh (pos 1) (pos 0) white (Fits-IsValid screen-IsScreen fresh-Fits))
