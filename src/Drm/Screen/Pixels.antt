-- ===== src/Drm/Screen/Pixels.antt =====
-- The pixels on the screen of display/rendering/drm/drm.c after drawing and showing.
use ttds.Prelude.{ℕ, ◌+◌, ◌*◌, ◌≤◌, ◌<◌, ◌≡◌, ◌∙◌, sym, ap, arith, List, if◌then◌else◌}
use ttds.Prelude.Run.{Run, done}
use ttds.Canvas.{Canvas}
use ttds.Canvas.Texel.{Area, Ink, Paints, texel, row_below}
use ttds.Drm.Setup.{RenderingCtx}
use ttds.Drm.Screen.{Flip, drm_rendering_show}
use ttds.Drm.Screen.Fits.{IsScreen, Fits, Fits-SameShape, front_of}
use ttds.Drm.Screen.Shows.{Flips, drm_rendering_show-Flipped}

-- The byte `k` of the pixel in column `x` and row `y`, as the card reads it.
unfoldable pub screen_texel : ℕ → RenderingCtx → ℕ → ℕ → ℕ → ℕ
screen_texel stride ctx x y k = (front_of ctx).memory.byte (stride * y + x * 4 + k)

offset_inside :
    (stride size width height x y k : ℕ)
    → width * 4 ≤ stride
    → stride * height ≤ size
    → x < width
    → y < height
    → k < 4
    → stride * y + x * 4 + k < size
offset_inside stride size width height x y k row rows hx hy hk =
    omega (arith, row_below stride y height hy)

-- A drawing on a canvas that fits the screen, then shown: the screen has the ink on the area that the
-- drawing paints, and the canvas as it was everywhere else.
pub drm_rendering_show-Paints :
    {stride size : ℕ} (ctx : RenderingCtx) (c : Canvas) (flips : List Flip) (area : Area)
    (ink : Ink) (r : Run Canvas)
    → IsScreen stride size ctx
    → Fits stride size ctx c
    → Flips flips
    → Paints c area ink r
    → (d : Canvas) × (out : RenderingCtx) × (r ≡ done d)
      × (drm_rendering_show flips ctx d ≡ done out)
      × ((x y k : ℕ)
          → x < ctx.mode.hdisplay
          → y < ctx.mode.vdisplay
          → k < 4
          → screen_texel stride out x y k ≡ (if area x y then ink x y k else texel c x y k))
unfolding screen_texel texel
drm_rendering_show-Paints {stride} {size} ctx c flips area ink r v f answers p =
    let fits = Fits-SameShape f p.shape in
    let (out, returns, screen, flipped) =
      drm_rendering_show-Flipped ctx p.out flips v fits answers in
    (
      p.out,
      out,
      p.returns,
      returns,
      λ x y k hx hy hk.
          flipped.front (stride * y + x * 4 + k) (
            offset_inside stride size ctx.mode.hdisplay ctx.mode.vdisplay x y k v.row_fits
              v.rows_fit hx hy hk)
          ∙ (ap (λ s. p.out.buffer.byte (s * y + x * 4 + k)) (sym fits.stride_is)
              ∙ p.pixels x y k (omega (arith, f.width_is)) (omega (arith, f.height_is)) hk),
    )
