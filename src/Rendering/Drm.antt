-- ===== src/Rendering/Drm.antt =====
-- The DRM backend of display/rendering/drm/drm.c as a backend of the table.
use ttds.Prelude.{ℕ, ◌≡◌, ◌∙◌, sym, ap, subst, true, List}
use ttds.Prelude.Run.{done}
use ttds.Canvas.{Canvas}
use ttds.Drm.Setup.{RenderingCtx}
use ttds.Drm.Screen.{Flip}
use ttds.Drm.Screen.Fits.{IsScreen, Fits, Fits-SameShape, drm_canvas_init-Fits}
use ttds.Drm.Screen.Shows.{Flips, drm_rendering_show-Flipped}
use ttds.Rendering.{not_null, drm_vtable}
use ttds.Rendering.Laws.{Allots, allotted, IsRendering}

-- A screen of the shape of its first buffer.
abbrev pub IsOn : RenderingCtx → Type 0
IsOn ctx = IsScreen ctx.buf_0.stride ctx.buf_0.size ctx

abbrev pub FitsOn : RenderingCtx → Canvas → Type 0
FitsOn ctx c = Fits ctx.buf_0.stride ctx.buf_0.size ctx c

pub drm-Allots :
    (byte : ℕ → ℕ) (ctx : RenderingCtx)
    → IsOn ctx
    → Allots (FitsOn ctx) (drm_vtable.canvas_init (true, true, byte) ctx)
drm-Allots byte ctx on =
    let (c, returns, fits, valid) = drm_canvas_init-Fits ctx byte on in
    allotted c (ap not_null returns) fits valid

-- The shape of the first buffer is that of the screen.
IsScreen-IsOn :
    {stride size : ℕ} {ctx : RenderingCtx}
    → IsScreen stride size ctx
    → IsOn ctx × ((c : Canvas) → Fits stride size ctx c → FitsOn ctx c)
IsScreen-IsOn {stride} {size} {ctx} v =
    let e = sym v.holds_0.0 in
    let f = sym v.holds_0.1 in
    (
      subst (λ s. IsScreen s ctx.buf_0.size ctx) e (subst (λ n. IsScreen stride n ctx) f v),
      λ c fits.
          subst (λ s. Fits s ctx.buf_0.size ctx c) e (subst (λ n. Fits stride n ctx c) f fits),
    )

pub drm-shows :
    (flips : List Flip) (ctx : RenderingCtx) (c : Canvas)
    → Flips flips
    → IsOn ctx
    → FitsOn ctx c
    → (out : RenderingCtx) × (drm_vtable.rendering_show flips ctx c ≡ done out)
      × IsOn out
      × ((d : Canvas) → FitsOn ctx d → FitsOn out d)
drm-shows flips ctx c answers on fits =
    let (out, returns, screen, flipped) = drm_rendering_show-Flipped ctx c flips on fits answers in
    let (on', fits_on) = IsScreen-IsOn screen in
    (
      out,
      returns,
      on',
      λ d fits_d. fits_on d (record {
        width_is = fits_d.width_is ∙ ap (λ m. m.hdisplay) (sym flipped.mode);
        height_is = fits_d.height_is ∙ ap (λ m. m.vdisplay) (sym flipped.mode);
        stride_is = fits_d.stride_is;
        size_is = fits_d.size_is;
      }),
    )

abbrev pub drm_laws : IsRendering drm_vtable
drm_laws = record {
  IsReady = IsOn;
  Fits = FitsOn;
  Allows = λ a. (a.0 ≡ true) × (a.1 ≡ true);
  Displays = Flips;
  allots = λ a ctx ok on.
      subst (λ x. Allots (FitsOn ctx) (drm_vtable.canvas_init (x, a.1, a.2) ctx)) (sym ok.0)
        (subst (λ y. Allots (FitsOn ctx) (drm_vtable.canvas_init (true, y, a.2) ctx)) (sym ok.1)
          (drm-Allots a.2 ctx on));
  drawn = λ ctx c d fits s. Fits-SameShape fits s;
  shows = drm-shows;
}
