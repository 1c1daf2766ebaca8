-- ===== src/Drm/Screen/Fits.antt =====
-- The contexts and the canvases of display/rendering/drm/drm.c that fit each other.
use ttds.Prelude.{
  ℕ, ◌*◌, ◌^◌, ◌≤◌, ◌<◌, ◌≡◌, ◌⊎◌, ◌∙◌, refl, ap, true, inl, inr, ◌==◌, if◌then◌else◌, some,
}
use ttds.Prelude.Run.{done}
use ttds.Canvas.{Canvas}
use ttds.Canvas.Texel.{IsValid, SameShape}
use ttds.Drm.Setup.{Dumb, Mode, Card, FrameBuffer, RenderingCtx}
use ttds.Drm.Setup.Ready.{Works, Started, Framed}
use ttds.Drm.Screen.{buf_at, malloc, drm_canvas_init}

-- A buffer of the given row length and size that is mapped as a whole.
abbrev pub Holds : ℕ → ℕ → FrameBuffer → Type 0
Holds stride size buf = (buf.stride ≡ stride) × (buf.size ≡ size) × (buf.memory.size ≡ size)

-- Two mapped buffers of one shape, which holds the mode, with one of them in front.
pub record IsScreen (stride size : ℕ) (ctx : RenderingCtx) : Type 0 where
  pub in_front : (ctx.front_buf_idx ≡ 0) ⊎ (ctx.front_buf_idx ≡ 1)
  pub holds_0 : Holds stride size ctx.buf_0
  pub holds_1 : Holds stride size ctx.buf_1
  pub width_fits : ctx.mode.hdisplay < 65536
  pub height_fits : ctx.mode.vdisplay < 65536
  pub row_fits : ctx.mode.hdisplay * 4 ≤ stride
  pub rows_fit : stride * ctx.mode.vdisplay ≤ size
  pub offset_fits : stride * ctx.mode.vdisplay ≤ 2 ^ 32

-- The card makes both buffers of a mode alike, in rows that hold the pixels, of a size that holds the
-- rows, and the mode is in 16 bits.
pub record Regular (card : Card) (mode : Mode) (dumb : Dumb) : Type 0 where
  pub first : card.create_dumb 0 mode.hdisplay mode.vdisplay ≡ some dumb
  pub second :
      (other : Dumb) × (card.create_dumb 1 mode.hdisplay mode.vdisplay ≡ some other)
      × (other.pitch ≡ dumb.pitch)
      × (other.size ≡ dumb.size)
  pub width_fits : mode.hdisplay < 65536
  pub height_fits : mode.vdisplay < 65536
  pub row_fits : mode.hdisplay * 4 ≤ dumb.pitch
  pub rows_fit : dumb.pitch * mode.vdisplay ≤ dumb.size
  pub offset_fits : dumb.pitch * mode.vdisplay ≤ 2 ^ 32

Framed-Holds :
    (card : Card) (mode : Mode) (idx : ℕ) (buf : FrameBuffer) (dumb : Dumb)
    → Framed card mode idx buf
    → card.create_dumb idx mode.hdisplay mode.vdisplay ≡ some dumb
    → Holds dumb.pitch dumb.size buf
Framed-Holds card mode idx buf dumb (made, creates, stride, size, whole) is =
    let same : made ≡ dumb = cc in
    (stride ∙ ap (λ d. d.pitch) same, size ∙ ap (λ d. d.size) same, whole ∙ ap (λ d. d.size) same)

-- A context that has just been made is a screen of the row length and the size that the card chose.
pub Started-IsScreen :
    (card : Card) (w : Works card) (ctx : RenderingCtx) (dumb : Dumb)
    → Started card w ctx
    → Regular card ctx.mode dumb
    → IsScreen dumb.pitch dumb.size ctx
Started-IsScreen card w ctx dumb s r =
    let (other, made, pitch_same, size_same) = r.second in
    let (stride, size, whole) = Framed-Holds card ctx.mode 1 ctx.buf_1 other s.framed_1 made in
    record {
      in_front = inl s.front;
      holds_0 = Framed-Holds card ctx.mode 0 ctx.buf_0 dumb s.framed_0 r.first;
      holds_1 = (stride ∙ pitch_same, size ∙ size_same, whole ∙ size_same);
      width_fits = r.width_fits;
      height_fits = r.height_fits;
      row_fits = r.row_fits;
      rows_fit = r.rows_fit;
      offset_fits = r.offset_fits;
    }

-- A canvas of the mode's size, in the shape of the buffers.
pub record Fits (stride size : ℕ) (ctx : RenderingCtx) (c : Canvas) : Type 0 where
  pub width_is : c.width ≡ ctx.mode.hdisplay
  pub height_is : c.height ≡ ctx.mode.vdisplay
  pub stride_is : c.stride ≡ stride
  pub size_is : c.buffer.size ≡ size

pub Fits-SameShape :
    {stride size : ℕ} {ctx : RenderingCtx} {c d : Canvas}
    → Fits stride size ctx c
    → SameShape c d
    → Fits stride size ctx d
Fits-SameShape f s = record {
  width_is = s.width_same ∙ f.width_is;
  height_is = s.height_same ∙ f.height_is;
  stride_is = s.stride_same ∙ f.stride_is;
  size_is = s.size_same ∙ f.size_is;
}

pub Fits-IsValid :
    {stride size : ℕ} {ctx : RenderingCtx} {c : Canvas}
    → IsScreen stride size ctx
    → Fits stride size ctx c
    → IsValid c
Fits-IsValid v f = record {
  width_fits = rw f.width_is v.width_fits;
  height_fits = rw f.height_is v.height_fits;
  row_fits = rw (f.width_is, f.stride_is) v.row_fits;
  rows_fit = rw (f.stride_is, f.height_is, f.size_is) v.rows_fit;
  offset_fits = rw (f.stride_is, f.height_is) v.offset_fits;
}

-- The front buffer and the back buffer.
abbrev pub front_of : RenderingCtx → FrameBuffer
front_of ctx = if ctx.front_buf_idx == 0 then ctx.buf_0 else ctx.buf_1

abbrev pub back_of : RenderingCtx → FrameBuffer
back_of ctx = if ctx.front_buf_idx == 0 then ctx.buf_1 else ctx.buf_0

pub front-Holds :
    {stride size : ℕ} (ctx : RenderingCtx)
    → IsScreen stride size ctx
    → (buf_at ctx ctx.front_buf_idx ≡ done (front_of ctx)) × Holds stride size (front_of ctx)
unfolding buf_at
front-Holds ctx v = elim v.in_front [
  | inl zero_in_front ↦ rw zero_in_front (refl, v.holds_0)
  | inr one_in_front ↦ rw one_in_front (refl, v.holds_1)
]

-- On a screen, a canvas for a pane may be drawn on and fits the screen, if there is memory, whatever
-- stands in that memory.
pub drm_canvas_init-Fits :
    {stride size : ℕ} (ctx : RenderingCtx) (byte : ℕ → ℕ)
    → IsScreen stride size ctx
    → (c : Canvas) × (drm_canvas_init true true byte ctx ≡ done c)
      × Fits stride size ctx c
      × IsValid c
unfolding drm_canvas_init
drm_canvas_init-Fits {stride} {size} ctx byte v =
    let (is_front, (stride_is, size_is, whole)) = front-Holds ctx v in
    let c : Canvas = record {
      width = ctx.mode.hdisplay;
      height = ctx.mode.vdisplay;
      stride = (front_of ctx).stride;
      buffer = malloc true (front_of ctx).size byte;
    } in
    let fits : Fits stride size ctx c = record {
      width_is = refl;
      height_is = refl;
      stride_is = stride_is;
      size_is = size_is;
    } in
    (c, rw is_front refl, fits, Fits-IsValid v fits)
