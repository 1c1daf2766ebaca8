-- ===== src/Drm/Screen.antt =====
-- `drm_canvas_init` and `drm_rendering_show` of display/rendering/drm/drm.c. What the allocations and
-- the page flips answer is an input.
pub mod Fits
pub mod Shows
pub mod Pixels
use package.ttds.Prelude.{
  ℕ, ◌+◌, ◌-◌, ◌%◌, Bool, true, false, List, [], ◌∷◌, leb, ◌==◌, if◌then◌else◌,
}
use package.ttds.Prelude.Run.{Run, done, fault, fatal, spent, out_of_bounds, ◌>>=◌}
use package.ttds.Canvas.{Buffer, Canvas, store}
use package.ttds.Drm.Setup.{FrameBuffer, RenderingCtx}

-- `1 ^ n`.
abbrev pub xor_1 : ℕ → ℕ
xor_1 n = if n % 2 == 0 then n + 1 else n - 1

-- `bufs[idx]`.
unfoldable pub buf_at : RenderingCtx → ℕ → Run FrameBuffer
buf_at ctx idx =
    if idx == 0 then done ctx.buf_0 else if idx == 1 then done ctx.buf_1 else fault out_of_bounds

-- The memory of `bufs[idx]`, which is a buffer of the context.
abbrev pub put_memory : RenderingCtx → ℕ → Buffer → RenderingCtx
put_memory ctx idx memory =
    if idx == 0
    then record ctx { buf_0 = record ctx.buf_0 { memory = memory } }
    else record ctx { buf_1 = record ctx.buf_1 { memory = memory } }

-- What `drmModePageFlip` answers.
pub data Flip : Type 0 where
  flipped busy failed : Flip

-- The loop around `drmModePageFlip`; where the answers end it spins on.
unfoldable pub page_flip : List Flip → Run (Unit {0})
page_flip [] = spent
page_flip (flipped ∷ flips) = done tt
page_flip (busy ∷ flips) = page_flip flips
page_flip (failed ∷ flips) = fault fatal

-- The `memcpy` of as many bytes as the buffer has.
unfoldable pub copy_to : FrameBuffer → Canvas → Run Buffer
unfolding store
copy_to back c =
    if leb back.size c.buffer.size
    then store 0 back.size c.buffer.byte back.memory
    else fault out_of_bounds

unfoldable pub drm_rendering_show : List Flip → RenderingCtx → Canvas → Run RenderingCtx
unfolding buf_at copy_to page_flip
drm_rendering_show flips ctx c =
    let idx = xor_1 ctx.front_buf_idx in
    buf_at ctx idx >>= λ back. copy_to back c >>= λ memory.
    page_flip flips >>= λ _. done (record (put_memory ctx idx memory) { front_buf_idx = idx })

-- `malloc`, with what stands in the memory; no buffer has the size 0.
abbrev pub malloc : Bool → ℕ → (ℕ → ℕ) → Buffer
malloc ok size byte = record { size = if ok then size else 0; byte = byte }

-- The flags are for the canvas and its buffer.
unfoldable pub drm_canvas_init : Bool → Bool → (ℕ → ℕ) → RenderingCtx → Run Canvas
unfolding buf_at
drm_canvas_init canvas_ok buffer_ok byte ctx = buf_at ctx ctx.front_buf_idx >>= λ front.
    if canvas_ok
    then done (record {
      width = ctx.mode.hdisplay;
      height = ctx.mode.vdisplay;
      stride = front.stride;
      buffer = malloc buffer_ok front.size byte;
    })
    else fault out_of_bounds
