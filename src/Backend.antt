-- ===== src/Backend.antt =====
-- The backend that draws in memory alone, of display/rendering/mem/mem.c: its context is a canvas.
pub mod Shows
mod Tests
use package.ttds.Prelude.{
  ℕ, ◌*◌, Bool, true, false, ◌&&◌, Option, none, some, leb, ◌==◌, if◌then◌else◌,
}
use package.ttds.Prelude.Run.{Run, done, fault, fatal, out_of_bounds, ◌>>=◌}
use package.ttds.Canvas.{Canvas, Buffer, store, canvas_init_bgra}

-- `MEM_BACKEND_WIDTH` and `MEM_BACKEND_HEIGHT` of mem.h.
abbrev pub mem_backend_width : ℕ
mem_backend_width = 640

abbrev pub mem_backend_height : ℕ
mem_backend_height = 480

-- The flags are those of `canvas_init_bgra`.
unfoldable pub mem_rendering_init : Bool → Bool → Option Canvas
mem_rendering_init canvas_ok buffer_ok =
    canvas_init_bgra canvas_ok buffer_ok mem_backend_width mem_backend_height

unfoldable pub mem_canvas_init : Bool → Bool → Canvas → Option Canvas
mem_canvas_init canvas_ok buffer_ok ctx = canvas_init_bgra canvas_ok buffer_ok ctx.width ctx.height

-- `assert`, and `memcpy` of the whole buffer.
unfoldable pub mem_rendering_show : Canvas → Canvas → Run Canvas
mem_rendering_show ctx c =
    if ctx.width == c.width && ctx.height == c.height && ctx.stride == c.stride
    then if leb (ctx.stride * ctx.height) c.buffer.size
      then (store 0 (ctx.stride * ctx.height) c.buffer.byte ctx.buffer >>= λ b.
          done (record ctx { buffer = b }))
      else fault out_of_bounds
    else fault fatal
