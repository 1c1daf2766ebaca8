-- ===== src/Canvas.antt =====
-- display/rendering/canvas.h and the memory operations of display/rendering/canvas.c: colours,
-- canvases, `canvas_init_bgra` and `draw_point`. A pixel buffer is its size and its bytes by
-- offset; an access outside it is the fault `out_of_bounds`. The shapes and the drawing functions
-- are in the modules below.
pub mod Texel
pub mod Loop
pub mod Rect
pub mod Copy
pub mod Dump
pub mod Line
pub mod Circle
pub mod Triangle
pub mod Bezier
pub mod Keeps
pub mod Tests
use package.ttds.Prelude.{
  Bool, Option, none, some, ℕ, ◌+◌, ◌-◌, ◌*◌, ◌%◌, ◌^◌, ◌&&◌, ◌||◌, ltb, leb, ◌==◌, if◌then◌else◌,
}
use package.ttds.Prelude.Int.{ℤ, pos, pos_part, ltb_ℤ, leb_ℤ}
use package.ttds.Prelude.Run.{Run, done, fault, out_of_bounds, ◌>>=◌}

pub record Color : Type 0 where
  pub r : ℕ
  pub g : ℕ
  pub b : ℕ

-- `uint8_t *buffer` with the size of its allocation.
pub record Buffer : Type 0 where
  pub size : ℕ
  pub byte : ℕ → ℕ

pub record Canvas : Type 0 where
  pub width : ℕ
  pub height : ℕ
  pub stride : ℕ
  pub buffer : Buffer

abbrev pub u16 : ℕ → ℕ
u16 n = n % 2 ^ 16

abbrev pub u32 : ℕ → ℕ
u32 n = n % 2 ^ 32

-- `calloc` gives zeros.
abbrev pub calloc : ℕ → Buffer
calloc n = record { size = n; byte = λ _. 0 }

-- The flags say whether the allocation of the canvas and that of the buffer succeed; `none` is null.
unfoldable pub canvas_init_bgra : Bool → Bool → ℕ → ℕ → Option Canvas
canvas_init_bgra canvas_ok buffer_ok width height =
    if canvas_ok && buffer_ok
    then some (record {
      width = width;
      height = height;
      stride = width * 4;
      buffer = calloc (height * (width * 4));
    })
    else none

abbrev pub within : ℕ → ℕ → ℕ → ℕ → ℕ → ℕ
within off n q new old = if leb off q && ltb q (off + n) then new else old

-- `memcpy` of `n` bytes from `src` to offset `off`.
unfoldable pub store : ℕ → ℕ → (ℕ → ℕ) → Buffer → Run Buffer
store off n src buf =
    if leb (off + n) buf.size
    then done (record buf { byte = λ q. within off n q (src (q - off)) (buf.byte q) })
    else fault out_of_bounds

-- `memmove` of `n` bytes inside the buffer: the bytes arrive as they were before.
unfoldable pub move : ℕ → ℕ → ℕ → Buffer → Run Buffer
move dst src n buf =
    if leb (src + n) buf.size && leb (dst + n) buf.size
    then done (record buf { byte = λ q. within dst n q (buf.byte (src + (q - dst))) (buf.byte q) })
    else fault out_of_bounds

-- The array `mapped`.
abbrev pub bgra : Color → ℕ → ℕ
bgra color k =
    if k == 0 then color.b else if k == 1 then color.g else if k == 2 then color.r else 0xff

unfoldable pub draw_point : Canvas → ℤ → ℤ → Color → Run Canvas
unfolding store
draw_point c x y color =
    if leb_ℤ (pos c.width) x
      || leb_ℤ (pos c.height) y
      || ltb_ℤ x (pos 0)
      || ltb_ℤ y (pos 0)
      || ltb_ℤ (pos 65535) x
      || ltb_ℤ (pos 65535) y
    then done c
    else (store (u32 (c.stride * pos_part y) + pos_part x * 4) 4 (bgra color) c.buffer >>= λ b.
        done (record c { buffer = b }))
