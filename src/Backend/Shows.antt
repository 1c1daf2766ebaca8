-- ===== src/Backend/Shows.antt =====
-- What the memory backend of display/rendering/mem/mem.c shows, and on which canvases.
use ttds.Prelude.{
  Bool, false, Option, none, some, ◌⊎◌, inl, inr, ◌-◌, ℕ, ◌*◌, ◌^◌, ◌≤◌, ◌<◌, ◌≡◌, true, refl,
  arith, sym, ap,
}
use ttds.Canvas.{Canvas, canvas_init_bgra, store, within}
use ttds.Canvas.Texel.{IsValid, SameShape, Paints, texel, row_below}
use ttds.Panes.Create.{Allocates}
use ttds.Backend.{mem_rendering_init, mem_canvas_init, mem_rendering_show}

-- A canvas that `canvas_init_bgra` makes may be drawn on, if 32 bits hold the size of its buffer.
canvas_init_bgra-Allocates :
    (canvas_ok buffer_ok : Bool) (width height : ℕ)
    → width < 65536
    → height < 65536
    → width * 4 * height ≤ 2 ^ 32
    → Allocates (canvas_init_bgra canvas_ok buffer_ok width height)
unfolding canvas_init_bgra
canvas_init_bgra-Allocates true true width height hw hh fits = record {
  width_fits = hw;
  height_fits = hh;
  row_fits = omega arith;
  rows_fit = omega arith;
  offset_fits = fits;
}
canvas_init_bgra-Allocates true false width height hw hh fits = tt
canvas_init_bgra-Allocates false buffer_ok width height hw hh fits = tt

record Made (ctx : Canvas) : Type 0 where
  width_is : ctx.width ≡ 640
  height_is : ctx.height ≡ 480
  stride_is : ctx.stride ≡ 2560
  size_is : ctx.buffer.size ≡ 1228800

mem_rendering_init-Made :
    (ctx_ok bytes_ok : Bool) (ctx : Canvas)
    → mem_rendering_init ctx_ok bytes_ok ≡ some ctx
    → Made ctx
unfolding mem_rendering_init canvas_init_bgra
mem_rendering_init-Made true true ctx made = record {
  width_is = sym (ap (read (λ c. c.width)) made);
  height_is = sym (ap (read (λ c. c.height)) made);
  stride_is = sym (ap (read (λ c. c.stride)) made);
  size_is = sym (ap (read (λ c. c.buffer.size)) made);
}
  where
    read : (Canvas → ℕ) → Option Canvas → ℕ
    read f none = 0
    read f (some c) = f c
mem_rendering_init-Made true false ctx made = cc
mem_rendering_init-Made false bytes_ok ctx made = cc

-- On the context that the memory backend makes for itself, each canvas that it makes for a pane may
-- be drawn on and has the shape of the context; or memory is short, and it is null.
pub mem_canvas_init-SameShape :
    (canvas_ok buffer_ok ctx_ok bytes_ok : Bool) (ctx : Canvas)
    → mem_rendering_init ctx_ok bytes_ok ≡ some ctx
    → Allocates (mem_canvas_init canvas_ok buffer_ok ctx)
      × ((mem_canvas_init canvas_ok buffer_ok ctx ≡ none)
          ⊎ ((c : Canvas) × (mem_canvas_init canvas_ok buffer_ok ctx ≡ some c) × SameShape ctx c))
unfolding mem_rendering_init mem_canvas_init canvas_init_bgra
mem_canvas_init-SameShape canvas_ok buffer_ok ctx_ok bytes_ok ctx made =
    let size = mem_rendering_init-Made ctx_ok bytes_ok ctx made in
    (
      canvas_init_bgra-Allocates canvas_ok buffer_ok ctx.width ctx.height
          (omega (arith, size.width_is)) (omega (arith, size.height_is))
          (rw (size.width_is, size.height_is) (omega arith)),
      shape canvas_ok buffer_ok size,
    )
  where
    shape :
        (canvas_ok buffer_ok : Bool)
        → Made ctx
        → (mem_canvas_init canvas_ok buffer_ok ctx ≡ none)
          ⊎ ((c : Canvas) × (mem_canvas_init canvas_ok buffer_ok ctx ≡ some c) × SameShape ctx c)
    shape true true size = inr (
      _,
      refl,
      record {
        width_same = refl;
        height_same = refl;
        stride_same = omega (arith, size.width_is, size.stride_is);
        size_same = rw (size.width_is, size.height_is, size.size_is) refl;
      },
    )
    shape true false size = inl refl
    shape false buffer_ok size = inl refl

-- For a valid context and a valid canvas of its shape, showing the canvas succeeds, stays inside
-- the two buffers, and leaves every pixel of it in the context.
pub mem_rendering_show-Paints :
    (ctx c : Canvas)
    → IsValid ctx
    → IsValid c
    → SameShape ctx c
    → Paints ctx (λ x y. true) (texel c) (mem_rendering_show ctx c)
unfolding mem_rendering_show store texel
mem_rendering_show-Paints ctx c v vc s = record {
  out = record ctx {
    buffer = record ctx.buffer {
      byte = λ q. within 0 (ctx.stride * ctx.height) q (c.buffer.byte (q - 0)) (ctx.buffer.byte q);
    };
  };
  returns =
      ground
        (arith, s.width_same, s.height_same, s.stride_same, v.rows_fit, s.size_same, vc.rows_fit);
  valid = record {
    width_fits = v.width_fits;
    height_fits = v.height_fits;
    row_fits = v.row_fits;
    rows_fit = v.rows_fit;
    offset_fits = v.offset_fits;
  };
  shape = record { width_same = refl; height_same = refl; stride_same = refl; size_same = refl };
  pixels = λ x y k hx hy hk.
      rw s.stride_same (ground (arith, row_below ctx.stride y ctx.height hy, v.row_fits));
}
