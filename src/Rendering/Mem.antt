-- ===== src/Rendering/Mem.antt =====
-- The memory backend of display/rendering/mem/mem.c as a backend of the table.
use ttds.Prelude.{◌*◌, ◌≡◌, sym, refl, Bool, true, false}
use ttds.Prelude.Run.{done}
use ttds.Canvas.{Canvas, canvas_init_bgra}
use ttds.Canvas.Texel.{IsValid, SameShape, SameShape-trans}
use ttds.Backend.{mem_canvas_init}
use ttds.Backend.Shows.{mem_rendering_show-Paints}
use ttds.Rendering.{mem_vtable}
use ttds.Rendering.Laws.{Allots, short, allotted, IsRendering}

-- A context as `canvas_init_bgra` makes it.
pub record Packed (ctx : Canvas) : Type 0 where
  pub valid : IsValid ctx
  pub stride_is : ctx.stride ≡ ctx.width * 4
  pub size_is : ctx.buffer.size ≡ ctx.height * (ctx.width * 4)

pub SameShape-sym : {c d : Canvas} → SameShape c d → SameShape d c
SameShape-sym s = record {
  width_same = sym s.width_same;
  height_same = sym s.height_same;
  stride_same = sym s.stride_same;
  size_same = sym s.size_same;
}

pub SameShape-IsValid : {c d : Canvas} → SameShape c d → IsValid c → IsValid d
SameShape-IsValid s v = record {
  width_fits = rw s.width_same v.width_fits;
  height_fits = rw s.height_same v.height_fits;
  row_fits = rw (s.width_same, s.stride_same) v.row_fits;
  rows_fit = rw (s.stride_same, s.height_same, s.size_same) v.rows_fit;
  offset_fits = rw (s.stride_same, s.height_same) v.offset_fits;
}

pub SameShape-Packed : {c d : Canvas} → SameShape c d → Packed c → Packed d
SameShape-Packed s p = record {
  valid = SameShape-IsValid s p.valid;
  stride_is = rw (s.stride_same, s.width_same) p.stride_is;
  size_is = rw (s.size_same, s.height_same, s.width_same) p.size_is;
}

pub mem-Allots :
    (canvas_ok buffer_ok : Bool) (ctx : Canvas)
    → Packed ctx
    → Allots (SameShape ctx) (done (mem_canvas_init canvas_ok buffer_ok ctx))
unfolding mem_canvas_init canvas_init_bgra
mem-Allots true true ctx p =
    let shape : SameShape ctx _ = record {
      width_same = refl;
      height_same = refl;
      stride_same = sym p.stride_is;
      size_same = sym p.size_is;
    } in
    allotted _ refl shape (SameShape-IsValid shape p.valid)
mem-Allots true false ctx p = short refl
mem-Allots false buffer_ok ctx p = short refl

abbrev pub mem_laws : IsRendering mem_vtable
mem_laws = record {
  IsReady = Packed;
  Fits = SameShape;
  Allows = λ a. Unit {0};
  Displays = λ a. Unit {0};
  allots = λ a ctx allowed p. mem-Allots a.0 a.1 ctx p;
  drawn = λ ctx c d fits s. SameShape-trans fits s;
  shows = λ a ctx c works p fits.
      let shown = mem_rendering_show-Paints ctx c p.valid (SameShape-IsValid fits p.valid) fits in
      (
        shown.out,
        shown.returns,
        SameShape-Packed shown.shape p,
        λ d fits_d. SameShape-trans (SameShape-sym shown.shape) fits_d,
      );
}
