-- ===== src/Commands/Kept/Shapes.antt =====
-- The drawing functions of display/rendering/canvas.c on the shapes that the actions of
-- display/threads/commands.c make, whose numbers are cut to 16 bits.
use ttds.Prelude.{◌<◌, ◌≡◌, arith, subst}
use ttds.Prelude.Int.{ℤ, pos, negsuc}
use ttds.Canvas.{Color}
use ttds.Canvas.Rect.{rendering_draw_rect}
use ttds.Canvas.Circle.{rendering_draw_circle}
use ttds.Canvas.Line.{rendering_draw_line}
use ttds.Canvas.Copy.{rendering_draw_rect_copy}
use ttds.Canvas.Triangle.{rendering_draw_triangle}
use ttds.Canvas.Texel.{IsValid, SameShape}
use ttds.Canvas.Keeps.{Kept, rect-Kept, circle-Kept, line-Kept, copy-Kept, triangle-Kept}
use ttds.Prelude.Run.{Run}
use ttds.Canvas.{Canvas}
use ttds.Panes.Draw.{KeepsShape}
use ttds.Commands.Values.{low_bits}

low_bits-lt : (z : ℤ) → low_bits 16 z < 65536
low_bits-lt (pos n) = omega arith
low_bits-lt (negsuc n) = omega arith

Kept-KeepsShape :
    (inner : Canvas → Run Canvas) → ((c : Canvas) → IsValid c → Kept c (inner c)) → KeepsShape inner
Kept-KeepsShape inner kept = (
  λ c v. let k = kept c v in (k.out, k.returns, k.valid),
  λ c d v e.
      let k = kept c v in
      let same : k.out ≡ d = cc (k.returns, e) in subst (SameShape c) same k.shape,
)

pub rect-KeepsShape :
    (x y w h : ℤ) (c : Color)
    → KeepsShape (λ canvas. rendering_draw_rect canvas (record {
      x = low_bits 16 x;
      y = low_bits 16 y;
      w = low_bits 16 w;
      h = low_bits 16 h;
      c = c;
    }))
rect-KeepsShape x y w h c = Kept-KeepsShape _ (λ canvas v. rect-Kept canvas v _ (record {
  x_fits = low_bits-lt x;
  y_fits = low_bits-lt y;
  w_fits = low_bits-lt w;
  h_fits = low_bits-lt h;
}))

pub circle-KeepsShape :
    (x y rad : ℤ) (c : Color)
    → KeepsShape (λ canvas.
      rendering_draw_circle canvas
        (record { x = low_bits 16 x; y = low_bits 16 y; r = low_bits 16 rad; c = c }))
circle-KeepsShape x y rad c =
    Kept-KeepsShape _ (λ canvas v. circle-Kept canvas v _ (low_bits-lt rad))

pub line-KeepsShape :
    (x0 y0 x1 y1 : ℤ) (c : Color)
    → KeepsShape (λ canvas. rendering_draw_line canvas (record {
      x0 = low_bits 16 x0;
      y0 = low_bits 16 y0;
      x1 = low_bits 16 x1;
      y1 = low_bits 16 y1;
      c = c;
    }))
line-KeepsShape x0 y0 x1 y1 c = Kept-KeepsShape _ (λ canvas v.
    line-Kept canvas v _ (low_bits-lt x0, low_bits-lt y0, low_bits-lt x1, low_bits-lt y1))

pub copy-KeepsShape :
    (dst_x dst_y src_x src_y w h : ℤ)
    → KeepsShape (λ canvas. rendering_draw_rect_copy canvas (record {
      dst_x = low_bits 16 dst_x;
      dst_y = low_bits 16 dst_y;
      src_x = low_bits 16 src_x;
      src_y = low_bits 16 src_y;
      w = low_bits 16 w;
      h = low_bits 16 h;
    }))
copy-KeepsShape dst_x dst_y src_x src_y w h = Kept-KeepsShape _ (λ canvas v.
    copy-Kept canvas v _ (record {
      dst_x_fits = low_bits-lt dst_x;
      dst_y_fits = low_bits-lt dst_y;
      src_x_fits = low_bits-lt src_x;
      src_y_fits = low_bits-lt src_y;
      w_fits = low_bits-lt w;
      h_fits = low_bits-lt h;
    }))

pub triangle-KeepsShape :
    (x0 y0 x1 y1 x2 y2 : ℤ) (c : Color)
    → KeepsShape (λ canvas. rendering_draw_triangle canvas (record {
      x0 = low_bits 16 x0;
      y0 = low_bits 16 y0;
      x1 = low_bits 16 x1;
      y1 = low_bits 16 y1;
      x2 = low_bits 16 x2;
      y2 = low_bits 16 y2;
      c = c;
    }))
triangle-KeepsShape x0 y0 x1 y1 x2 y2 c = Kept-KeepsShape _ (λ canvas v.
    triangle-Kept canvas v _ (record {
      x0_fits = low_bits-lt x0;
      y0_fits = low_bits-lt y0;
      x1_fits = low_bits-lt x1;
      y1_fits = low_bits-lt y1;
      x2_fits = low_bits-lt x2;
      y2_fits = low_bits-lt y2;
    }))
