-- ===== src/Canvas/Keeps.antt =====
-- Drawing functions of display/rendering/canvas.c that return a canvas of the same shape, one after
-- another and in loops.
use ttds.Prelude.{◌<◌, ◌≡◌, refl}
use ttds.Prelude.Run.{Run, done, ◌>>=◌}
use ttds.Canvas.{Canvas}
use ttds.Canvas.Texel.{IsValid, SameShape, SameShape-refl, SameShape-trans, Area, Ink, Paints}
use ttds.Canvas.Rect.{Rect, rendering_draw_rect, rendering_draw_rect-Paints}
use ttds.Canvas.Rect
use ttds.Canvas.Circle.{Circle, rendering_draw_circle}
use ttds.Canvas.Circle.Box.{rendering_draw_circle-Paints}
use ttds.Canvas.Line.{Line, rendering_draw_line}
use ttds.Canvas.Line.Walk.{rendering_draw_line-Paints}
use ttds.Canvas.Copy.{RectCopy, rendering_draw_rect_copy}
use ttds.Canvas.Copy.Row
use ttds.Canvas.Copy.Snapshot.{rendering_draw_rect_copy-Becomes}
use ttds.Canvas.Triangle.{Triangle, rendering_draw_triangle}
use ttds.Canvas.Triangle.Fill
use ttds.Canvas.Triangle.Fill.{rendering_draw_triangle-Paints}

-- The result is a valid canvas of the same shape.
pub record Kept (c : Canvas) (r : Run Canvas) : Type 0 where
  pub out : Canvas
  pub returns : r ≡ done out
  pub valid : IsValid out
  pub shape : SameShape c out

pub Paints-Kept : {c : Canvas} {a : Area} {ink : Ink} {r : Run Canvas} → Paints c a ink r → Kept c r
Paints-Kept p = record { out = p.out; returns = p.returns; valid = p.valid; shape = p.shape }

pub done-Kept : (c : Canvas) → IsValid c → Kept c (done c)
done-Kept c v = record { out = c; returns = refl; valid = v; shape = SameShape-refl c }

-- One drawing after another.
pub Kept->>= :
    {c : Canvas} {r : Run Canvas} (f : Canvas → Run Canvas)
    → Kept c r
    → ((d : Canvas) → IsValid d → SameShape c d → Kept d (f d))
    → Kept c (r >>= f)
Kept->>= f k next =
    let q = next k.out k.valid k.shape in
    record {
      out = q.out;
      returns = rw k.returns q.returns;
      valid = q.valid;
      shape = SameShape-trans k.shape q.shape;
    }

module _ (c : Canvas) (v : IsValid c) where
  pub rect-Kept : (rect : Rect) → Rect.FitsU16 rect → Kept c (rendering_draw_rect c rect)
  rect-Kept rect f = Paints-Kept (rendering_draw_rect-Paints c rect v f)

  pub circle-Kept : (circle : Circle) → circle.r < 65536 → Kept c (rendering_draw_circle c circle)
  circle-Kept circle f = Paints-Kept (rendering_draw_circle-Paints c circle v f).2

  pub line-Kept :
      (l : Line)
      → (l.x0 < 65536) × (l.y0 < 65536) × (l.x1 < 65536) × (l.y1 < 65536)
      → Kept c (rendering_draw_line c l)
  line-Kept l f = Paints-Kept (rendering_draw_line-Paints c l v f).2

  pub triangle-Kept : (tri : Triangle) → Fill.FitsU16 tri → Kept c (rendering_draw_triangle c tri)
  triangle-Kept tri f = Paints-Kept (rendering_draw_triangle-Paints c tri v f).1

  pub copy-Kept : (rc : RectCopy) → Row.FitsU16 rc → Kept c (rendering_draw_rect_copy c rc)
  copy-Kept rc f =
      let p = rendering_draw_rect_copy-Becomes c rc v f in
      record { out = p.out; returns = p.returns; valid = p.valid; shape = p.shape }
