-- ===== src/Canvas/Bezier.antt =====
-- `rendering_draw_bezier2` of display/rendering/canvas.c and its helpers, over the operations on
-- `float`, which are a parameter.
pub mod Points
use ttds.Prelude.{ℕ, zero, suc, ◌+◌, ◌-◌, Bool, true, false}
use ttds.Prelude.Int.{ℤ, pos}
use ttds.Prelude.Run.{Run, done, spent, ◌>>=◌}
use ttds.Canvas.{Color, Canvas, draw_point}

pub record Bezier2 : Type 0 where
  pub x0 : ℤ
  pub y0 : ℤ
  pub x1 : ℤ
  pub y1 : ℤ
  pub x2 : ℤ
  pub y2 : ℤ
  pub c : Color

-- The type `float`, its conversions and its operations; `square` is `powf(x, 2)`.
pub record FloatOps : Type 1 where
  pub Float : Type 0
  pub of_int : ℤ → Float
  pub plus : Float → Float → Float
  pub minus : Float → Float → Float
  pub times : Float → Float → Float
  pub divide : Float → Float → Float
  pub square : Float → Float
  pub sqrtf : Float → Float
  pub at_most : Float → Float → Bool
  pub roundf : Float → ℤ

module _ (ops : FloatOps) where
  open ops use {Float, of_int, plus, minus, times, divide, square, sqrtf, at_most, roundf}

  abbrev pub lerp : Float → Float → Float → Float
  lerp start end t = plus (times t end) (times (minus (of_int (pos 1)) t) start)

  unfoldable pub bezier2_compute : Bezier2 → Float → Float × Float
  bezier2_compute b t =
      let px0 = lerp (of_int b.x0) (of_int b.x1) t in
      let py0 = lerp (of_int b.y0) (of_int b.y1) t in
      let px1 = lerp (of_int b.x1) (of_int b.x2) t in
      let py1 = lerp (of_int b.y1) (of_int b.y2) t in (lerp px0 px1 t, lerp py0 py1 t)

  -- The loop of `bezier2_arclen_approx`, with `left` rounds to go.
  unfoldable pub arclen_from : ℕ → ℕ → Bezier2 → ℕ → Float → Float
  arclen_from zero i b n dist = dist
  arclen_from (suc left) i b n dist =
      let p1 = bezier2_compute b (divide (of_int (pos i)) (of_int (pos n))) in
      let p0 = bezier2_compute b (divide (of_int (pos (i - 1))) (of_int (pos n))) in
      arclen_from left (i + 1) b n
        (plus dist (sqrtf (plus (square (minus p1.0 p0.0)) (square (minus p1.1 p0.1)))))

  unfoldable pub bezier2_arclen_approx : Bezier2 → ℕ → Float
  bezier2_arclen_approx b n = arclen_from n 1 b n (of_int (pos 0))

  unfoldable pub bezier2_loop : ℕ → Bezier2 → Float → Float → Canvas → Run Canvas
  bezier2_loop zero b dt t c = spent
  bezier2_loop (suc fuel) b dt t c = elim (at_most t (of_int (pos 1))) [
    | true ↦
        let p = bezier2_compute b t in
        draw_point c (roundf p.0) (roundf p.1) b.c >>= bezier2_loop fuel b dt (plus t dt)
    | false ↦ done c
  ]

  -- Whether the loop ends depends on the rounding of `t + dt`, so its fuel is an argument.
  unfoldable pub rendering_draw_bezier2 : ℕ → Canvas → Bezier2 → Run Canvas
  rendering_draw_bezier2 fuel c b =
      let dt = divide (of_int (pos 1)) (times (bezier2_arclen_approx b 13) (of_int (pos 2))) in
      bezier2_loop fuel b dt (of_int (pos 0)) c
