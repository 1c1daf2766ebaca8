-- ===== src/Canvas/Bezier/Points.antt =====
-- Which pixels `rendering_draw_bezier2` of display/rendering/canvas.c paints, over any operations on
-- `float`.
use ttds.Prelude.{ℕ, zero, suc, ◌<◌, ◌≡◌, true, false, ◌||◌, refl, arith}
use ttds.Prelude.Int.{pos}
use ttds.Prelude.Run.{done, ◌>>=◌}
use ttds.Canvas.{Canvas, draw_point}
use ttds.Canvas.Texel.{
  IsValid, Area, flat, Paints, Paints-nothing, Paints->>=, point_area, draw_point-Paints,
}
use ttds.Canvas.Bezier.{
  Bezier2, FloatOps, bezier2_compute, bezier2_arclen_approx, bezier2_loop, rendering_draw_bezier2,
}

module _ (ops : FloatOps) where
  open ops use {Float, of_int, plus, times, divide, at_most, roundf}

  -- The parameter, which grows by `dt`, passes 1 after exactly `k` rounds.
  abbrev pub Passes : Float → Float → ℕ → Type 0
  Passes dt t zero = at_most t (of_int (pos 1)) ≡ false
  Passes dt t (suc k) = (at_most t (of_int (pos 1)) ≡ true) × Passes dt (plus t dt) k

  -- The points of the curve at the first `k` parameters from `t` on, rounded.
  abbrev pub curve_area : Bezier2 → Float → Float → ℕ → Area
  curve_area b dt t zero x y = false
  curve_area b dt t (suc k) x y =
      let p = bezier2_compute ops b t in
      point_area (roundf p.0) (roundf p.1) x y || curve_area b dt (plus t dt) k x y

  loop_stop :
      (fuel : ℕ) (b : Bezier2) (dt t : Float) (c : Canvas)
      → at_most t (of_int (pos 1)) ≡ false
      → bezier2_loop ops (suc fuel) b dt t c ≡ done c
  unfolding bezier2_loop
  loop_stop fuel b dt t c passed = rw (passed, bezier2_loop) refl

  loop_go :
      (fuel : ℕ) (b : Bezier2) (dt t : Float) (c : Canvas)
      → at_most t (of_int (pos 1)) ≡ true
      → bezier2_loop ops (suc fuel) b dt t c ≡ (
          let p = bezier2_compute ops b t in
          draw_point c (roundf p.0) (roundf p.1) b.c >>= bezier2_loop ops fuel b dt (plus t dt))
  unfolding bezier2_loop
  loop_go fuel b dt t c more = rw (more, bezier2_loop) refl

  bezier2_loop-Paints :
      (k fuel : ℕ) (b : Bezier2) (dt t : Float) (c : Canvas)
      → Passes dt t k
      → k < fuel
      → IsValid c
      → Paints c (curve_area b dt t k) (flat b.c) (bezier2_loop ops fuel b dt t c)
  bezier2_loop-Paints k zero b dt t c passes enough v = absurd (omega arith)
  bezier2_loop-Paints zero (suc fuel) b dt t c passes enough v =
      rw (loop_stop fuel b dt t c passes) (Paints-nothing c _ (flat b.c) v (λ x y hx hy. refl))
  bezier2_loop-Paints (suc k) (suc fuel) b dt t c (more, passes) enough v =
      let p = bezier2_compute ops b t in
      rw (loop_go fuel b dt t c more) (
        Paints->>= (bezier2_loop ops fuel b dt (plus t dt)) (curve_area b dt (plus t dt) k)
          (draw_point-Paints c (roundf p.0) (roundf p.1) b.c v)
          λ d vd s. bezier2_loop-Paints k fuel b dt (plus t dt) d passes (omega arith) vd)

  -- The step of the parameter.
  abbrev pub step_of : Bezier2 → Float
  step_of b = divide (of_int (pos 1)) (times (bezier2_arclen_approx ops b 13) (of_int (pos 2)))

  -- Whatever the operations on `float` are: if the parameter passes 1 after `k` steps from 0, which
  -- the fuel allows, drawing the curve on a valid canvas ends, and it paints the points of the curve
  -- at these parameters, rounded to pixels, and no other pixel.
  pub rendering_draw_bezier2-Paints :
      (k fuel : ℕ) (c : Canvas) (b : Bezier2)
      → Passes (step_of b) (of_int (pos 0)) k
      → k < fuel
      → IsValid c
      → Paints c
          (curve_area b (step_of b) (of_int (pos 0)) k)
          (flat b.c)
          (rendering_draw_bezier2 ops fuel c b)
  unfolding rendering_draw_bezier2
  rendering_draw_bezier2-Paints k fuel c b passes enough v =
      bezier2_loop-Paints k fuel b (step_of b) (of_int (pos 0)) c passes enough v
