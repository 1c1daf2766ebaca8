-- ===== src/Canvas/Line.antt =====
-- `rendering_draw_line` of display/rendering/canvas.c, Bresenham's algorithm. Its 32-bit values
-- are integers here: the coordinates lie between the ends, and the error is a sum of the two
-- distances.
pub mod Step
pub mod Walk
use ttds.Prelude.{ℕ, zero, suc, ◌+◌, ◌-◌, Bool, true, false, ◌&&◌, ltb, if◌then◌else◌}
use ttds.Prelude.Int.{ℤ, pos, ◌+ℤ◌, ◌-ℤ◌, ltb_ℤ, eqb_ℤ}
use ttds.Prelude.Run.{Run, done, spent, ◌>>=◌}
use ttds.Canvas.{Color, Canvas, draw_point}

pub record Line : Type 0 where
  pub x0 : ℕ
  pub y0 : ℕ
  pub x1 : ℕ
  pub y1 : ℕ
  pub c : Color

-- `abs(b - a)`.
abbrev pub distance : ℕ → ℕ → ℕ
distance a b = if ltb a b then b - a else a - b

-- `x + sx`, where `sx` is 1 if the line goes from `a` to a larger `b`, and -1 otherwise.
unfoldable pub advance : ℕ → ℕ → ℤ → ℤ
advance a b x = if ltb a b then x +ℤ pos 1 else x -ℤ pos 1

-- `test > -dy` and `test < dx`, where `test` is `2 * e`.
unfoldable pub steps_x : ℤ → ℕ → Bool
steps_x e dy = ltb_ℤ (pos 0 -ℤ pos dy) (e +ℤ e)

unfoldable pub steps_y : ℤ → ℕ → Bool
steps_y e dx = ltb_ℤ (e +ℤ e) (pos dx)

unfoldable pub next_error : ℤ → ℕ → ℕ → ℤ
next_error e dx dy =
    let e' = if steps_x e dy then e -ℤ pos dy else e in if steps_y e dx then e' +ℤ pos dx else e'

-- The loop, from the position and the error.
unfoldable pub line_loop : ℕ → Line → ℤ → ℤ → ℤ → Canvas → Run Canvas
line_loop zero l x y e c = spent
line_loop (suc fuel) l x y e c =
    let dx = distance l.x0 l.x1 in
    let dy = distance l.y0 l.y1 in
    (draw_point c x y l.c >>= λ d. elim (eqb_ℤ x (pos l.x1) && eqb_ℤ y (pos l.y1)) [
      | true ↦ done d
      | false ↦
          line_loop fuel l (if steps_x e dy then advance l.x0 l.x1 x else x)
            (if steps_y e dx then advance l.y0 l.y1 y else y) (next_error e dx dy) d
    ])

-- Each round but the last goes on by a column or a row, of at most 65535 each.
abbrev pub line_rounds : ℕ
line_rounds = 131071

unfoldable pub rendering_draw_line : Canvas → Line → Run Canvas
rendering_draw_line c l =
    line_loop line_rounds l (pos l.x0) (pos l.y0)
      (pos (distance l.x0 l.x1) -ℤ pos (distance l.y0 l.y1)) c
