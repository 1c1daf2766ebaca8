-- ===== src/Canvas/Circle.antt =====
-- `rendering_draw_circle` of display/rendering/canvas.c: the midpoint algorithm over the octants,
-- which fills by spans. Its 32-bit coordinates are integers here: each is a sum or a difference of
-- two 16-bit numbers.
pub mod Box
use ttds.Prelude.{ℕ, zero, suc, ◌+◌, ◌-◌, ◌/◌, true, false, ◌&&◌}
use ttds.Prelude.{ltb, leb}
use ttds.Prelude.Int.{ℤ, pos, ◌+ℤ◌, ◌-ℤ◌, leb_ℤ}
use ttds.Prelude.Run.{Run, done, spent, ◌>>=◌}
use ttds.Canvas.{Color, Canvas, u16, draw_point}

pub record Circle : Type 0 where
  pub x : ℕ
  pub y : ℕ
  pub r : ℕ
  pub c : Color

-- The loop `for (eff_x = circle->x + x; eff_x >= circle->x; eff_x--)`, with `left` rounds to go.
unfoldable pub span_right : ℕ → ℤ → ℤ → Color → Canvas → Run Canvas
span_right zero eff_x eff_y color c = done c
span_right (suc left) eff_x eff_y color c =
    draw_point c eff_x eff_y color >>= span_right left (eff_x -ℤ pos 1) eff_y color

-- The loop `for (eff_x = circle->x - x; eff_x < circle->x; eff_x++)`.
unfoldable pub span_left : ℕ → ℤ → ℤ → Color → Canvas → Run Canvas
span_left zero eff_x eff_y color c = done c
span_left (suc left) eff_x eff_y color c =
    draw_point c eff_x eff_y color >>= span_left left (eff_x +ℤ pos 1) eff_y color

-- The eight spans of one round, in the order of the code.
unfoldable pub spans : Circle → ℕ → ℕ → Canvas → Run Canvas
spans circle x y c =
    let right = pos circle.x in
    let row = pos circle.y in
    span_right (x + 1) (right +ℤ pos x) (row +ℤ pos y) circle.c c
    >>= span_right (x + 1) (right +ℤ pos x) (row -ℤ pos y) circle.c
    >>= span_left x (right -ℤ pos x) (row -ℤ pos y) circle.c
    >>= span_left x (right -ℤ pos x) (row +ℤ pos y) circle.c
    >>= span_right (y + 1) (right +ℤ pos y) (row +ℤ pos x) circle.c
    >>= span_right (y + 1) (right +ℤ pos y) (row -ℤ pos x) circle.c
    >>= span_left y (right -ℤ pos y) (row -ℤ pos x) circle.c
    >>= span_left y (right -ℤ pos y) (row +ℤ pos x) circle.c

unfoldable pub circle_loop : ℕ → Circle → ℕ → ℕ → ℤ → Canvas → Run Canvas
circle_loop zero circle x y t1 c = spent
circle_loop (suc fuel) circle x y t1 c = elim (ltb 0 x && leb y x) [
  | true ↦ spans circle x y c >>= λ d.
      let y' = u16 (y + 1) in
      let t1' = t1 +ℤ pos y' in
      let t2 = t1' -ℤ pos x in
      elim (leb_ℤ (pos 0) t2) [
        | true ↦ circle_loop fuel circle (x - 1) y' t2 d
        | false ↦ circle_loop fuel circle x y' t1' d
      ]
  | false ↦ done c
]

-- The row grows by one each round, up to the column.
abbrev pub circle_rounds : ℕ
circle_rounds = 65537

unfoldable pub rendering_draw_circle : Canvas → Circle → Run Canvas
rendering_draw_circle c circle = circle_loop circle_rounds circle circle.r 0 (pos (circle.r / 16)) c
