-- ===== src/Canvas/Line/Walk.antt =====
-- The pixels that `rendering_draw_line` of display/rendering/canvas.c paints, as a walk.
use mathlib.Core.Path.{subst₂}
use ttds.Prelude.{
  ℕ, zero, suc, ◌+◌, ◌-◌, ◌*◌, ◌≤◌, ◌<◌, max, ◌≡◌, ◌⊎◌, inl, inr, refl, Bool, true, false, arith,
}
use ttds.Prelude.{ltb, ◌==◌, ◌&&◌, ◌||◌, if◌then◌else◌, Bool-cases, List, [], ◌∷◌, ◌∙◌, sym}
use ttds.Prelude.Int.{ℤ, pos, ◌+ℤ◌, ◌-ℤ◌, eqb_ℤ, -ℤ_parts}
use ttds.Prelude.Run.{Run, done, ◌>>=◌}
use ttds.Canvas.{Canvas, draw_point}
use ttds.Canvas.Texel.{
  IsValid, Area, Paints, flat, point_area, draw_point-Paints, Paints-nothing, Paints->>=,
}
use ttds.Canvas.Line.{
  Line, distance, advance, steps_x, steps_y, next_error, line_loop, line_rounds,
  rendering_draw_line,
}
use ttds.Canvas.Line.Step.{At, next_i, steps, steps_x-lt, steps_y-lt, next-At}

-- The coordinate `i` pixels from `a` towards `b`.
abbrev pub along : ℕ → ℕ → ℕ → ℕ
along a b i = if ltb a b then a + i else a - i

advance-along :
    (a b i : ℕ) → i < distance a b → advance a b (pos (along a b i)) ≡ pos (along a b (suc i))
unfolding advance ◌+ℤ◌ ◌-ℤ◌
advance-along a b i h = ground arith

along_start : (a b : ℕ) → along a b 0 ≡ a
along_start a b = ground arith

along-end : (a b i : ℕ) → i ≤ distance a b → (along a b i == b) ≡ (i == distance a b)
along-end a b i h = ground arith

-- A step to a neighbour, by a column, by a row or by both.
pub data Neighbour (i j : ℕ) : ℕ → ℕ → Type 0 where
  across : Neighbour i j (suc i) j
  down : Neighbour i j i (suc j)
  diagonal : Neighbour i j (suc i) (suc j)

-- The pixel `i` columns and `j` rows from the start is at most half a pixel away from the line,
-- measured along the shorter side.
pub record Close (dx dy i j : ℕ) : Type 0 where
  pub above : 2 * (j * dx) ≤ 2 * (i * dy) + max dx dy
  pub below : 2 * (i * dy) ≤ 2 * (j * dx) + max dx dy

-- A walk from the pixel `i` columns and `j` rows from the start to the other end.
pub data Walk (dx dy : ℕ) : ℕ → ℕ → List (ℕ × ℕ) → Type 0 where
  arrives : Close dx dy dx dy → Walk dx dy dx dy ((dx, dy) ∷ [])
  goes_on :
      {i j i' j' : ℕ} {cells : List (ℕ × ℕ)}
      → Close dx dy i j
      → Neighbour i j i' j'
      → Walk dx dy i' j' cells
      → Walk dx dy i j ((i, j) ∷ cells)

-- The pixels of a walk.
abbrev pub trace : Line → List (ℕ × ℕ) → Area
trace l [] x y = false
trace l ((i, j) ∷ cells) x y =
    point_area (pos (along l.x0 l.x1 i)) (pos (along l.y0 l.y1 j)) x y || trace l cells x y

module _ (fuel : ℕ) (l : Line) (x y e : ℤ) (c : Canvas) where
  abbrev there : Bool
  there = eqb_ℤ x (pos l.x1) && eqb_ℤ y (pos l.y1)

  line_loop_stop :
      there ≡ true → line_loop (suc fuel) l x y e c ≡ (draw_point c x y l.c >>= λ d. done d)
  unfolding line_loop
  line_loop_stop h = rw (h, line_loop) refl

  line_loop_go :
      (x' y' : ℤ)
      → there ≡ false
      → (if steps_x e (distance l.y0 l.y1) then advance l.x0 l.x1 x else x) ≡ x'
      → (if steps_y e (distance l.x0 l.x1) then advance l.y0 l.y1 y else y) ≡ y'
      → line_loop (suc fuel) l x y e c ≡ (
          draw_point c x y l.c
          >>= line_loop fuel l x' y' (next_error e (distance l.x0 l.x1) (distance l.y0 l.y1)))
  unfolding line_loop
  line_loop_go x' y' h hx hy = rw (h, line_loop, hx, hy) refl

-- Where the loop goes on to from the pixel `i` columns or rows from `a` towards `b`.
advance_if :
    (t : Bool) (a b i : ℕ)
    → (t ≡ true → i < distance a b)
    → (if t then advance a b (pos (along a b i)) else pos (along a b i))
      ≡ pos (along a b (next_i t i))
advance_if true a b i h = advance-along a b i (h refl)
advance_if false a b i h = refl

neighbour :
    (s t : Bool) (i j : ℕ) → (s ≡ true) ⊎ (t ≡ true) → Neighbour i j (next_i s i) (next_i t j)
neighbour true true i j h = diagonal
neighbour true false i j h = across
neighbour false true i j h = down
neighbour false false i j h = absurd (ground arith)

module _ (l : Line) where
  abbrev dx : ℕ
  dx = distance l.x0 l.x1

  abbrev dy : ℕ
  dy = distance l.y0 l.y1

  abbrev column : ℕ → ℤ
  column i = pos (along l.x0 l.x1 i)

  abbrev row : ℕ → ℤ
  row j = pos (along l.y0 l.y1 j)

  -- What the loop does from a point on, on every canvas.
  abbrev Traced : ℕ → ℕ → ℕ → ℤ → Type 0
  Traced fuel i j e =
      (cells : List (ℕ × ℕ)) × Walk dx dy i j cells
      × ((d : Canvas)
          → IsValid d
          → Paints d (trace l cells) (flat l.c) (line_loop fuel l (column i) (row j) e d))

  arrival :
      (i j : ℕ)
      → i ≤ dx
      → j ≤ dy
      → (eqb_ℤ (column i) (pos l.x1) && eqb_ℤ (row j) (pos l.y1)) ≡ (i == dx && j == dy)
  arrival i j hi hj = ground (arith, along-end l.x0 l.x1 i hi, along-end l.y0 l.y1 j hj)

  arrived-Traced : (fuel : ℕ) (e : ℤ) → At dx dy dx dy e → Traced (suc fuel) dx dy e
  arrived-Traced fuel e at = (
    (dx, dy) ∷ [],
    arrives (record { above = at.above; below = at.below }),
    λ d v.
        rw
          (line_loop_stop fuel l (column dx) (row dy) e d
            (arrival dx dy at.column at.row ∙ ground arith))
          (Paints->>= (λ f. done f) (λ _ _. false) (draw_point-Paints d (column dx) (row dy) l.c v)
            λ f vf s. Paints-nothing f (λ _ _. false) (flat l.c) vf (λ _ _ _ _. refl)),
  )

  onward-Traced :
      (fuel i j : ℕ) (e : ℤ)
      → At dx dy i j e
      → (i < dx) ⊎ (j < dy)
      → Traced fuel (next_i (steps_x e dy) i) (next_i (steps_y e dx) j) (next_error e dx dy)
      → Traced (suc fuel) i j e
  onward-Traced fuel i j e at going (cells, walk, paints) = (
    (i, j) ∷ cells,
    goes_on (record { above = at.above; below = at.below })
        (neighbour (steps_x e dy) (steps_y e dx) i j (steps dx dy i j e at going)) walk,
    λ d v.
        rw
          (line_loop_go fuel l (column i) (row j) e d (column (next_i (steps_x e dy) i))
            (row (next_i (steps_y e dx) j)) (arrival i j at.column at.row ∙ ground arith)
            (advance_if (steps_x e dy) l.x0 l.x1 i (steps_x-lt dx dy i j e at going))
            (advance_if (steps_y e dx) l.y0 l.y1 j (steps_y-lt dx dy i j e at going)))
          (Paints->>= _ (trace l cells) (draw_point-Paints d (column i) (row j) l.c v)
            λ f vf s. paints f vf),
  )

  -- The walk from the start, the same on every canvas.
  abbrev pub Drawn : (Canvas → Run Canvas) → Type 0
  Drawn f =
      (cells : List (ℕ × ℕ)) × Walk dx dy 0 0 cells
      × ((c : Canvas) → IsValid c → Paints c (trace l cells) (flat l.c) (f c))

  from_start :
      (fuel : ℕ) (e : ℤ) → Traced fuel 0 0 e → Drawn (line_loop fuel l (pos l.x0) (pos l.y0) e)
  from_start fuel e (cells, walk, paints) = (
    cells,
    walk,
    λ c v.
        subst₂ (λ x y. Paints c (trace l cells) (flat l.c) (line_loop fuel l (pos x) (pos y) e c))
          (along_start l.x0 l.x1) (along_start l.y0 l.y1) (paints c v),
  )

  line_loop-Traced :
      (fuel i j : ℕ) (e : ℤ) → At dx dy i j e → dx + dy < i + j + fuel → Traced fuel i j e
  line_loop-Traced zero i j e at enough = absurd (omega (arith, at.column, at.row))
  line_loop-Traced (suc fuel) i j e at enough = elim (Bool-cases (i == dx && j == dy)) [
    | inl here ↦
        let hi : i ≡ dx = ground arith in
        let hj : j ≡ dy = ground arith in
        subst₂ (λ i' j'. Traced (suc fuel) i' j' e) (sym hi) (sym hj)
          (arrived-Traced fuel e (subst₂ (λ i' j'. At dx dy i' j' e) hi hj at))
    | inr away ↦
        let going : (i < dx) ⊎ (j < dy) = ground (arith, at.column, at.row) in
        let at' = next-At dx dy i j e at going in
        onward-Traced fuel i j e at going (
          line_loop-Traced fuel (next_i (steps_x e dy) i) (next_i (steps_y e dx) j)
            (next_error e dx dy) at' (ground (arith, steps dx dy i j e at going)))
  ]

pub rendering_draw_line-Drawn :
    (l : Line)
    → (l.x0 < 65536) × (l.y0 < 65536) × (l.x1 < 65536) × (l.y1 < 65536)
    → Drawn l (λ c. rendering_draw_line c l)
unfolding rendering_draw_line
rendering_draw_line-Drawn l fits =
    let x = distance l.x0 l.x1 in
    let y = distance l.y0 l.y1 in
    let begin : At x y 0 0 (pos x -ℤ pos y) = record {
      column = omega arith;
      row = omega arith;
      error = omega (arith, -ℤ_parts (pos x) (pos y));
      above = omega arith;
      below = omega arith;
    } in
    from_start l line_rounds (pos x -ℤ pos y)
      (line_loop-Traced l line_rounds 0 0 (pos x -ℤ pos y) begin (ground arith))

-- On a valid canvas, for every two ends with 16-bit coordinates, on the canvas or not, the loop of
-- `rendering_draw_line` ends. It paints the pixels of a walk from the one end to the other, each
-- step of which goes to a neighbour and each pixel of which is at most half a pixel away from the
-- line, and it changes no other pixel.
pub rendering_draw_line-Paints :
    (c : Canvas) (l : Line)
    → IsValid c
    → (l.x0 < 65536) × (l.y0 < 65536) × (l.x1 < 65536) × (l.y1 < 65536)
    → (cells : List (ℕ × ℕ)) × Walk (distance l.x0 l.x1) (distance l.y0 l.y1) 0 0 cells
      × Paints c (trace l cells) (flat l.c) (rendering_draw_line c l)
rendering_draw_line-Paints c l v fits =
    let (cells, walk, paints) = rendering_draw_line-Drawn l fits in (cells, walk, paints c v)
