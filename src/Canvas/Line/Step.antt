-- ===== src/Canvas/Line/Step.antt =====
-- One step of the loop of `rendering_draw_line` in display/rendering/canvas.c, counted in columns
-- `i` and rows `j` from the start: the error term, and which way the loop goes on.
use ttds.Prelude.{ℕ, suc, ◌+◌, ◌*◌, ◌≤◌, ◌<◌, max, ◌≡◌, ◌⊎◌, inl, inr, Bool, true, false, arith}
use ttds.Prelude.{ltb, if◌then◌else◌, Bool-cases, ◌∙◌, sym, ap}
use ttds.Prelude.Int.{ℤ, pos, pos_part, neg_part, ◌+ℤ◌, ◌-ℤ◌, +ℤ_parts, -ℤ_parts}
use ttds.Canvas.Line.{steps_x, steps_y, next_error}

-- `i` columns and `j` rows away from the start the error is that of the next diagonal point, and
-- the point is at most half a pixel away from the line, along the shorter side.
pub record At (dx dy i j : ℕ) (e : ℤ) : Type 0 where
  pub column : i ≤ dx
  pub row : j ≤ dy
  pub error : pos_part e + suc i * dy ≡ neg_part e + suc j * dx
  pub above : 2 * (j * dx) ≤ 2 * (i * dy) + max dx dy
  pub below : 2 * (i * dy) ≤ 2 * (j * dx) + max dx dy

steps_x_lem : (e : ℤ) (dy : ℕ) → steps_x e dy ≡ ltb (2 * neg_part e) (2 * pos_part e + dy)
unfolding steps_x ◌+ℤ◌ ◌-ℤ◌
steps_x_lem e dy = ground arith

steps_y_lem : (e : ℤ) (dx : ℕ) → steps_y e dx ≡ ltb (2 * pos_part e) (2 * neg_part e + dx)
unfolding steps_y ◌+ℤ◌
steps_y_lem e dx = ground arith

-- The count of columns, or of rows, after a step that goes on or not.
abbrev pub next_i : Bool → ℕ → ℕ
next_i b i = if b then suc i else i

mul_mono : (a b c : ℕ) → a ≤ b → a * c ≤ b * c
mul_mono a b c h = grind arith

-- At the last column the error is so small that only the row goes on.
last_column :
    (p n dx dy i j : ℕ) → p + suc i * dy ≡ n + suc j * dx → i ≡ dx → j < dy → 2 * p + dy ≤ 2 * n
last_column p n dx dy i j e there h =
    omega (arith, e, ap (λ t. t * dy) there, mul_mono (suc j) dy dx h)

module _ (dx dy i j : ℕ) (e : ℤ) (at : At dx dy i j e) where
  open at use {column, row, error, above, below}

  pub steps_x-lt : (i < dx) ⊎ (j < dy) → steps_x e dy ≡ true → i < dx
  steps_x-lt (inl going) h = going
  steps_x-lt (inr going) h = elim (Bool-cases (ltb i dx)) [
    | inl less ↦ ground arith
    | inr last ↦
        let there : i ≡ dx = ground arith in
        let test : ltb (2 * neg_part e) (2 * pos_part e + dy) ≡ true = sym (steps_x_lem e dy) ∙ h in
        let small = last_column (pos_part e) (neg_part e) dx dy i j error there going in
        ground arith
  ]

  pub steps_y-lt : (i < dx) ⊎ (j < dy) → steps_y e dx ≡ true → j < dy
  steps_y-lt (inr going) h = going
  steps_y-lt (inl going) h = elim (Bool-cases (ltb j dy)) [
    | inl less ↦ ground arith
    | inr last ↦
        let there : j ≡ dy = ground arith in
        let test : ltb (2 * pos_part e) (2 * neg_part e + dx) ≡ true = sym (steps_y_lem e dx) ∙ h in
        let small = last_column (neg_part e) (pos_part e) dy dx j i (sym error) there going in
        ground arith
  ]

  pub steps : (i < dx) ⊎ (j < dy) → (steps_x e dy ≡ true) ⊎ (steps_y e dx ≡ true)
  steps going = rw (steps_x_lem e dy, steps_y_lem e dx) (ground arith)

-- The tests, as orders on the parts of the error.
steps_x_cases :
    (e : ℤ) (dy : ℕ)
    → ((steps_x e dy ≡ true) × (2 * neg_part e < 2 * pos_part e + dy))
      ⊎ ((steps_x e dy ≡ false) × (2 * pos_part e + dy ≤ 2 * neg_part e))
steps_x_cases e dy = rw steps_x_lem (ground arith)

steps_y_cases :
    (e : ℤ) (dx : ℕ)
    → ((steps_y e dx ≡ true) × (2 * pos_part e < 2 * neg_part e + dx))
      ⊎ ((steps_y e dx ≡ false) × (2 * neg_part e + dx ≤ 2 * pos_part e))
steps_y_cases e dx = rw steps_y_lem (ground arith)

module _ (dx dy i j : ℕ) (e : ℤ) (at : At dx dy i j e) where
  open at use {column, row, error, above, below}

  pub next-At :
      (i < dx) ⊎ (j < dy)
      → At dx dy (next_i (steps_x e dy) i) (next_i (steps_y e dx) j) (next_error e dx dy)
  unfolding next_error
  next-At going = elim (steps_x_cases e dy) [
    | inl (goes_x, low) ↦
        let less = steps_x-lt dx dy i j e at going goes_x in
        let minus = -ℤ_parts e (pos dy) in
        elim (steps_y_cases e dx) [
          | inl (goes_y, high) ↦
              let plus = +ℤ_parts (e -ℤ pos dy) (pos dx) in
              rw (goes_x, goes_y)
                (record {
                  column = omega arith;
                  row = steps_y-lt dx dy i j e at going goes_y;
                  error = omega arith;
                  above = omega arith;
                  below = omega arith;
                })
          | inr (stays, high) ↦
              rw (goes_x, stays)
                (record {
                  column = omega arith;
                  row = row;
                  error = omega arith;
                  above = omega arith;
                  below = omega arith;
                })
        ]
    | inr (stays, low) ↦ elim (steps_y_cases e dx) [
      | inl (goes_y, high) ↦
          let plus = +ℤ_parts e (pos dx) in
          rw (stays, goes_y)
            (record {
              column = column;
              row = steps_y-lt dx dy i j e at going goes_y;
              error = omega arith;
              above = omega arith;
              below = omega arith;
            })
      | inr (stays_y, high) ↦ absurd (ground (arith, steps dx dy i j e at going))
    ]
  ]
