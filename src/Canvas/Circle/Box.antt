-- ===== src/Canvas/Circle/Box.antt =====
-- The bounding box of `rendering_draw_circle` in display/rendering/canvas.c, and the rounds of its
-- loop.
use ttds.Prelude.{ℕ, zero, suc, ◌+◌, ◌-◌, ◌/◌, ◌≤◌, ◌<◌, ◌≡◌, ◌⊎◌, true, false, ◌&&◌, ◌||◌, arith}
use ttds.Prelude.{ltb, leb, Bool-cases, inl, inr, refl, ◌∙◌}
use ttds.Prelude.Int.{
  ℤ, pos, ◌+ℤ◌, ◌-ℤ◌, leb_ℤ, +ℤ_parts, -ℤ_parts, eq_of_parts, pos_part, neg_part,
}
use ttds.Prelude.Run.{Run, done, ◌>>=◌}
use ttds.Canvas.{Color, Canvas, u16, draw_point}
use ttds.Canvas.Texel.{
  IsValid, Area, Paints, flat, point_area, draw_point-Paints, Paints-nothing, Paints->>=,
}
use ttds.Canvas.Circle.{
  Circle, span_right, span_left, spans, circle_loop, circle_rounds, rendering_draw_circle,
}

-- The pixels at most `r` columns and `r` rows away from the centre.
abbrev pub box : Circle → ℕ → Area
box circle r px py =
    leb circle.x (px + r) && leb px (circle.x + r) && leb circle.y (py + r) && leb py (circle.y + r)

-- The drawing paints some area inside `bound`, the same on every valid canvas.
abbrev pub Within : Area → Color → (Canvas → Run Canvas) → Type 0
Within bound color f =
    (a : Area) × ((x y : ℕ) → a x y ≡ true → bound x y ≡ true)
    × ((c : Canvas) → IsValid c → Paints c a (flat color) (f c))

module _ (bound : Area) (color : Color) where
  Within-eq :
      (f g : Canvas → Run Canvas)
      → ((c : Canvas) → f c ≡ g c)
      → Within bound color g
      → Within bound color f
  Within-eq f g same (a, a_in, p) = (a, a_in, λ c v. rw same (p c v))

  Within-done : Within bound color (λ c. done c)
  Within-done =
      (λ _ _. false, λ x y h. ground arith, λ c v. Paints-nothing c _ _ v (λ _ _ _ _. refl))

  Within->>= :
      (f g : Canvas → Run Canvas)
      → Within bound color f
      → Within bound color g
      → Within bound color (λ c. f c >>= g)
  Within->>= f g (a, a_in, p) (b, b_in, q) = (
    λ x y. a x y || b x y,
    λ x y h. ground (arith, a_in x y, b_in x y),
    λ c v. Paints->>= g b (p c v) (λ d vd s. q d vd),
  )

  Within-point :
      (x y : ℤ)
      → ((px py : ℕ) → point_area x y px py ≡ true → bound px py ≡ true)
      → Within bound color (λ c. draw_point c x y color)
  Within-point x y h = (point_area x y, h, λ c v. draw_point-Paints c x y color v)

-- At most `r` away from the centre, on one axis.
record Near (centre r : ℕ) (z : ℤ) : Type 0 where
  high : pos_part z ≤ centre + r + neg_part z
  low : centre + neg_part z ≤ pos_part z + r

module _ (circle : Circle) (r : ℕ) where
  point-Within :
      (x y : ℤ)
      → Near circle.x r x
      → Near circle.y r y
      → Within (box circle r) circle.c (λ c. draw_point c x y circle.c)
  point-Within x y hx hy =
      Within-point (box circle r) circle.c x y
        λ px py h. ground (arith, hx.high, hx.low, hy.high, hy.low)

  span_right-Within :
      (left : ℕ) (x y : ℤ)
      → pos_part x ≤ circle.x + r + neg_part x
      → circle.x + neg_part x + left ≤ pos_part x + r + 1
      → Near circle.y r y
      → Within (box circle r) circle.c (span_right left x y circle.c)
  unfolding span_right
  span_right-Within zero x y high low hy = Within-done (box circle r) circle.c
  span_right-Within (suc left) x y high low hy =
      let minus = -ℤ_parts x (pos 1) in
      Within->>= (box circle r) circle.c (λ c. draw_point c x y circle.c) _
        (point-Within x y (record { high = high; low = omega arith }) hy)
        (span_right-Within left (x -ℤ pos 1) y (omega arith) (omega arith) hy)

  span_left-Within :
      (left : ℕ) (x y : ℤ)
      → pos_part x + left ≤ circle.x + r + neg_part x + 1
      → circle.x + neg_part x ≤ pos_part x + r
      → Near circle.y r y
      → Within (box circle r) circle.c (span_left left x y circle.c)
  unfolding span_left
  span_left-Within zero x y high low hy = Within-done (box circle r) circle.c
  span_left-Within (suc left) x y high low hy =
      let plus = +ℤ_parts x (pos 1) in
      Within->>= (box circle r) circle.c (λ c. draw_point c x y circle.c) _
        (point-Within x y (record { high = omega arith; low = low }) hy)
        (span_left-Within left (x +ℤ pos 1) y (omega arith) (omega arith) hy)

  Near-plus : (a k : ℕ) → k ≤ r → Near a r (pos a +ℤ pos k)
  Near-plus a k h =
      let plus = +ℤ_parts (pos a) (pos k) in record { high = omega arith; low = omega arith }

  Near-minus : (a k : ℕ) → k ≤ r → Near a r (pos a -ℤ pos k)
  Near-minus a k h =
      let minus = -ℤ_parts (pos a) (pos k) in record { high = omega arith; low = omega arith }

  right :
      (k : ℕ) (y : ℤ)
      → k ≤ r
      → Near circle.y r y
      → Within (box circle r) circle.c (span_right (k + 1) (pos circle.x +ℤ pos k) y circle.c)
  right k y h hy =
      let plus = +ℤ_parts (pos circle.x) (pos k) in
      span_right-Within (k + 1) (pos circle.x +ℤ pos k) y (omega arith) (omega arith) hy

  left :
      (k : ℕ) (y : ℤ)
      → k ≤ r
      → Near circle.y r y
      → Within (box circle r) circle.c (span_left k (pos circle.x -ℤ pos k) y circle.c)
  left k y h hy =
      let minus = -ℤ_parts (pos circle.x) (pos k) in
      span_left-Within k (pos circle.x -ℤ pos k) y (omega arith) (omega arith) hy

  spans-Within : (x y : ℕ) → x ≤ r → y ≤ r → Within (box circle r) circle.c (spans circle x y)
  unfolding spans
  spans-Within x y hx hy =
      let up = Near-plus circle.y y hy in
      let down = Near-minus circle.y y hy in
      let far_up = Near-plus circle.y x hx in
      let far_down = Near-minus circle.y x hx in
      let after = Within->>= (box circle r) circle.c in
      after _ _
        (after _ _
          (after _ _
            (after _ _
              (after _ _
                (after _ _ (after _ _ (right x _ hx up) (right x _ hx down)) (left x _ hx down))
                (left x _ hx up))
              (right y _ hy far_up))
            (right y _ hy far_down))
          (left y _ hy far_down))
        (left y _ hy far_up)

module _ (fuel : ℕ) (circle : Circle) (x y t : ℕ) (c : Canvas) where
  circle_loop_stop :
      (ltb 0 x && leb y x) ≡ false → circle_loop (suc fuel) circle x y (pos t) c ≡ done c
  unfolding circle_loop
  circle_loop_stop h = rw (h, circle_loop) refl

  circle_loop_in :
      (ltb 0 x && leb y x) ≡ true
      → leb_ℤ (pos 0) (pos t +ℤ pos (u16 (y + 1)) -ℤ pos x) ≡ true
      → circle_loop (suc fuel) circle x y (pos t) c ≡ (
          spans circle x y c
          >>= circle_loop fuel circle (x - 1) (u16 (y + 1)) (pos t +ℤ pos (u16 (y + 1)) -ℤ pos x))
  unfolding circle_loop
  circle_loop_in h in_range = rw (h, circle_loop, in_range) refl

  circle_loop_out :
      (ltb 0 x && leb y x) ≡ true
      → leb_ℤ (pos 0) (pos t +ℤ pos (u16 (y + 1)) -ℤ pos x) ≡ false
      → circle_loop (suc fuel) circle x y (pos t) c ≡ (
          spans circle x y c
          >>= circle_loop fuel circle x (u16 (y + 1)) (pos t +ℤ pos (u16 (y + 1))))
  unfolding circle_loop
  circle_loop_out h out = rw (h, circle_loop, out) refl

  circle_loop_go :
      (x' t' : ℕ)
      → (ltb 0 x && leb y x) ≡ true
      → y < 65535
      → ((x ≤ t + suc y) × (x' + 1 ≡ x) × (t' + x ≡ t + suc y))
        ⊎ ((t + suc y < x) × (x' ≡ x) × (t' ≡ t + suc y))
      → circle_loop (suc fuel) circle x y (pos t) c
        ≡ (spans circle x y c >>= circle_loop fuel circle x' (suc y) (pos t'))
  circle_loop_go x' t' h fits (inl (in_now, hx, ht)) =
      let y' : u16 (y + 1) ≡ suc y = omega arith in
      let t1 : pos t +ℤ pos (suc y) ≡ pos (t + suc y) =
        eq_of_parts _ _ (omega (arith, +ℤ_parts (pos t) (pos (suc y)))) in
      let t2 : pos (t + suc y) -ℤ pos x ≡ pos t' =
        eq_of_parts _ _ (omega (arith, -ℤ_parts (pos (t + suc y)) (pos x))) in
      let x1 : x - 1 ≡ x' = omega arith in
      let in_range : leb_ℤ (pos 0) (pos (t + suc y) -ℤ pos x) ≡ true = ground (arith, t2) in
      circle_loop_in h (rw (y', t1) in_range) ∙ rw (y', t1, t2, x1) refl
  circle_loop_go x' t' h fits (inr (out, hx, ht)) =
      let y' : u16 (y + 1) ≡ suc y = omega arith in
      let t1 : pos t +ℤ pos (suc y) ≡ pos t' =
        eq_of_parts _ _ (omega (arith, +ℤ_parts (pos t) (pos (suc y)))) in
      let t2 : leb_ℤ (pos 0) (pos t' -ℤ pos x) ≡ false =
        ground (arith, -ℤ_parts (pos t') (pos x)) in
      circle_loop_out h (rw (y', t1) t2) ∙ rw (y', t1, hx) refl

module _ (circle : Circle) (fits : circle.r < 65536) where
  circle_loop-Within :
      (fuel x y t : ℕ)
      → x ≤ circle.r
      → x + 1 < y + fuel
      → 0 < fuel
      → (0 < x → y ≤ x → t < x)
      → (x ≡ 65535 → y ≤ t)
      → Within (box circle circle.r) circle.c (circle_loop fuel circle x y (pos t))
  circle_loop-Within zero x y t hx enough some_left small grown = absurd (omega arith)
  circle_loop-Within (suc fuel) x y t hx enough some_left small grown =
      elim (Bool-cases (ltb 0 x && leb y x)) [
        | inr stop ↦
            Within-eq (box circle circle.r) circle.c _ _
              (λ c. circle_loop_stop fuel circle x y t c stop)
              (Within-done (box circle circle.r) circle.c)
        | inl go ↦
            let below : t < x = small (ground arith) (ground arith) in
            let more : y < 65535 = ground (arith, grown) in
            elim (Bool-cases (leb x (t + suc y))) [
              | inl in_now ↦
                  Within-eq (box circle circle.r) circle.c _ _
                    (λ c.
                      circle_loop_go fuel circle x y t c (x - 1) (t + suc y - x) go more
                        (inl (ground arith)))
                    (Within->>= (box circle circle.r) circle.c (spans circle x y) _
                      (spans-Within circle circle.r x y hx (ground arith))
                      (circle_loop-Within fuel (x - 1) (suc y) (t + suc y - x) (omega arith)
                        (ground arith) (ground arith) (λ h1 h2. ground arith) (λ h. ground arith)))
              | inr out ↦
                  Within-eq (box circle circle.r) circle.c _ _
                    (λ c.
                      circle_loop_go fuel circle x y t c x (t + suc y) go more (inr (ground arith)))
                    (Within->>= (box circle circle.r) circle.c (spans circle x y) _
                      (spans-Within circle circle.r x y hx (ground arith))
                      (circle_loop-Within fuel x (suc y) (t + suc y) hx (ground arith)
                        (ground arith) (λ h1 h2. ground arith) (λ h. ground (arith, grown))))
            ]
      ]

-- The area is the same on every valid canvas.
pub rendering_draw_circle-Within :
    (circle : Circle)
    → circle.r < 65536
    → Within (box circle circle.r) circle.c (λ c. rendering_draw_circle c circle)
unfolding rendering_draw_circle
rendering_draw_circle-Within circle fits =
    circle_loop-Within circle fits circle_rounds circle.r 0 (circle.r / 16) (omega arith)
      (omega arith) (omega arith) (λ h1 h2. omega arith) (λ h. omega arith)

-- On a valid canvas, for every circle whose radius has 16 bits, on the canvas or not, the loop of
-- `rendering_draw_circle` ends. It paints an area whose pixels are at most `r` columns and `r` rows
-- away from the centre, and it changes no other pixel.
pub rendering_draw_circle-Paints :
    (c : Canvas) (circle : Circle)
    → IsValid c
    → circle.r < 65536
    → (a : Area) × ((x y : ℕ) → a x y ≡ true → box circle circle.r x y ≡ true)
      × Paints c a (flat circle.c) (rendering_draw_circle c circle)
rendering_draw_circle-Paints c circle v fits =
    let (a, in_box, paints) = rendering_draw_circle-Within circle fits in (a, in_box, paints c v)
