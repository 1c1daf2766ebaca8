-- ===== src/Canvas/Triangle/Sides.antt =====
-- The triangle as the part of the plane that lies on one side of its three edges, against the weights of
-- `rendering_draw_triangle` of display/rendering/canvas.c.
use ttds.Prelude.{ℕ, zero, suc, ◌+◌, ◌≡◌, Bool, ◌&&◌, ◌||◌, refl, ◌∙◌, arith}
use ttds.Prelude.Int.{ℤ, pos, negsuc, pos_part, neg_part, ◌-ℤ◌, ◌*ℤ◌, leb_ℤ, -ℤ_parts}
use ttds.Prelude.Differences.{
  Differs-minus, Differs-sum_of_products, Differs-minus_of_products, Differs-eq,
}
use ttds.Canvas.Copy.{min_ℤ}
use ttds.Canvas.Triangle.{Triangle, max_ℤ, weight_1, weight_2, det, inside}

-- The cross product of the edge from one corner to another and the way from the first corner to a
-- point: it is positive on the one side of the edge, negative on the other, and 0 on its line.
abbrev pub side : ℕ × ℕ → ℕ × ℕ → ℕ × ℕ → ℤ
side a b p =
    (pos b.0 -ℤ pos a.0) *ℤ (pos p.1 -ℤ pos a.1) -ℤ (pos b.1 -ℤ pos a.1) *ℤ (pos p.0 -ℤ pos a.0)

-- The point is on no edge's left, or on no edge's right, going round the corners.
abbrev pub one_sided : ℕ × ℕ → ℕ × ℕ → ℕ × ℕ → ℕ × ℕ → Bool
one_sided a b c p =
    leb_ℤ (pos 0) (side a b p) && (leb_ℤ (pos 0) (side b c p) && leb_ℤ (pos 0) (side c a p))
    || leb_ℤ (side a b p) (pos 0) && (leb_ℤ (side b c p) (pos 0) && leb_ℤ (side c a p) (pos 0))

abbrev pub corner_0 : Triangle → ℕ × ℕ
corner_0 tri = (tri.x0, tri.y0)

abbrev pub corner_1 : Triangle → ℕ × ℕ
corner_1 tri = (tri.x1, tri.y1)

abbrev pub corner_2 : Triangle → ℕ × ℕ
corner_2 tri = (tri.x2, tri.y2)

module _ (tri : Triangle) (x y : ℕ) where
  weight_1-side : weight_1 tri (pos x) (pos y) ≡ side (corner_1 tri) (corner_2 tri) (x, y)
  unfolding weight_1
  weight_1-side =
      Differs-eq _ _ _ _ _ _ (Differs-sum_of_products tri.y1 tri.y2 x tri.x2 tri.x2 tri.x1 y tri.y2)
        (Differs-minus_of_products tri.x2 tri.x1 y tri.y1 tri.y2 tri.y1 x tri.x1) (omega arith)

  weight_2-side : weight_2 tri (pos x) (pos y) ≡ side (corner_2 tri) (corner_0 tri) (x, y)
  unfolding weight_2
  weight_2-side =
      Differs-eq _ _ _ _ _ _ (Differs-sum_of_products tri.y2 tri.y0 x tri.x2 tri.x0 tri.x2 y tri.y2)
        (Differs-minus_of_products tri.x0 tri.x2 y tri.y2 tri.y0 tri.y2 x tri.x2) (omega arith)

  weight_3-side :
      det tri -ℤ weight_1 tri (pos x) (pos y) -ℤ weight_2 tri (pos x) (pos y)
      ≡ side (corner_0 tri) (corner_1 tri) (x, y)
  unfolding det weight_1 weight_2
  weight_3-side =
      Differs-eq _ _ _ _ _ _
        (Differs-minus _ _ _ _ _ _
          (Differs-minus _ _ _ _ _ _
            (Differs-sum_of_products tri.y1 tri.y2 tri.x0 tri.x2 tri.x2 tri.x1 tri.y0 tri.y2)
            (Differs-sum_of_products tri.y1 tri.y2 x tri.x2 tri.x2 tri.x1 y tri.y2))
          (Differs-sum_of_products tri.y2 tri.y0 x tri.x2 tri.x0 tri.x2 y tri.y2))
        (Differs-minus_of_products tri.x1 tri.x0 y tri.y0 tri.y1 tri.y0 x tri.x0) (omega arith)

min-pos : (n : ℕ) → min_ℤ (pos 0) (pos n) ≡ pos 0
unfolding min_ℤ
min-pos zero = refl
min-pos (suc n) = ground arith

max-pos : (n : ℕ) → max_ℤ (pos 0) (pos n) ≡ pos n
max-pos zero = refl
max-pos (suc n) = ground arith

min-negsuc : (n : ℕ) → min_ℤ (pos 0) (negsuc n) ≡ negsuc n
unfolding min_ℤ
min-negsuc n = ground arith

max-negsuc : (n : ℕ) → max_ℤ (pos 0) (negsuc n) ≡ pos 0
max-negsuc n = ground arith

-- Three numbers are between 0 and their sum if they have no two different signs.
abbrev between : ℤ → ℤ → ℤ → ℤ → ℤ → Bool
between lo hi b1 b2 b3 =
    leb_ℤ lo b1 && leb_ℤ b1 hi && leb_ℤ lo b2 && leb_ℤ b2 hi && leb_ℤ lo b3 && leb_ℤ b3 hi

abbrev same_signs : ℤ → ℤ → ℤ → Bool
same_signs b1 b2 b3 =
    leb_ℤ (pos 0) b3 && (leb_ℤ (pos 0) b1 && leb_ℤ (pos 0) b2)
    || leb_ℤ b3 (pos 0) && (leb_ℤ b1 (pos 0) && leb_ℤ b2 (pos 0))

abbrev Sum : ℤ → ℤ → ℤ → ℤ → Type 0
Sum d b1 b2 b3 =
    pos_part d + neg_part b1 + neg_part b2 + neg_part b3
    ≡ neg_part d + pos_part b1 + pos_part b2 + pos_part b3

between-Sum :
    (d b1 b2 b3 : ℤ)
    → Sum d b1 b2 b3
    → between (min_ℤ (pos 0) d) (max_ℤ (pos 0) d) b1 b2 b3 ≡ same_signs b1 b2 b3
between-Sum (pos n) b1 b2 b3 sum = rw (min-pos n, max-pos n) (ground (arith, sum))
between-Sum (negsuc n) b1 b2 b3 sum = rw (min-negsuc n, max-negsuc n) (ground (arith, sum))

-- The code's test on the weights is that of the sides.
pub inside-one_sided :
    (tri : Triangle) (x y : ℕ)
    → inside tri x y ≡ one_sided (corner_0 tri) (corner_1 tri) (corner_2 tri) (x, y)
unfolding inside
inside-one_sided tri x y =
    let d = det tri in
    let b1 = weight_1 tri (pos x) (pos y) in
    let b2 = weight_2 tri (pos x) (pos y) in
    between-Sum d b1 b2 (d -ℤ b1 -ℤ b2) (omega (arith, -ℤ_parts d b1, -ℤ_parts (d -ℤ b1) b2))
    ∙ rw (weight_3-side tri x y, weight_1-side tri x y, weight_2-side tri x y) refl
