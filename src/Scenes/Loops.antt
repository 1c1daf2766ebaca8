-- ===== src/Scenes/Loops.antt =====
-- The loops of the scenes of display/testing.c keep what their bodies keep, and end.
use ttds.Prelude.{
  ℕ, zero, suc, ◌+◌, ◌≤◌, ◌<◌, ◌≡◌, true, false, List, [], ◌∷◌, inl, inr, arith, leb, Bool-cases,
  refl,
}
use ttds.Prelude.Run.{done, ◌>>=◌}
use ttds.Canvas.{Canvas, u16}
use ttds.Canvas.Loop.{u16_rounds}
use ttds.Canvas.Texel.{IsValid, SameShape, SameShape-refl, SameShape-trans}
use ttds.Canvas.Keeps.{Kept, done-Kept, Kept->>=}
use ttds.Scenes.Drawing.{Scene, draw_each, times, for_steps}

abbrev pub Each {ℓ} : {A : Type ℓ} → (A → Type 0) → List A → Type 0
Each P [] = Unit {0}
Each P (x ∷ xs) = P x × Each P xs

pub draw_each-Kept {ℓ} :
    {A : Type ℓ} (P : A → Type 0) (draw : A → Scene)
    → ((x : A) (c : Canvas) → P x → IsValid c → Kept c (draw x c))
    → (xs : List A) (c : Canvas) → Each P xs
    → IsValid c
    → Kept c (draw_each draw xs c)
unfolding draw_each
draw_each-Kept P draw keeps [] c all v = done-Kept c v
draw_each-Kept P draw keeps (x ∷ xs) c all v =
    Kept->>= (draw_each draw xs) (keeps x c all.0 v)
      λ d vd s. draw_each-Kept P draw keeps xs d all.1 vd

pub times-Kept :
    (body : ℕ → Scene)
    → ((i : ℕ) (c : Canvas) → IsValid c → Kept c (body i c))
    → (left i : ℕ) (c : Canvas) → IsValid c
    → Kept c (times body left i c)
unfolding times
times-Kept body keeps zero i c v = done-Kept c v
times-Kept body keeps (suc left) i c v =
    Kept->>= (times body left (i + 1)) (keeps i c v)
      λ d vd s. times-Kept body keeps left (i + 1) d vd

-- A loop whose body is only known to keep canvases of one shape, for the values of its counter.
pub rounds-Kept :
    (b : Canvas) (n : ℕ) (body : ℕ → Scene)
    → ((i : ℕ) (c : Canvas) → i < n → IsValid c → SameShape b c → Kept c (body i c))
    → (left i : ℕ) (c : Canvas) → i + left ≤ n
    → IsValid c
    → SameShape b c
    → Kept c (times body left i c)
unfolding times
rounds-Kept b n body keeps zero i c within v s = done-Kept c v
rounds-Kept b n body keeps (suc left) i c within v s =
    Kept->>= (times body left (i + 1)) (keeps i c (omega arith) v s)
      λ d vd t. rounds-Kept b n body keeps left (i + 1) d (omega arith) vd (SameShape-trans s t)

module _ (limit step : ℕ) (body : ℕ → Scene) where
  steps_go :
      (fuel i : ℕ) (c : Canvas)
      → leb i limit ≡ true
      → for_steps (suc fuel) limit step body i c
        ≡ (body i c >>= for_steps fuel limit step body (u16 (i + step)))
  unfolding for_steps
  steps_go fuel i c e = rw (e, for_steps) refl

  steps_stop :
      (fuel i : ℕ) (c : Canvas)
      → leb i limit ≡ false
      → for_steps (suc fuel) limit step body i c ≡ done c
  unfolding for_steps
  steps_stop fuel i c e = rw (e, for_steps) refl

  -- The counter grows and does not wrap, so the loop ends within its fuel.
  for_steps-Kept :
      (b : Canvas)
      → ((i : ℕ) (c : Canvas) → i ≤ limit → IsValid c → SameShape b c → Kept c (body i c))
      → 0 < step
      → limit + step < 65536
      → (fuel i : ℕ) (c : Canvas) → limit + 1 < i + fuel
      → 0 < fuel
      → IsValid c
      → SameShape b c
      → Kept c (for_steps fuel limit step body i c)
  for_steps-Kept b keeps moves fits zero i c enough some_left v s = absurd (omega arith)
  for_steps-Kept b keeps moves fits (suc fuel) i c enough some_left v s =
      elim (Bool-cases (leb i limit)) [
        | inl go ↦
            let no_wrap : u16 (i + step) ≡ i + step = ground arith in
            rw (steps_go fuel i c go, no_wrap)
              (Kept->>= (for_steps fuel limit step body (i + step)) (keeps i c (ground arith) v s)
                λ d vd t.
                  for_steps-Kept b keeps moves fits fuel (i + step) d (omega arith) (ground arith)
                    vd (SameShape-trans s t))
        | inr stop ↦ rw (steps_stop fuel i c stop) (done-Kept c v)
      ]

  pub steps-Kept :
      (c : Canvas)
      → ((i : ℕ) (d : Canvas) → i ≤ limit → IsValid d → SameShape c d → Kept d (body i d))
      → 0 < step
      → limit + step < 65536
      → IsValid c
      → Kept c (for_steps u16_rounds limit step body 0 c)
  steps-Kept c keeps moves fits v =
      for_steps-Kept c keeps moves fits u16_rounds 0 c (omega arith) (omega arith) v
        (SameShape-refl c)
