-- ===== src/Panes/Draw.antt =====
-- `ui_pane_draw_shape` of display/threads/ui.c against the list of panes.
use ttds.Prelude.{ℕ, zero, suc, ◌+◌, ◌<◌, ◌≡◌, refl, sym, arith, ap}
use ttds.Prelude.{◌⊎◌, none, some, List, [], ◌∷◌, ◌∙◌, Bool-cases, inl, inr, Option-cases, subst}
use ttds.Prelude.Text.{Bytes, equal, length}
use ttds.Prelude.Run.{Run, done}
use ttds.Canvas.{Canvas}
use ttds.Canvas.Texel.{IsValid, SameShape}
use ttds.Panes.{
  Pane, Slot, owned, Storage, Failure, ui_ok, ui_no_such_pane, put, ui_pane_draw_shape,
}
use ttds.Panes.Registry.{find_from, find, set, Holds, Represents, Fresh, WellFormed}
use ttds.Panes.Lookup.{lookup-find, find_from_found, pane_at-owned, Holds-put_outside}

-- A drawing function returns a valid canvas for every valid canvas.
abbrev pub Draws : (Canvas → Run Canvas) → Type 0
Draws inner = (c : Canvas) → IsValid c → (d : Canvas) × (inner c ≡ done d) × IsValid d

-- A drawing function returns on a valid canvas, and keeps its shape.
abbrev pub KeepsShape : (Canvas → Run Canvas) → Type 0
KeepsShape inner = Draws inner × ((c d : Canvas) → IsValid c → inner c ≡ done d → SameShape c d)

pub record Drawn (st : Storage) (ps : List Pane) (name : Bytes) (inner : Canvas → Run Canvas)
    (r : Run (Failure × Storage)) : Type 0 where
  pub out : Storage
  pub panes : List Pane
  pub represents : Represents out panes
  pub well_formed : WellFormed panes
  -- No pane has the name, and nothing changes; or the first pane of that name changes, by the
  -- drawing function's result.
  pub answers :
      ((find name ps ≡ none) × (r ≡ done (ui_no_such_pane, st)) × (panes ≡ ps))
      ⊎ ((i : ℕ) × (p : Pane) × (d : Canvas) × (find name ps ≡ some (i, p))
          × (inner p.canvas ≡ done d)
          × (r ≡ done (ui_ok, out))
          × (panes ≡ set ps i (record p { canvas = d })))

Holds-set :
    (ps : List Pane) (i j k : ℕ) (slots : ℕ → Slot) (q : Pane)
    → k ≡ i + j
    → Holds slots i ps
    → Holds (put slots k (owned q)) i (set ps j q)
Holds-set [] i j k slots q e h = tt
Holds-set (p ∷ ps) i zero k slots q e (here, later) =
    (ground arith, Holds-put_outside ps (suc i) k slots (owned q) (inl (omega arith)) later)
Holds-set (p ∷ ps) i (suc j) k slots q e (here, later) =
    (ground arith, Holds-set ps (suc i) j k slots q (omega arith) later)

length-set : (ps : List Pane) (i : ℕ) (q : Pane) → length (set ps i q) ≡ length ps
length-set [] i q = refl
length-set (p ∷ ps) zero q = refl
length-set (p ∷ ps) (suc i) q = ap suc (length-set ps i q)

pub data StandsAt : List Pane → ℕ → Pane → Type 0 where
  first : {ps : List Pane} {p : Pane} → StandsAt (p ∷ ps) zero p
  later : {ps : List Pane} {j : ℕ} {p q : Pane} → StandsAt ps j p → StandsAt (q ∷ ps) (suc j) p

pub find_from-StandsAt :
    (ps : List Pane) (i : ℕ) (name : Bytes) (j : ℕ) (p : Pane)
    → find_from i name ps ≡ some (j, p)
    → (d : ℕ) × (j ≡ i + d) × StandsAt ps d p
find_from-StandsAt [] i name j p e = cc
find_from-StandsAt (q ∷ ps) i name j p e = elim (Bool-cases (equal q.name name)) [
  | inl hit ↦
      let same : q ≡ p = ground arith in (0, ground arith, subst (StandsAt (q ∷ ps) 0) same first)
  | inr miss ↦
      let (d, e', at) = find_from-StandsAt ps (suc i) name j p (ground arith) in
      (suc d, omega arith, later at)
]

Fresh-set :
    {ps : List Pane} {j : ℕ} {p : Pane} (q : Pane) (name : Bytes)
    → StandsAt ps j p
    → q.name ≡ p.name
    → Fresh name ps
    → Fresh name (set ps j q)
Fresh-set q name first e f = (λ x. f.0 (sym e ∙ x), f.1)
Fresh-set q name (later at) e f = (f.0, Fresh-set q name at e f.1)

WellFormed-set :
    {ps : List Pane} {j : ℕ} {p : Pane} (q : Pane)
    → StandsAt ps j p
    → q.name ≡ p.name
    → (IsValid p.canvas → IsValid q.canvas)
    → WellFormed ps
    → WellFormed (set ps j q)
WellFormed-set q (first {ps}) e v w = (subst (λ n. Fresh n ps) (sym e) w.0, v w.1, w.2)
WellFormed-set q (later {q = r} at) e v w =
    (Fresh-set q r.name at e w.0, w.1, WellFormed-set q at e v w.2)

pub StandsAt-IsValid :
    {ps : List Pane} {j : ℕ} {p : Pane} → StandsAt ps j p → WellFormed ps → IsValid p.canvas
StandsAt-IsValid first w = w.1
StandsAt-IsValid (later at) w = StandsAt-IsValid at w.2

-- On a storage that represents a well-formed list, and for a drawing function that returns on
-- every valid canvas, `ui_pane_draw_shape` never faults. Without a pane of the name it answers so
-- and changes nothing; otherwise it draws on the canvas of that pane and changes no other pane.
pub ui_pane_draw_shape-Drawn :
    (st : Storage) (ps : List Pane) (name : Bytes) (inner : Canvas → Run Canvas)
    → Draws inner
    → Represents st ps
    → WellFormed ps
    → Drawn st ps name inner (ui_pane_draw_shape st name inner)
unfolding ui_pane_draw_shape
ui_pane_draw_shape-Drawn st ps name inner draws r w = elim (Option-cases (find name ps)) [
  | inl e ↦ record {
    out = st;
    panes = ps;
    represents = r;
    well_formed = w;
    answers = inl (e, rw (lookup-find st ps name r, e), refl);
  }
  | inr ((i, p), e) ↦
      let (slot, named, low, high) = find_from_found ps 0 name st.slots i p r.held e in
      let (d, at_d, at) = find_from-StandsAt ps 0 name i p e in
      let here : StandsAt ps i p = subst (λ k. StandsAt ps k p) (omega arith) at in
      let (drawn, runs, drawn_valid) = draws p.canvas (StandsAt-IsValid here w) in
      let q : Pane = record p { canvas = drawn } in
      let bound : i < 1024 = omega (arith, r.bounded) in
      record {
        out = record st { slots = put st.slots i (owned q) };
        panes = set ps i q;
        represents = record {
          counted = omega (arith, r.counted, length-set ps i q);
          bounded = omega (arith, r.bounded, length-set ps i q);
          held = Holds-set ps 0 i i st.slots q (omega arith) r.held;
        };
        well_formed = WellFormed-set q here refl (λ _. drawn_valid) w;
        answers = inr (
          i,
          p,
          drawn,
          e,
          runs,
          rw (lookup-find st ps name r, e, pane_at-owned st i p bound slot, runs),
          refl,
        );
      }
]
