-- ===== src/Panes/Create.antt =====
-- `ui_pane_create` of display/threads/ui.c against the list of panes.
use ttds.Prelude.{ℕ, ◌+◌, ◌<◌, ◌≡◌, ◌≢◌, ◌⊎◌, refl, sym, Bool, true, false, arith, ap}
use ttds.Prelude.{
  Option, none, some, List, [], ◌∷◌, ◌++◌, ◌∙◌, if◌then◌else◌, Bool-cases, leb, inl, inr,
}
use ttds.Prelude.{Option-cases}
use ttds.Prelude.Text.{Bytes, length, length-append}
use ttds.Prelude.Run.{Run, done}
use ttds.Canvas.{Color, Canvas, bgra}
use ttds.Canvas.Texel.{IsValid, SameShape, texel}
use ttds.Canvas.Rect.{rendering_fill-Paints}
use ttds.Panes.{
  Pane, Slot, owned, wild, Storage, Failure, ui_ok, ui_no_such_pane, ui_duplicate, ui_oom,
  ui_too_many_panes, put, max_panes, add_pane, ui_pane_create,
}
use ttds.Panes.Registry.{find, Represents, Fresh, WellFormed}
use ttds.Panes.Lookup.{lookup-find, find-none-Fresh, Holds-put_outside, Holds-append}

-- The backend's canvases may be drawn on. (It may also return null.)
abbrev pub Allocates : Option Canvas → Type 0
Allocates none = Unit {0}
Allocates (some c) = IsValid c

abbrev allocated : Bool → Option Canvas → Failure
allocated true (some c) = ui_ok
allocated _ _ = ui_oom

-- What `ui_pane_create` answers, and in which order it looks for failures.
abbrev pub create_outcome : Bool → Option Canvas → Bytes → List Pane → Failure
create_outcome strdup_ok canvas name ps = elim (find name ps) [
  | some _ ↦ ui_duplicate
  | none ↦ if leb max_panes (length ps) then ui_too_many_panes else allocated strdup_ok canvas
]

abbrev pub IsFilled : Color → Canvas → Type 0
IsFilled fill c = (x y k : ℕ) → x < c.width → y < c.height → k < 4 → texel c x y k ≡ bgra fill k

-- The call answers `outcome`; the list is as before, or the answer is `ui_ok` and the list has one
-- more pane at its end, which has the name and the given canvas, filled.
pub record Created (ps : List Pane) (name : Bytes) (fill : Color) (canvas : Option Canvas)
    (outcome : Failure) (r : Run (Failure × Storage)) : Type 0 where
  pub out : Storage
  pub returns : r ≡ done (outcome, out)
  pub panes : List Pane
  pub represents : Represents out panes
  pub well_formed : WellFormed panes
  pub kept : outcome ≢ ui_ok → panes ≡ ps
  pub added :
      outcome ≡ ui_ok
      → (q : Pane) × (panes ≡ ps ++ q ∷ [])
        × (q.name ≡ name)
        × IsFilled fill q.canvas
        × ((c : Canvas) × (canvas ≡ some c) × SameShape c q.canvas)

Fresh-append :
    (ps : List Pane) (name : Bytes) (q : Pane)
    → Fresh name ps
    → q.name ≢ name
    → Fresh name (ps ++ q ∷ [])
Fresh-append [] name q f n = (n, tt)
Fresh-append (p ∷ ps) name q f n = (f.0, Fresh-append ps name q f.1 n)

WellFormed-append :
    (ps : List Pane) (q : Pane)
    → Fresh q.name ps
    → IsValid q.canvas
    → WellFormed ps
    → WellFormed (ps ++ q ∷ [])
WellFormed-append [] q f v w = (tt, v, tt)
WellFormed-append (p ∷ ps) q f v w =
    (Fresh-append ps p.name q w.0 (λ e. f.0 (sym e)), w.1, WellFormed-append ps q f.1 v w.2)

module _ (st : Storage) (ps : List Pane) (r : Represents st ps) where
  Represents-kept : (s : Slot) → Represents (record st { slots = put st.slots st.count s }) ps
  Represents-kept s = record {
    counted = r.counted;
    bounded = r.bounded;
    held = Holds-put_outside ps 0 st.count st.slots s (inr (omega (arith, r.counted))) r.held;
  }

  Represents-append :
      (q : Pane)
      → st.count < max_panes
      → Represents
          (record { count = st.count + 1; slots = put st.slots st.count (owned q) })
          (ps ++ q ∷ [])
  Represents-append q h = record {
    counted = omega (arith, r.counted, length-append ps (q ∷ []));
    bounded = omega (arith, r.counted, length-append ps (q ∷ []));
    held =
        Holds-append ps 0 _ q
          (Holds-put_outside ps 0 st.count st.slots (owned q) (inr (omega (arith, r.counted)))
            r.held)
          (ground (arith, r.counted));
  }

  Created-kept :
      {name : Bytes} {fill : Color} {canvas : Option Canvas} (outcome : Failure) (out : Storage)
      → outcome ≢ ui_ok
      → Represents out ps
      → WellFormed ps
      → Created ps name fill canvas outcome (done (outcome, out))
  Created-kept outcome out failed represents w = record {
    out = out;
    returns = refl;
    panes = ps;
    represents = represents;
    well_formed = w;
    kept = λ _. refl;
    added = λ e. absurd (failed e);
  }

  add_pane-Created :
      (strdup_ok : Bool) (canvas : Option Canvas) (name : Bytes) (fill : Color)
      → Allocates canvas
      → WellFormed ps
      → Fresh name ps
      → st.count < max_panes
      → Created ps name fill canvas
          (allocated strdup_ok canvas)
          (add_pane strdup_ok canvas name fill st)
  unfolding add_pane
  add_pane-Created false canvas name fill a w f h =
      Created-kept ui_oom _ (λ e. cc) (Represents-kept wild) w
  add_pane-Created true none name fill a w f h =
      Created-kept ui_oom _ (λ e. cc) (Represents-kept wild) w
  add_pane-Created true (some c) name fill a w f h =
      let filled = rendering_fill-Paints c fill a in
      let q : Pane = record { name = name; canvas = filled.out } in
      rw filled.returns (record {
        out = record { count = st.count + 1; slots = put st.slots st.count (owned q) };
        returns = refl;
        panes = ps ++ q ∷ [];
        represents = Represents-append q h;
        well_formed = WellFormed-append ps q f filled.valid w;
        kept = λ ne. absurd (ne refl);
        added = λ _. (
          q,
          refl,
          refl,
          λ x y k hx hy hk.
              filled.pixels x y k (rw filled.shape.width_same at hx)
                (rw filled.shape.height_same at hy) hk,
          (c, refl, filled.shape),
        );
      })

pub Failure-cases : (f : Failure) → (f ≡ ui_ok) ⊎ (f ≢ ui_ok)
Failure-cases ui_ok = inl refl
Failure-cases ui_no_such_pane = inr (λ e. cc)
Failure-cases ui_duplicate = inr (λ e. cc)
Failure-cases ui_oom = inr (λ e. cc)
Failure-cases ui_too_many_panes = inr (λ e. cc)

-- On a storage that represents a well-formed list, `ui_pane_create` never faults. It answers that
-- the name is taken, else that 1024 panes are held, else that memory is short, each time with the
-- list as before; otherwise it adds one pane of that name at the end,
-- with the backend's canvas, filled with the colour.
pub ui_pane_create-Created :
    (strdup_ok : Bool) (canvas : Option Canvas) (name : Bytes) (fill : Color) (st : Storage)
    (ps : List Pane)
    → Allocates canvas
    → Represents st ps
    → WellFormed ps
    → Created ps name fill canvas
        (create_outcome strdup_ok canvas name ps)
        (ui_pane_create strdup_ok canvas name fill st)
unfolding ui_pane_create
ui_pane_create-Created strdup_ok canvas name fill st ps a r w = elim (Option-cases (find name ps)) [
  | inr ((i, p), e) ↦
      let outcome : create_outcome strdup_ok canvas name ps ≡ ui_duplicate = ground arith in
      rw (outcome, lookup-find st ps name r, e) (Created-kept st ps r ui_duplicate st (λ x. cc) r w)
  | inl e ↦ elim (Bool-cases (leb max_panes (length ps))) [
    | inl full ↦
        let outcome : create_outcome strdup_ok canvas name ps ≡ ui_too_many_panes = ground arith in
        rw (outcome, lookup-find st ps name r, e, ap (leb max_panes) r.counted ∙ full)
          (Created-kept st ps r ui_too_many_panes st (λ x. cc) r w)
    | inr room ↦
        let outcome : create_outcome strdup_ok canvas name ps ≡ allocated strdup_ok canvas =
          ground arith in
        rw (outcome, lookup-find st ps name r, e, ap (leb max_panes) r.counted ∙ room)
          (add_pane-Created st ps r strdup_ok canvas name fill a w (find-none-Fresh ps 0 name e)
            (ground (arith, r.counted)))
  ]
]
