-- ===== src/Panes/Canvases.antt =====
-- The canvases of the panes of display/threads/ui.c, through the abstract operations on the list.
use ttds.Prelude.{ℕ, zero, suc, List, [], ◌∷◌, ◌++◌, Bool-cases, inl, inr}
use ttds.Prelude.Text.{Bytes, equal}
use ttds.Canvas.{Canvas}
use ttds.Panes.{Pane}
use ttds.Panes.Registry.{remove, set}
use ttds.Panes.Draw.{StandsAt, first, later}

-- Every canvas of the list has the property.
abbrev pub Canvases : (Canvas → Type 0) → List Pane → Type 0
Canvases P [] = Unit {0}
Canvases P (p ∷ ps) = P p.canvas × Canvases P ps

pub Canvases-mono :
    {P Q : Canvas → Type 0} (ps : List Pane)
    → ((c : Canvas) → P c → Q c)
    → Canvases P ps
    → Canvases Q ps
Canvases-mono [] all h = tt
Canvases-mono (p ∷ ps) all h = (all p.canvas h.0, Canvases-mono ps all h.1)

module _ (P : Canvas → Type 0) where
  pub Canvases-append :
      (ps : List Pane) (q : Pane) → Canvases P ps → P q.canvas → Canvases P (ps ++ q ∷ [])
  Canvases-append [] q h hq = (hq, tt)
  Canvases-append (p ∷ ps) q h hq = (h.0, Canvases-append ps q h.1 hq)

  pub Canvases-remove :
      (ps : List Pane) (name : Bytes) → Canvases P ps → Canvases P (remove name ps)
  Canvases-remove [] name h = tt
  Canvases-remove (p ∷ ps) name h = elim (Bool-cases (equal p.name name)) [
    | inl hit ↦ rw hit h.1
    | inr miss ↦ rw miss (h.0, Canvases-remove ps name h.1)
  ]

  pub Canvases-set :
      (ps : List Pane) (i : ℕ) (q : Pane) → Canvases P ps → P q.canvas → Canvases P (set ps i q)
  Canvases-set [] i q h hq = tt
  Canvases-set (p ∷ ps) zero q h hq = (hq, h.1)
  Canvases-set (p ∷ ps) (suc i) q h hq = (h.0, Canvases-set ps i q h.1 hq)

  pub Canvases-StandsAt :
      {ps : List Pane} {i : ℕ} {p : Pane} → StandsAt ps i p → Canvases P ps → P p.canvas
  Canvases-StandsAt first h = h.0
  Canvases-StandsAt (later at) h = Canvases-StandsAt at h.1
