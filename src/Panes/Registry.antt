-- ===== src/Panes/Registry.antt =====
-- The panes as a list, which is what display/threads/ui.c promises its callers: the abstract
-- operations, and how a pane storage represents a list.
use ttds.Prelude.{ℕ, zero, suc, ◌≤◌, ◌≡◌, ◌≢◌}
use ttds.Prelude.{Option, none, some, List, [], ◌∷◌, if◌then◌else◌}
use ttds.Prelude.Text.{Bytes, equal, length}
use ttds.Canvas.Texel.{IsValid}
use ttds.Panes.{Pane, Slot, owned, Storage, max_panes}

-- The first pane with the name, with its position.
abbrev pub find_from : ℕ → Bytes → List Pane → Option (ℕ × Pane)
find_from i name [] = none
find_from i name (p ∷ ps) = if equal p.name name then some (i, p) else find_from (suc i) name ps

abbrev pub find : Bytes → List Pane → Option (ℕ × Pane)
find name ps = find_from 0 name ps

abbrev pub remove : Bytes → List Pane → List Pane
remove name [] = []
remove name (p ∷ ps) = if equal p.name name then ps else p ∷ remove name ps

abbrev pub set : List Pane → ℕ → Pane → List Pane
set [] i q = []
set (p ∷ ps) zero q = q ∷ ps
set (p ∷ ps) (suc i) q = p ∷ set ps i q

-- The slots from `i` on hold the panes of the list.
abbrev pub Holds : (ℕ → Slot) → ℕ → List Pane → Type 0
Holds slots i [] = Unit {0}
Holds slots i (p ∷ ps) = (slots i ≡ owned p) × Holds slots (suc i) ps

pub record Represents (st : Storage) (ps : List Pane) : Type 0 where
  pub counted : st.count ≡ length ps
  pub bounded : length ps ≤ max_panes
  pub held : Holds st.slots 0 ps

-- No pane of the list has the name.
abbrev pub Fresh : Bytes → List Pane → Type 0
Fresh name [] = Unit {0}
Fresh name (p ∷ ps) = (p.name ≢ name) × Fresh name ps

-- No two panes share a name, and each canvas may be drawn on.
abbrev pub WellFormed : List Pane → Type 0
WellFormed [] = Unit {0}
WellFormed (p ∷ ps) = Fresh p.name ps × IsValid p.canvas × WellFormed ps
