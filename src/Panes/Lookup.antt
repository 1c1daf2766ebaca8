-- ===== src/Panes/Lookup.antt =====
-- `lookup_pane_thread_unsafe` of display/threads/ui.c against the list of panes, and writes to one
-- slot.
use ttds.Prelude.{ℕ, zero, suc, ◌+◌, ◌≤◌, ◌<◌, ◌≡◌, ◌⊎◌, refl, arith, ap}
use ttds.Prelude.{Option, none, some, List, [], ◌∷◌, ◌++◌, ◌∙◌}
use ttds.Prelude.Text.{Bytes, equal_iff, length}
use ttds.Prelude.Run.{done}
use ttds.Panes.{Pane, Slot, owned, Storage, put, pane_at, lookup_from, lookup_pane_thread_unsafe}
use ttds.Panes.Registry.{find_from, find, Holds, Represents, Fresh}

abbrev pub place : Option (ℕ × Pane) → Option ℕ
place none = none
place (some (i, p)) = some i

pub pane_at-owned :
    (st : Storage) (i : ℕ) (p : Pane) → i < 1024 → st.slots i ≡ owned p → pane_at st i ≡ done p
unfolding pane_at
pane_at-owned st i p h e = ground arith

pub lookup_from-find_from :
    (ps : List Pane) (left i : ℕ) (name : Bytes) (st : Storage)
    → left ≡ length ps
    → i + left ≤ 1024
    → Holds st.slots i ps
    → lookup_from left i name st ≡ done (place (find_from i name ps))
unfolding lookup_from
lookup_from-find_from [] zero i name st e b h = refl
lookup_from-find_from [] (suc left) i name st e b h = absurd (omega arith)
lookup_from-find_from (p ∷ ps) zero i name st e b h = absurd (omega arith)
lookup_from-find_from (p ∷ ps) (suc left) i name st e b (here, later) =
    let rest = lookup_from-find_from ps left (suc i) name st (omega arith) (omega arith) later in
    ground (arith, pane_at-owned st i p, rest)

-- The lookup faults on no storage that represents a list of panes.
pub lookup-find :
    (st : Storage) (ps : List Pane) (name : Bytes)
    → Represents st ps
    → lookup_pane_thread_unsafe st name ≡ done (place (find name ps))
unfolding lookup_pane_thread_unsafe
lookup-find st ps name r =
    lookup_from-find_from ps st.count 0 name st r.counted (omega (arith, r.counted, r.bounded))
      r.held

-- What a found pane is: it lies in its slot, and it has the name.
pub find_from_found :
    (ps : List Pane) (i : ℕ) (name : Bytes) (slots : ℕ → Slot) (j : ℕ) (p : Pane)
    → Holds slots i ps
    → find_from i name ps ≡ some (j, p)
    → (slots j ≡ owned p) × (p.name ≡ name) × (i ≤ j) × (j < i + length ps)
find_from_found [] i name slots j p h e = cc
find_from_found (q ∷ ps) i name slots j p (here, later) e =
    let rest = find_from_found ps (suc i) name slots j p later in
    ground (arith, equal_iff q.name name, rest)

pub find-none-Fresh :
    (ps : List Pane) (i : ℕ) (name : Bytes) → find_from i name ps ≡ none → Fresh name ps
find-none-Fresh [] i name e = tt
find-none-Fresh (p ∷ ps) i name e =
    ground (arith, equal_iff p.name name, find-none-Fresh ps (suc i) name)

pub Holds-put_outside :
    (ps : List Pane) (i j : ℕ) (slots : ℕ → Slot) (s : Slot)
    → (j < i) ⊎ (i + length ps ≤ j)
    → Holds slots i ps
    → Holds (put slots j s) i ps
Holds-put_outside [] i j slots s out h = tt
Holds-put_outside (p ∷ ps) i j slots s out (here, later) =
    (ground arith, Holds-put_outside ps (suc i) j slots s (omega arith) later)

pub Holds-append :
    (ps : List Pane) (i : ℕ) (slots : ℕ → Slot) (q : Pane)
    → Holds slots i ps
    → slots (i + length ps) ≡ owned q
    → Holds slots i (ps ++ q ∷ [])
Holds-append [] i slots q h e = (ap slots (omega arith) ∙ e, tt)
Holds-append (p ∷ ps) i slots q (here, later) e =
    (here, Holds-append ps (suc i) slots q later (ap slots (omega arith) ∙ e))
