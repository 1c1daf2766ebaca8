-- ===== src/Panes/Remove.antt =====
-- `ui_pane_remove` of display/threads/ui.c against the list of panes, and its loop that moves the
-- later panes down by one slot.
use ttds.Prelude.{ℕ, zero, suc, ◌+◌, ◌-◌, ◌≤◌, ◌<◌, ◌≡◌, refl, arith}
use ttds.Prelude.{Option, none, some, List, [], ◌∷◌, ◌∙◌, Bool-cases, inl, inr}
use ttds.Prelude.Text.{Bytes, equal, equal_iff, length}
use ttds.Prelude.Run.{Run, done}
use ttds.Panes.{
  Pane, Slot, wild, Storage, Failure, ui_ok, ui_no_such_pane, put, max_panes, close_gap,
  remove_from, ui_pane_remove,
}
use ttds.Panes.Registry.{find_from, find, remove, Holds, Represents, Fresh, WellFormed}
use ttds.Panes.Lookup.{pane_at-owned, Holds-put_outside}

close_gap-below : (left i j : ℕ) (slots : ℕ → Slot) → j < i → close_gap left i slots j ≡ slots j
unfolding close_gap
close_gap-below zero i j slots h = refl
close_gap-below (suc left) i j slots h =
    close_gap-below left (suc i) j (put slots i (slots (suc i))) (omega arith) ∙ ground arith

Holds-close_gap :
    (ps : List Pane) (left i : ℕ) (slots : ℕ → Slot)
    → left ≡ length ps
    → Holds slots (suc i) ps
    → Holds (close_gap left i slots) i ps
unfolding close_gap
Holds-close_gap [] left i slots e h = tt
Holds-close_gap (p ∷ ps) zero i slots e h = absurd (omega arith)
Holds-close_gap (p ∷ ps) (suc left) i slots e (here, later) = (
  close_gap-below left (suc i) i _ (omega arith) ∙ ground arith,
  Holds-close_gap ps left (suc i) _ (omega arith)
      (Holds-put_outside ps (suc (suc i)) i slots _ (inl (omega arith)) later),
)

abbrev removed_outcome : Option (ℕ × Pane) → Failure
removed_outcome none = ui_no_such_pane
removed_outcome (some _) = ui_ok

-- After the loop from slot `i` on: the slots below are as before, and those from `i` on hold the
-- list without the first pane of that name.
record RemovedFrom (st : Storage) (i : ℕ) (name : Bytes) (ps : List Pane)
    (r : Run (Failure × Storage)) : Type 0 where
  out : Storage
  returns : r ≡ done (removed_outcome (find_from i name ps), out)
  below : (j : ℕ) → j < i → out.slots j ≡ st.slots j
  held : Holds out.slots i (remove name ps)
  counted : out.count + length ps ≡ st.count + length (remove name ps)

remove_from-RemovedFrom :
    (ps : List Pane) (left i : ℕ) (name : Bytes) (st : Storage)
    → left ≡ length ps
    → i + left ≤ max_panes
    → left ≤ st.count
    → Holds st.slots i ps
    → RemovedFrom st i name ps (remove_from left i name st)
unfolding remove_from
remove_from-RemovedFrom [] (suc left) i name st e b c h = absurd (omega arith)
remove_from-RemovedFrom [] zero i name st e b c h = record {
  out = st;
  returns = refl;
  below = λ j lt. refl;
  held = tt;
  counted = refl;
}
remove_from-RemovedFrom (p ∷ ps) zero i name st e b c h = absurd (omega arith)
remove_from-RemovedFrom (p ∷ ps) (suc left) i name st e b c (here, later) =
    let read = pane_at-owned st i p (omega arith) here in
    elim (Bool-cases (equal p.name name)) [
      | inl hit ↦ record {
        out = record { count = st.count - 1; slots = close_gap left i (put st.slots i wild) };
        returns = rw (read, hit);
        below = λ j lt. close_gap-below left i j _ lt ∙ ground arith;
        held = rw hit (
            Holds-close_gap ps left i (put st.slots i wild) (omega arith)
              (Holds-put_outside ps (suc i) i st.slots wild (inl (omega arith)) later));
        counted = rw hit (omega arith);
      }
      | inr miss ↦
          let rest =
            remove_from-RemovedFrom ps left (suc i) name st (omega arith) (omega arith)
              (omega arith) later in
          record {
            out = rest.out;
            returns = rw (read, miss) rest.returns;
            below = λ j lt. rest.below j (omega arith);
            held = rw miss (rest.below i (omega arith) ∙ here, rest.held);
            counted = rw miss (omega (arith, rest.counted));
          }
    ]

Fresh-remove : (ps : List Pane) (other name : Bytes) → Fresh other ps → Fresh other (remove name ps)
Fresh-remove [] other name f = tt
Fresh-remove (p ∷ ps) other name f = ground (arith, Fresh-remove ps other name f.1)

WellFormed-remove : (ps : List Pane) (name : Bytes) → WellFormed ps → WellFormed (remove name ps)
WellFormed-remove [] name w = tt
WellFormed-remove (p ∷ ps) name w = elim (Bool-cases (equal p.name name)) [
  | inl hit ↦ rw hit w.2
  | inr miss ↦ rw miss (Fresh-remove ps p.name name w.0, w.1, WellFormed-remove ps name w.2)
]

length-remove-le : (ps : List Pane) (name : Bytes) → length (remove name ps) ≤ length ps
length-remove-le [] name = omega arith
length-remove-le (p ∷ ps) name = ground (arith, length-remove-le ps name)

Fresh-remove_self : (ps : List Pane) (name : Bytes) → WellFormed ps → Fresh name (remove name ps)
Fresh-remove_self [] name w = tt
Fresh-remove_self (p ∷ ps) name w = elim (Bool-cases (equal p.name name)) [
  | inl hit ↦ rw hit (rw ((equal_iff p.name name).0 hit) at w.0)
  | inr miss ↦ rw miss (ground (arith, equal_iff p.name name), Fresh-remove_self ps name w.2)
]

pub record Removed (ps : List Pane) (name : Bytes) (r : Run (Failure × Storage)) : Type 0 where
  pub out : Storage
  pub returns : r ≡ done (removed_outcome (find name ps), out)
  pub represents : Represents out (remove name ps)
  pub well_formed : WellFormed (remove name ps)
  pub gone : Fresh name (remove name ps)

-- On a storage that represents a well-formed list, `ui_pane_remove` never faults. It answers
-- whether the list has a pane of that name, and takes the first one out; the other panes stay in
-- their order, and afterwards no pane has the name.
pub ui_pane_remove-Removed :
    (st : Storage) (ps : List Pane) (name : Bytes)
    → Represents st ps
    → WellFormed ps
    → Removed ps name (ui_pane_remove st name)
unfolding ui_pane_remove
ui_pane_remove-Removed st ps name r w =
    let run =
      remove_from-RemovedFrom ps st.count 0 name st r.counted (omega (arith, r.counted, r.bounded))
        (omega arith) r.held in
    record {
      out = run.out;
      returns = run.returns;
      represents = record {
        counted = omega (arith, r.counted, run.counted);
        bounded = omega (arith, r.bounded, length-remove-le ps name);
        held = run.held;
      };
      well_formed = WellFormed-remove ps name w;
      gone = Fresh-remove_self ps name w;
    }
