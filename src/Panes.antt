-- ===== src/Panes.antt =====
-- The pane storage of display/threads/ui.c: `ui_pane_create`, `ui_pane_count`, `ui_pane_remove`,
-- `ui_pane_draw_shape` and the lookup that they share. Each of them holds the mutex from its first
-- to its last access, so each is one step on the storage. A canvas is owned by one pane and is
-- reached through it alone, so it is a value here.
pub mod Start
pub mod Registry
pub mod Lookup
pub mod Create
pub mod Remove
pub mod Draw
pub mod Canvases
pub mod Tests
use package.ttds.Prelude.{ℕ, zero, suc, ◌+◌, ◌-◌, Bool, true, false, Option, none, some}
use package.ttds.Prelude.{ltb, leb, ◌==◌, if◌then◌else◌}
use package.ttds.Prelude.Text.{Bytes, codes, equal}
use package.ttds.Prelude.Run.{Run, done, fault, use_after_free, out_of_bounds, fatal, ◌>>=◌}
use package.ttds.Canvas.{Color, Canvas}
use package.ttds.Canvas.Rect.{rendering_fill}

abbrev pub max_panes : ℕ
max_panes = 1024

pub record Pane : Type 0 where
  pub name : Bytes
  pub canvas : Canvas

-- An element of the array `panes`. The pointers of a `wild` one must not be followed: they were
-- never set, or they are null, or what they pointed to has been freed.
pub data Slot : Type 0 where
  wild : Slot
  owned : Pane → Slot

-- `struct pane_storage`.
pub record Storage : Type 0 where
  pub count : ℕ
  pub slots : ℕ → Slot

-- `enum ui_failure`.
pub data Failure : Type 0 where
  ui_ok ui_duplicate ui_oom ui_no_such_pane ui_too_many_panes : Failure

unfoldable pub ui_failure_str : Failure → Bytes
ui_failure_str ui_ok = codes "no failure"
ui_failure_str ui_duplicate = codes "duplicate pane"
ui_failure_str ui_oom = codes "oom"
ui_failure_str ui_no_such_pane = codes "targeted pane doesn't exist"
ui_failure_str ui_too_many_panes = codes "MAX_PANES would be exceeded"

abbrev pub put : (ℕ → Slot) → ℕ → Slot → ℕ → Slot
put slots i s j = if i == j then s else slots j

abbrev pub follow : Slot → Run Pane
follow wild = fault use_after_free
follow (owned p) = done p

-- Following the pointers of `panes[i]`.
unfoldable pub pane_at : Storage → ℕ → Run Pane
pane_at st i = if ltb i max_panes then follow (st.slots i) else fault out_of_bounds

-- The loop of `lookup_pane_thread_unsafe` with `left` rounds to go; a found pane is its index.
unfoldable pub lookup_from : ℕ → ℕ → Bytes → Storage → Run (Option ℕ)
lookup_from zero i name st = done none
lookup_from (suc left) i name st =
    let rest = lookup_from left (suc i) name st in
    (pane_at st i >>= λ p. if equal p.name name then done (some i) else rest)

unfoldable pub lookup_pane_thread_unsafe : Storage → Bytes → Run (Option ℕ)
lookup_pane_thread_unsafe st name = lookup_from st.count 0 name st

-- The end of `ui_pane_create`. The flag says whether `strdup` returns memory, and the option is
-- what the backend's `canvas_init` returns.
unfoldable pub add_pane : Bool → Option Canvas → Bytes → Color → Storage → Run (Failure × Storage)
add_pane false canvas name fill st = done (ui_oom, record st { slots = put st.slots st.count wild })
add_pane true none name fill st = done (ui_oom, record st { slots = put st.slots st.count wild })
add_pane true (some c) name fill st = rendering_fill c fill >>= λ filled. done (
  ui_ok,
  record {
    count = st.count + 1;
    slots = put st.slots st.count (owned (record { name = name; canvas = filled }));
  },
)

-- The panes that `ui_ctx_new` makes; the rest of its work is with the system. The flag and the
-- option are as for `add_pane`. It does not ask whether the canvas is null.
unfoldable pub ui_ctx_new : Bool → Option Canvas → Run Storage
ui_ctx_new false canvas = fault fatal
ui_ctx_new true none = fault use_after_free
ui_ctx_new true (some c) = rendering_fill c (record { r = 0x3A; g = 0x22; b = 0xBD }) >>= λ filled.
    done (record {
      count = 1;
      slots = put (λ _. wild) 0 (owned (record { name = codes "root"; canvas = filled }));
    })

unfoldable pub ui_pane_create :
    Bool → Option Canvas → Bytes → Color → Storage → Run (Failure × Storage)
ui_pane_create strdup_ok canvas name fill st = do
  found ← lookup_pane_thread_unsafe st name
  elim found [
    | some p ↦ done (ui_duplicate, st)
    | none ↦
        if leb max_panes st.count
        then done (ui_too_many_panes, st)
        else add_pane strdup_ok canvas name fill st
  ]

unfoldable pub ui_pane_count : Storage → ℕ
ui_pane_count st = st.count

-- The inner loop of `ui_pane_remove`: slot `i` gets what slot `i + 1` holds, and so on.
unfoldable pub close_gap : ℕ → ℕ → (ℕ → Slot) → ℕ → Slot
close_gap zero i slots = slots
close_gap (suc left) i slots = close_gap left (suc i) (put slots i (slots (suc i)))

-- The outer loop, with `left` rounds to go. The found pane's name and canvas are freed.
unfoldable pub remove_from : ℕ → ℕ → Bytes → Storage → Run (Failure × Storage)
remove_from zero i name st = done (ui_no_such_pane, st)
remove_from (suc left) i name st =
    let rest = remove_from left (suc i) name st in
    (pane_at st i >>= λ p.
    if equal p.name name
    then done
        (ui_ok, record { count = st.count - 1; slots = close_gap left i (put st.slots i wild) })
    else rest)

unfoldable pub ui_pane_remove : Storage → Bytes → Run (Failure × Storage)
ui_pane_remove st name = remove_from st.count 0 name st

-- `inner` is the drawing function with its shape.
unfoldable pub ui_pane_draw_shape :
    Storage → Bytes → (Canvas → Run Canvas) → Run (Failure × Storage)
ui_pane_draw_shape st name inner = do
  found ← lookup_pane_thread_unsafe st name
  elim found [
    | none ↦ done (ui_no_such_pane, st)
    | some i ↦ pane_at st i >>= λ p. inner p.canvas >>= λ drawn.
        done (ui_ok, record st { slots = put st.slots i (owned (record p { canvas = drawn })) })
  ]
