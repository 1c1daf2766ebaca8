-- ===== src/Panes/Tests.antt =====
-- The theorems on the panes of display/threads/ui.c at a storage with one pane.
use ttds.Prelude.{true, refl, some, [], ◌∷◌, arith, if◌then◌else◌, ◌==◌}
use ttds.Prelude.Text.{codes}
use ttds.Canvas.Rect.{rendering_fill, rendering_fill-Paints}
use ttds.Canvas.Tests.{white, small, small-IsValid}
use ttds.Panes.{
  Pane, wild, owned, Storage, ui_ctx_new, ui_pane_create, ui_pane_remove, ui_pane_draw_shape,
}
use ttds.Panes.Registry.{Represents, WellFormed}
use ttds.Panes.Start.{Started, ui_ctx_new-Started}
use ttds.Panes.Create.{Created, create_outcome, ui_pane_create-Created}
use ttds.Panes.Remove.{Removed, ui_pane_remove-Removed}
use ttds.Panes.Draw.{Draws, Drawn, ui_pane_draw_shape-Drawn}

abbrev pub root_pane : Pane
root_pane = record { name = codes "root"; canvas = small }

abbrev pub one_pane : Storage
one_pane = record { count = 1; slots = λ i. if i == 0 then owned root_pane else wild }

pub one_pane-Represents : Represents one_pane (root_pane ∷ [])
one_pane-Represents = record { counted = refl; bounded = omega arith; held = (refl, tt) }

pub one_pane-WellFormed : WellFormed (root_pane ∷ [])
one_pane-WellFormed = (tt, small-IsValid, tt)

ui_ctx_new-Started_example : Started (ui_ctx_new true (some small))
ui_ctx_new-Started_example = ui_ctx_new-Started small small-IsValid

ui_pane_create-Created_example :
    Created
      (root_pane ∷ [])
      (codes "a")
      white
      (some small)
      (create_outcome true (some small) (codes "a") (root_pane ∷ []))
      (ui_pane_create true (some small) (codes "a") white one_pane)
ui_pane_create-Created_example =
    ui_pane_create-Created true (some small) (codes "a") white one_pane (root_pane ∷ [])
      small-IsValid one_pane-Represents one_pane-WellFormed

ui_pane_remove-Removed_example :
    Removed (root_pane ∷ []) (codes "root") (ui_pane_remove one_pane (codes "root"))
ui_pane_remove-Removed_example =
    ui_pane_remove-Removed one_pane (root_pane ∷ []) (codes "root") one_pane-Represents
      one_pane-WellFormed

fill-Draws : Draws (λ c. rendering_fill c white)
fill-Draws c v = let p = rendering_fill-Paints c white v in (p.out, p.returns, p.valid)

ui_pane_draw_shape-Drawn_example :
    Drawn one_pane
      (root_pane ∷ [])
      (codes "root")
      (λ c. rendering_fill c white)
      (ui_pane_draw_shape one_pane (codes "root") (λ c. rendering_fill c white))
ui_pane_draw_shape-Drawn_example =
    ui_pane_draw_shape-Drawn one_pane (root_pane ∷ []) (codes "root") (λ c. rendering_fill c white)
      fill-Draws one_pane-Represents one_pane-WellFormed
