-- ===== src/Panes/Start.antt =====
-- The panes that `ui_ctx_new` of display/threads/ui.c starts with.
use ttds.Prelude.{◌≡◌, refl, true, some, [], ◌∷◌, arith}
use ttds.Prelude.Text.{codes}
use ttds.Prelude.Run.{Run, done}
use ttds.Canvas.{Color, Canvas}
use ttds.Canvas.Texel.{IsValid}
use ttds.Canvas.Rect.{rendering_fill-Paints}
use ttds.Panes.{Pane, Storage, ui_ctx_new}
use ttds.Panes.Registry.{Represents, WellFormed}
use ttds.Panes.Create.{IsFilled}

-- The result holds one pane, which is named `root` and has a canvas of the one colour.
pub record Started (r : Run Storage) : Type 0 where
  pub out : Storage
  pub pane : Pane
  pub returns : r ≡ done out
  pub represents : Represents out (pane ∷ [])
  pub well_formed : WellFormed (pane ∷ [])
  pub named : pane.name ≡ codes "root"
  pub filled : IsFilled (record { r = 0x3A; g = 0x22; b = 0xBD }) pane.canvas

-- If memory is at hand and the backend's canvas may be drawn on, `ui_ctx_new` starts with a storage
-- that represents a well-formed list of one pane: `root`, filled with the background colour.
pub ui_ctx_new-Started : (c : Canvas) → IsValid c → Started (ui_ctx_new true (some c))
unfolding ui_ctx_new
ui_ctx_new-Started c v =
    let background : Color = record { r = 0x3A; g = 0x22; b = 0xBD } in
    let fill = rendering_fill-Paints c background v in
    let p : Pane = record { name = codes "root"; canvas = fill.out } in
    rw fill.returns (record {
      out = _;
      pane = p;
      returns = refl;
      represents = record { counted = refl; bounded = omega arith; held = (refl, tt) };
      well_formed = (tt, fill.valid, tt);
      named = refl;
      filled = λ x y k hx hy hk.
          fill.pixels x y k (rw fill.shape.width_same at hx) (rw fill.shape.height_same at hy) hk;
    })
