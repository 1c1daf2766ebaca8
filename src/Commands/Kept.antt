-- ===== src/Commands/Kept.antt =====
-- The panes before and after the actions of display/threads/commands.c, and the arguments that the
-- actions read.
pub mod Shapes
pub mod Acts
pub mod Served
use ttds.Prelude.{
  ℕ, ◌≡◌, ◌≢◌, Bool, true, false, List, [], ◌∷◌, Option, none, some, ◌⊎◌, inl, inr, ◌==◌, not,
  arith, refl, sym, subst, ◌<◌, ◌∙◌, Bool-cases, Option-cases,
}
use ttds.Prelude.Int.{ℤ, pos, negsuc}
use ttds.Prelude.Text.{Bytes, codes, length}
use ttds.Prelude.Run.{Run, done, ◌>>=◌}
use ttds.Canvas.{Color, Canvas}
use ttds.Canvas.Texel.{IsValid, SameShape}
use ttds.Canvas.Rect.{rendering_draw_rect, rendering_draw_rect-Paints}
use ttds.Canvas.Circle.Box.{rendering_draw_circle-Within}
use ttds.Canvas.Line.Walk.{rendering_draw_line-Paints}
use ttds.Canvas.Copy.Snapshot.{rendering_draw_rect_copy-Becomes}
use ttds.Canvas.Triangle.Fill.{rendering_draw_triangle-Paints}
use ttds.Canvas.Dump.{rendering_dump-Paints}
use ttds.Panes.{Pane, Storage, Failure}
use ttds.Panes.Registry.{find, Represents, WellFormed}
use ttds.Panes.Lookup.{lookup-find}
use ttds.Panes.Create.{Allocates, ui_pane_create-Created}
use ttds.Panes.Remove.{ui_pane_remove-Removed}
use ttds.Panes.Draw.{
  Draws, KeepsShape, ui_pane_draw_shape-Drawn, find_from-StandsAt, StandsAt-IsValid,
}
use ttds.Panes.Canvases.{Canvases, Canvases-set, Canvases-StandsAt}
use ttds.Commands.{as_argv}
use ttds.Commands.Values.{
  Kind, Value, Reply, wrong_count, expected, Values, read_argv, parse_value, parse_each, parse_args,
  low_bits,
}
use ttds.Commands.Actions.{
  Display, World, Answer, report, drawing, ui_pane_save, act_create, act_remove, act_rect,
  act_circle, act_line, act_copy_rect, act_triangle, act_term, act_save, act_count,
}

-- The panes of the display are a well-formed list, and their canvases have the property.
pub record SoundFor (Fits : Canvas → Type 0) (u : Display) : Type 0 where
  pub panes : List Pane
  pub represents : Represents u.storage panes
  pub well_formed : WellFormed panes
  pub fit : Canvases Fits panes

-- Nothing more of the canvases.
abbrev pub Anything : Canvas → Type 0
Anything c = Unit {0}

-- The panes of the display are a well-formed list.
abbrev pub Sound : Display → Type 0
Sound u = SoundFor Anything u

-- The action returns an answer, and the panes are sound.
pub record Kept (Fits : Canvas → Type 0) (r : Run Answer) : Type 0 where
  pub reply : Option Reply
  pub out : Display
  pub returns : r ≡ done (reply, out)
  pub sound : SoundFor Fits out

parse_each-returns :
    (ks : List Kind) (ws : List Bytes)
    → length ws ≡ length ks
    → (v : Reply ⊎ Values ks) × (parse_each ks ws ≡ done v)
unfolding parse_each
parse_each-returns [] ws e = (inr tt, refl)
parse_each-returns (k ∷ ks) [] e = absurd (omega arith)
parse_each-returns (k ∷ ks) (w ∷ ws) e = elim (Option-cases (parse_value k w)) [
  | inl bad ↦ (inl (expected k w), rw (parse_each, bad) refl)
  | inr (v, good) ↦
      let (r, returns) = parse_each-returns ks ws (omega arith) in
      rw (parse_each, good, returns) (joined k ks v r)
]
  where
    joined :
        (k : Kind) (ks : List Kind) (v : Value k) (r : Reply ⊎ Values ks)
        → (x : Reply ⊎ Values (k ∷ ks)) × ◌≡◌ {A = Run (Reply ⊎ Values (k ∷ ks))}
            (elim r [ inl reply ↦ done (inl reply) | inr vs ↦ done (inr (v, vs)) ])
            (done x)
    joined k ks v (inl reply) = (inl reply, refl)
    joined k ks v (inr vs) = (inr (v, vs), refl)

read_argv-returns :
    (ks : List Kind) (ws : List Bytes)
    → length ws ≡ length ks
    → (v : Reply ⊎ Values ks) × (read_argv ks (as_argv ws) ≡ done v)
read_argv-returns [] ws e = (inr tt, refl)
read_argv-returns (k ∷ ks) [] e = absurd (omega arith)
read_argv-returns (k ∷ ks) (w ∷ ws) e = parse_each-returns (k ∷ ks) (w ∷ ws) e

parse_args-returns :
    (ks : List Kind) (ws : List Bytes)
    → (v : Reply ⊎ Values ks) × (parse_args true ks (length ws) (as_argv ws) ≡ done v)
unfolding parse_args
parse_args-returns ks ws = elim (Bool-cases (length ws == length ks)) [
  | inl same ↦ rw same (read_argv-returns ks ws (ground arith))
  | inr other ↦ (inl (wrong_count (length ws) (length ks)), rw other refl)
]

module _ {Fits : Canvas → Type 0} where
  pub Kept-same :
      (u : Display) (reply : Option Reply) → SoundFor Fits u → Kept Fits (done (reply, u))
  Kept-same u reply s = record { reply = reply; out = u; returns = refl; sound = s }

  -- An action that parses its arguments first.
  pub Kept-parsed :
      (memory : Bool)
      → memory ≡ true
      → (u : Display) (ks : List Kind) (ws : List Bytes) (f : Values ks → Run Answer)
      → SoundFor Fits u
      → ((v : Values ks) → Kept Fits (f v))
      → Kept Fits (
          parse_args memory ks (length ws) (as_argv ws) >>= λ parsed. elim parsed [
            | inl reply ↦ done (some reply, u)
            | inr v ↦ f v
          ])
  Kept-parsed memory ok u ks ws f s kept =
      let (v, e) = parse_args-returns ks ws in rw (ok, e) (after v)
    where
      after :
          (v : Reply ⊎ Values ks)
          → Kept Fits (elim v [ inl reply ↦ done (some reply, u) | inr v ↦ f v ])
      after (inl reply) = Kept-same u (some reply) s
      after (inr v) = kept v

  -- The property depends on the shape of a canvas alone.
  pub drawing-Kept :
      (u : Display) (act target : Bytes) (inner : Canvas → Run Canvas)
      → ((c d : Canvas) → Fits c → SameShape c d → Fits d)
      → SoundFor Fits u
      → KeepsShape inner
      → Kept Fits (drawing u act target inner)
  drawing-Kept u act target inner shaped s keeps =
      let d =
        ui_pane_draw_shape-Drawn u.storage s.panes target inner keeps.0 s.represents
          s.well_formed in
      elim d.answers [
        | inl (missing, returns, same) ↦ rw returns (Kept-same u _ s)
        | inr (i, p, c, found, runs, returns, changed) ↦
            let (j, place, at) = find_from-StandsAt s.panes 0 target i p found in
            let shape = keeps.1 p.canvas c (StandsAt-IsValid at s.well_formed) runs in
            rw returns (
              Kept-same (record u { storage = d.out }) _
                (record {
                  panes = d.panes;
                  represents = d.represents;
                  well_formed = d.well_formed;
                  fit = subst (Canvases Fits) (sym changed) (
                      Canvases-set Fits s.panes i (record p { canvas = c }) s.fit
                        (shaped p.canvas c (Canvases-StandsAt Fits at s.fit) shape));
                }))
      ]
