-- ===== src/Commands/Kept/Acts.antt =====
-- The panes before and after each action of display/threads/commands.c but `BEZIER2`: whether its
-- loop ends depends on the rounding of `float`.
use ttds.Prelude.{ℕ, sym, subst, ◌<◌, ◌≡◌, true, List, inl, inr, some, Option-cases, arith}
use ttds.Prelude.Text.{Bytes, codes, length}
use ttds.Prelude.Run.{done, ◌>>=◌}
use ttds.Canvas.{Canvas}
use ttds.Canvas.Texel.{IsValid, SameShape}
use ttds.Panes.Canvases.{Canvases, Canvases-append, Canvases-remove}
use ttds.Canvas.Dump.{rendering_dump-Paints}
use ttds.Panes.{Pane, owned}
use ttds.Panes.Draw.{find_from-StandsAt, StandsAt-IsValid}
use ttds.Panes.Registry.{find}
use ttds.Panes.Lookup.{lookup-find, find_from_found, pane_at-owned}
use ttds.Panes.Create.{Allocates, create_outcome, Failure-cases, ui_pane_create-Created}
use ttds.Panes.Remove.{ui_pane_remove-Removed}
use ttds.Commands.{as_argv}
use ttds.Commands.Actions.{
  Display, World, report, add_file, ui_pane_save, act_create, act_remove, act_rect, act_circle,
  act_line, act_copy_rect, act_triangle, act_term, act_save, act_count,
}
use ttds.Commands.Kept.{SoundFor, Kept, Kept-same, Kept-parsed, drawing-Kept}
use ttds.Commands.Kept.Shapes.{
  rect-KeepsShape, circle-KeepsShape, line-KeepsShape, copy-KeepsShape, triangle-KeepsShape,
}

-- A pane that the list has, in its slot.
found_pane :
    {Fits : Canvas → Type 0} (u : Display) (s : SoundFor Fits u) (name : Bytes) (i : ℕ) (p : Pane)
    → find name s.panes ≡ some (i, p)
    → (u.storage.slots i ≡ owned p) × IsValid p.canvas × (i < 1024)
found_pane u s name i p e =
    let (slot, named, low, high) =
      find_from_found s.panes 0 name u.storage.slots i p s.represents.held e in
    let (d, at_d, at) = find_from-StandsAt s.panes 0 name i p e in
    (slot, StandsAt-IsValid at s.well_formed, omega (arith, s.represents.bounded))

module _ (Fits : Canvas → Type 0) (shaped : (c d : Canvas) → Fits c → SameShape c d → Fits d)
    (w : World) (memory : w.memory_ok ≡ true) (u : Display) (target : Bytes) (ws : List Bytes)
    (s : SoundFor Fits u) where
  pub act_rect-Kept : Kept Fits (act_rect w u target (length ws) (as_argv ws))
  unfolding act_rect
  act_rect-Kept =
      Kept-parsed w.memory_ok memory u _ ws _ s
        λ v. drawing-Kept u (codes "act_rect") target _ shaped s (rect-KeepsShape _ _ _ _ _)

  pub act_circle-Kept : Kept Fits (act_circle w u target (length ws) (as_argv ws))
  unfolding act_circle
  act_circle-Kept =
      Kept-parsed w.memory_ok memory u _ ws _ s
        λ v. drawing-Kept u (codes "act_circle") target _ shaped s (circle-KeepsShape _ _ _ _)

  pub act_line-Kept : Kept Fits (act_line w u target (length ws) (as_argv ws))
  unfolding act_line
  act_line-Kept =
      Kept-parsed w.memory_ok memory u _ ws _ s
        λ v. drawing-Kept u (codes "act_line") target _ shaped s (line-KeepsShape _ _ _ _ _)

  pub act_copy_rect-Kept : Kept Fits (act_copy_rect w u target (length ws) (as_argv ws))
  unfolding act_copy_rect
  act_copy_rect-Kept =
      Kept-parsed w.memory_ok memory u _ ws _ s
        λ v. drawing-Kept u (codes "act_copy_rect") target _ shaped s (copy-KeepsShape _ _ _ _ _ _)

  pub act_triangle-Kept : Kept Fits (act_triangle w u target (length ws) (as_argv ws))
  unfolding act_triangle
  act_triangle-Kept = Kept-parsed w.memory_ok memory u _ ws _ s λ v.
      drawing-Kept u (codes "act_triangle") target _ shaped s (triangle-KeepsShape _ _ _ _ _ _ _)

  pub act_create-Kept :
      Allocates w.canvas
      → ((c : Canvas) → w.canvas ≡ some c → Fits c)
      → Kept Fits (act_create w u target (length ws) (as_argv ws))
  unfolding act_create
  act_create-Kept allocates fits = Kept-parsed w.memory_ok memory u _ ws _ s λ v.
      let r =
        ui_pane_create-Created w.strdup_ok w.canvas target v.0 u.storage s.panes allocates
          s.represents s.well_formed in
      let fit : Canvases Fits r.panes =
        elim (Failure-cases (create_outcome w.strdup_ok w.canvas target s.panes)) [
          | inl ok ↦
              let (q, longer, named, filled, (c, is, shape)) = r.added ok in
              subst (Canvases Fits) (sym longer)
                (Canvases-append Fits s.panes q s.fit (shaped c q.canvas (fits c is) shape))
          | inr failed ↦ subst (Canvases Fits) (sym (r.kept failed)) s.fit
        ] in
      rw r.returns (
        Kept-same (record u { storage = r.out }) _
          (record {
            panes = r.panes;
            represents = r.represents;
            well_formed = r.well_formed;
            fit = fit;
          }))

  pub act_remove-Kept : Kept Fits (act_remove w u target (length ws) (as_argv ws))
  unfolding act_remove
  act_remove-Kept = Kept-parsed w.memory_ok memory u _ ws _ s λ v.
      let r = ui_pane_remove-Removed u.storage s.panes target s.represents s.well_formed in
      rw r.returns (
        Kept-same (record u { storage = r.out }) _
          (record {
            panes = _;
            represents = r.represents;
            well_formed = r.well_formed;
            fit = Canvases-remove Fits s.panes target s.fit;
          }))

  pub act_count-Kept : Kept Fits (act_count w u target (length ws) (as_argv ws))
  unfolding act_count
  act_count-Kept = Kept-parsed w.memory_ok memory u _ ws _ s λ v. Kept-same u _ s

  pub act_term-Kept : Kept Fits (act_term u target (length ws) (as_argv ws))
  unfolding act_term
  act_term-Kept =
      Kept-same (record u { interrupted = true }) _
        (record {
          panes = s.panes;
          represents = s.represents;
          well_formed = s.well_formed;
          fit = s.fit;
        })

  pub act_save-Kept : w.files_ok ≡ true → Kept Fits (act_save w u target (length ws) (as_argv ws))
  unfolding act_save ui_pane_save
  act_save-Kept files = Kept-parsed w.memory_ok memory u _ ws _ s λ v. saved v.0 v.1.0
    where
      saved :
          (name path : Bytes)
          → Kept Fits (
              ui_pane_save w.files_ok u.storage name >>= λ r.
              done (report (codes "act_save") r.0, add_file path r.1 u))
      saved name path = elim (Option-cases (find name s.panes)) [
        | inl e ↦ rw (lookup-find u.storage s.panes name s.represents, e) (Kept-same u _ s)
        | inr ((i, p), e) ↦
            let (slot, valid, bound) = found_pane u s name i p e in
            let file = rendering_dump-Paints p.canvas valid in
            rw
              (
                lookup-find u.storage s.panes name s.represents,
                e,
                pane_at-owned u.storage i p bound slot,
                files,
                file.returns,
              )
              (Kept-same (add_file path (some file.out) u) _ (record {
                panes = s.panes;
                represents = s.represents;
                well_formed = s.well_formed;
                fit = s.fit;
              }))
      ]
