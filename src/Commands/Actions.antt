-- ===== src/Commands/Actions.antt =====
-- The actions of display/threads/commands.c, on the state that they change:
-- the panes, the files that `SAVE` writes, and whether `TERMINATE` has sent SIGINT.
use ttds.Prelude.{
  ℕ, Bool, true, List, [], ◌∷◌, Option, none, some, inl, inr, if◌then◌else◌, ltb, ◌-◌, ◌^◌,
}
use ttds.Prelude.Int.{ℤ, pos, negsuc}
use ttds.Prelude.Text.{Bytes, codes}
use ttds.Prelude.Run.{Run, done, ◌>>=◌}
use ttds.Canvas.{Canvas}
use ttds.Canvas.Rect.{rendering_draw_rect}
use ttds.Canvas.Circle.{rendering_draw_circle}
use ttds.Canvas.Line.{rendering_draw_line}
use ttds.Canvas.Copy.{rendering_draw_rect_copy}
use ttds.Canvas.Triangle.{rendering_draw_triangle}
use ttds.Canvas.Bezier.{FloatOps, rendering_draw_bezier2}
use ttds.Canvas.Dump.{rendering_dump_bgra_to_rgba}
use ttds.Panes.{
  Storage, Failure, ui_ok, ui_no_such_pane, lookup_pane_thread_unsafe, pane_at, ui_pane_create,
  ui_pane_count, ui_pane_remove, ui_pane_draw_shape,
}
use ttds.Commands.{Argv}
use ttds.Commands.Values.{
  color, number, text, Reply, failed, terminating, pane_count, parse_args, low_bits,
}

pub record Display : Type 0 where
  pub storage : Storage
  pub files : List (Bytes × Canvas)
  pub interrupted : Bool

-- What the environment of one command gives: whether there is memory for its arguments and for
-- messages, whether `strdup` returns memory, what the backend's
-- `canvas_init` returns, whether the system calls of `SAVE` succeed, the operations on `float`, and
-- fuel for the loop of `BEZIER2`.
pub record World : Type 1 where
  pub memory_ok : Bool
  pub strdup_ok : Bool
  pub canvas : Option Canvas
  pub files_ok : Bool
  pub floats : FloatOps
  pub fuel : ℕ

-- `ui_pane_save` of display/threads/ui.c, which gives the file's contents as a canvas.
unfoldable pub ui_pane_save : Bool → Storage → Bytes → Run (Failure × Option Canvas)
ui_pane_save files_ok st name = lookup_pane_thread_unsafe st name >>= λ found. elim found [
  | none ↦ done (ui_no_such_pane, none)
  | some i ↦ pane_at st i >>= λ p.
      rendering_dump_bgra_to_rgba files_ok p.canvas >>= λ file. done (ui_ok, some file)
]

-- The answer of an action: null, or a message.
abbrev pub Answer : Type 0
Answer = Option Reply × Display

abbrev pub report : Bytes → Failure → Option Reply
report act ui_ok = none
report act r = some (failed act r)

-- A `long` in a field of type `int32_t`.
abbrev pub to_i32 : ℤ → ℤ
to_i32 z = let n = low_bits 32 z in if ltb n (2 ^ 31) then pos n else negsuc (2 ^ 32 - 1 - n)

-- The end of the actions that draw.
abbrev pub drawing : Display → Bytes → Bytes → (Canvas → Run Canvas) → Run Answer
drawing u act target inner = ui_pane_draw_shape u.storage target inner >>= λ r.
    done (report act r.0, record u { storage = r.1 })

-- A hook: the state, the target, `argc` and `argv`.
abbrev pub Act : Type 0
Act = Display → Bytes → ℕ → Argv → Run Answer

unfoldable pub act_create : World → Act
act_create w u target argc argv = parse_args w.memory_ok (color ∷ []) argc argv >>= λ parsed.
    elim parsed [
      | inl reply ↦ done (some reply, u)
      | inr (fill, _) ↦ ui_pane_create w.strdup_ok w.canvas target fill u.storage >>= λ r.
          done (report (codes "act_create") r.0, record u { storage = r.1 })
    ]

unfoldable pub act_remove : World → Act
act_remove w u target argc argv = parse_args w.memory_ok [] argc argv >>= λ parsed. elim parsed [
  | inl reply ↦ done (some reply, u)
  | inr _ ↦ ui_pane_remove u.storage target >>= λ r.
      done (report (codes "act_remove") r.0, record u { storage = r.1 })
]

unfoldable pub act_rect : World → Act
act_rect w u target argc argv =
    parse_args w.memory_ok (color ∷ number ∷ number ∷ number ∷ number ∷ []) argc argv >>= λ parsed.
    elim parsed [
      | inl reply ↦ done (some reply, u)
      | inr (c, (x, (y, (w, (h, _))))) ↦ drawing u (codes "act_rect") target λ canvas.
          rendering_draw_rect canvas (record {
            x = low_bits 16 x;
            y = low_bits 16 y;
            w = low_bits 16 w;
            h = low_bits 16 h;
            c = c;
          })
    ]

unfoldable pub act_circle : World → Act
act_circle w u target argc argv =
    parse_args w.memory_ok (color ∷ number ∷ number ∷ number ∷ []) argc argv >>= λ parsed.
    elim parsed [
      | inl reply ↦ done (some reply, u)
      | inr (c, (x, (y, (rad, _)))) ↦ drawing u (codes "act_circle") target λ canvas.
          rendering_draw_circle canvas
            (record { x = low_bits 16 x; y = low_bits 16 y; r = low_bits 16 rad; c = c })
    ]

unfoldable pub act_line : World → Act
act_line w u target argc argv =
    parse_args w.memory_ok (color ∷ number ∷ number ∷ number ∷ number ∷ []) argc argv >>= λ parsed.
    elim parsed [
      | inl reply ↦ done (some reply, u)
      | inr (c, (x0, (y0, (x1, (y1, _))))) ↦ drawing u (codes "act_line") target λ canvas.
          rendering_draw_line canvas (record {
            x0 = low_bits 16 x0;
            y0 = low_bits 16 y0;
            x1 = low_bits 16 x1;
            y1 = low_bits 16 y1;
            c = c;
          })
    ]

unfoldable pub act_copy_rect : World → Act
act_copy_rect w u target argc argv =
    parse_args w.memory_ok (number ∷ number ∷ number ∷ number ∷ number ∷ number ∷ []) argc argv
    >>= λ parsed. elim parsed [
      | inl reply ↦ done (some reply, u)
      | inr (dst_x, (dst_y, (src_x, (src_y, (w, (h, _)))))) ↦
          drawing u (codes "act_copy_rect") target λ canvas.
            rendering_draw_rect_copy canvas (record {
              dst_x = low_bits 16 dst_x;
              dst_y = low_bits 16 dst_y;
              src_x = low_bits 16 src_x;
              src_y = low_bits 16 src_y;
              w = low_bits 16 w;
              h = low_bits 16 h;
            })
    ]

unfoldable pub act_bezier2 : World → Act
act_bezier2 w u target argc argv =
    parse_args w.memory_ok (color ∷ number ∷ number ∷ number ∷ number ∷ number ∷ number ∷ []) argc
      argv
    >>= λ parsed. elim parsed [
      | inl reply ↦ done (some reply, u)
      | inr (c, (x0, (y0, (x1, (y1, (x2, (y2, _))))))) ↦
          drawing u (codes "act_bezier2") target λ canvas.
            rendering_draw_bezier2 w.floats w.fuel canvas (record {
              x0 = to_i32 x0;
              y0 = to_i32 y0;
              x1 = to_i32 x1;
              y1 = to_i32 y1;
              x2 = to_i32 x2;
              y2 = to_i32 y2;
              c = c;
            })
    ]

unfoldable pub act_triangle : World → Act
act_triangle w u target argc argv =
    parse_args w.memory_ok (color ∷ number ∷ number ∷ number ∷ number ∷ number ∷ number ∷ []) argc
      argv
    >>= λ parsed. elim parsed [
      | inl reply ↦ done (some reply, u)
      | inr (c, (x0, (y0, (x1, (y1, (x2, (y2, _))))))) ↦
          drawing u (codes "act_triangle") target λ canvas. rendering_draw_triangle canvas (record {
            x0 = low_bits 16 x0;
            y0 = low_bits 16 y0;
            x1 = low_bits 16 x1;
            y1 = low_bits 16 y1;
            x2 = low_bits 16 x2;
            y2 = low_bits 16 y2;
            c = c;
          })
    ]

unfoldable pub act_term : Act
act_term u target argc argv = done (some terminating, record u { interrupted = true })

abbrev pub add_file : Bytes → Option Canvas → Display → Display
add_file path none u = u
add_file path (some file) u = record u { files = (path, file) ∷ u.files }

unfoldable pub act_save : World → Act
act_save w u target argc argv = parse_args w.memory_ok (text ∷ text ∷ []) argc argv >>= λ parsed.
    elim parsed [
      | inl reply ↦ done (some reply, u)
      | inr (name, (path, _)) ↦ ui_pane_save w.files_ok u.storage name >>= λ r.
          done (report (codes "act_save") r.0, add_file path r.1 u)
    ]

unfoldable pub act_count : World → Act
act_count w u target argc argv = parse_args w.memory_ok [] argc argv >>= λ parsed. elim parsed [
  | inl reply ↦ done (some reply, u)
  | inr _ ↦ done (some (pane_count (ui_pane_count u.storage)), u)
]
