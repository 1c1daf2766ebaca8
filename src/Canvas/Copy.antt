-- ===== src/Canvas/Copy.antt =====
-- `rendering_draw_rect_copy` of display/rendering/canvas.c: a copy between two places of one canvas
-- that may overlap, row by row by `memmove`.
pub mod Row
pub mod Overlap
pub mod Snapshot
use ttds.Prelude.{ℕ, zero, suc, ◌+◌, ◌*◌, Bool, true, false, ◌&&◌, leb, if◌then◌else◌}
use ttds.Prelude.Int.{ℤ, pos, pos_part, ◌+ℤ◌, ◌-ℤ◌, ltb_ℤ, leb_ℤ}
use ttds.Prelude.Run.{Run, done, spent, ◌>>=◌}
use ttds.Canvas.{Canvas, u16, u32, move}
use ttds.Canvas.Loop.{u16_rounds}

pub record RectCopy : Type 0 where
  pub dst_x : ℕ
  pub dst_y : ℕ
  pub src_x : ℕ
  pub src_y : ℕ
  pub w : ℕ
  pub h : ℕ

-- `min` on `intmax_t`.
unfoldable pub min_ℤ : ℤ → ℤ → ℤ
min_ℤ a b = if ltb_ℤ a b then a else b

-- `(int32_t)min(size, edge) - start`, where the edge is `start + len` in 32 bits.
unfoldable pub safe_side : ℕ → ℕ → ℕ → ℤ
unfolding min_ℤ ◌-ℤ◌
safe_side size start len = min_ℤ (pos size) (pos (u32 (start + len))) -ℤ pos start

-- `safe_width`, and `safe_height`.
unfoldable pub safe_len : ℕ → ℕ → ℕ → ℕ → ℤ
unfolding safe_side min_ℤ
safe_len size dst src len = min_ℤ (safe_side size dst len) (safe_side size src len)

-- The body of the loop, in row `dy` of the copy; `n` is `safe_width`.
unfoldable pub copy_row : RectCopy → ℕ → ℤ → Canvas → Run Canvas
copy_row rc n dy c =
    let src_row_y = u16 (pos_part (pos rc.src_y +ℤ dy)) in
    let dst_row_y = u16 (pos_part (pos rc.dst_y +ℤ dy)) in
    let src_idx = c.stride * src_row_y + rc.src_x * 4 in
    let dst_idx = c.stride * dst_row_y + rc.dst_x * 4 in
    move dst_idx src_idx (n * 4) c.buffer >>= λ b. done (record c { buffer = b })

-- The loop; it goes down the rows if `y_inc`, and up otherwise.
unfoldable pub copy_rows : ℕ → Bool → RectCopy → ℕ → ℤ → ℤ → Canvas → Run Canvas
copy_rows zero y_inc rc n safe_height dy c = spent
copy_rows (suc fuel) y_inc rc n safe_height dy c = elim (ltb_ℤ dy safe_height && leb_ℤ (pos 0) dy) [
  | true ↦
      copy_row rc n dy c
      >>= copy_rows fuel y_inc rc n safe_height (if y_inc then dy +ℤ pos 1 else dy -ℤ pos 1)
  | false ↦ done c
]

unfoldable pub rendering_draw_rect_copy : Canvas → RectCopy → Run Canvas
rendering_draw_rect_copy c rc =
    let y_inc = leb rc.dst_y rc.src_y in
    let safe_width = safe_len c.width rc.dst_x rc.src_x rc.w in
    let safe_height = safe_len c.height rc.dst_y rc.src_y rc.h in
    if leb_ℤ safe_width (pos 0)
    then done c
    else copy_rows u16_rounds y_inc rc (pos_part safe_width) safe_height
        (if y_inc then pos 0 else safe_height -ℤ pos 1) c
