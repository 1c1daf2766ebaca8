-- ===== src/Drm/Screen/Shows.antt =====
-- What `drm_rendering_show` of display/rendering/drm/drm.c puts on the screen.
use ttds.Prelude.{
  ℕ, ◌-◌, ◌<◌, ◌≡◌, ◌≢◌, sym, refl, ap, inl, inr, arith, ◌==◌, List, [], ◌∷◌, if◌then◌else◌,
}
use ttds.Prelude.Run.{done}
use ttds.Canvas.{Canvas, Buffer, store, within}
use ttds.Drm.Setup.{FrameBuffer, RenderingCtx}
use ttds.Drm.Screen.{
  xor_1, buf_at, put_memory, copy_to, Flip, flipped, busy, failed, page_flip, drm_rendering_show,
}
use ttds.Drm.Screen.Fits.{IsScreen, Holds, Fits, front_of, back_of}

-- The card flips after it was busy for a while.
abbrev pub Flips : List Flip → Type 0
Flips [] = ⊥
Flips (flipped ∷ flips) = Unit {0}
Flips (busy ∷ flips) = Flips flips
Flips (failed ∷ flips) = ⊥

page_flip-Flips : (flips : List Flip) → Flips flips → page_flip flips ≡ done tt
unfolding page_flip
page_flip-Flips [] h = elim h [ ]
page_flip-Flips (flipped ∷ flips) h = refl
page_flip-Flips (busy ∷ flips) h = page_flip-Flips flips h
page_flip-Flips (failed ∷ flips) h = elim h [ ]

-- The canvas is in front and what was in front is behind, unchanged; the identifiers and sizes of
-- the two buffers stay with them.
pub record Flipped (size : ℕ) (ctx : RenderingCtx) (c : Canvas) (out : RenderingCtx) : Type 0 where
  pub front : (q : ℕ) → q < size → (front_of out).memory.byte q ≡ c.buffer.byte q
  pub front_id : (front_of out).id ≡ (back_of ctx).id
  pub back : back_of out ≡ front_of ctx
  pub other_index : out.front_buf_idx ≢ ctx.front_buf_idx
  pub mode : out.mode ≡ ctx.mode

-- The memory of a buffer after the bytes of a canvas are copy_to into it.
abbrev shown : ℕ → Canvas → FrameBuffer → Buffer
shown size c buf = record buf.memory {
  byte = λ q. within 0 size q (c.buffer.byte (q - 0)) (buf.memory.byte q);
}

copy_to-eq :
    {stride size : ℕ} (back : FrameBuffer) (c : Canvas)
    → Holds stride size back
    → c.buffer.size ≡ size
    → copy_to back c ≡ done (shown size c back)
unfolding copy_to store
copy_to-eq back c (stride_is, size_is, whole) fits = ground arith

shown-byte :
    (size : ℕ) (c : Canvas) (buf : FrameBuffer) (q : ℕ)
    → q < size
    → (shown size c buf).byte q ≡ c.buffer.byte q
shown-byte size c buf q h = ground arith

show_eq :
    (ctx : RenderingCtx) (c : Canvas) (flips : List Flip) (idx : ℕ) (back : FrameBuffer)
    (memory : Buffer)
    → xor_1 ctx.front_buf_idx ≡ idx
    → buf_at ctx idx ≡ done back
    → copy_to back c ≡ done memory
    → Flips flips
    → drm_rendering_show flips ctx c
      ≡ done (record (put_memory ctx idx memory) { front_buf_idx = idx })
unfolding drm_rendering_show
show_eq ctx c flips idx back memory other at copy answers =
    rw (other, at, copy, page_flip-Flips flips answers) refl

-- Bytes written to one of the buffers leave a screen, whichever is in front.
shown-IsScreen :
    {stride size : ℕ} (ctx : RenderingCtx) (c : Canvas)
    → IsScreen stride size ctx
    → IsScreen stride size
        (record (put_memory ctx 0 (shown size c ctx.buf_0)) { front_buf_idx = 0 })
      × IsScreen stride size
          (record (put_memory ctx 1 (shown size c ctx.buf_1)) { front_buf_idx = 1 })
shown-IsScreen ctx c v = (
  record {
    in_front = inl refl;
    holds_0 = v.holds_0;
    holds_1 = v.holds_1;
    width_fits = v.width_fits;
    height_fits = v.height_fits;
    row_fits = v.row_fits;
    rows_fit = v.rows_fit;
    offset_fits = v.offset_fits;
  },
  record {
    in_front = inr refl;
    holds_0 = v.holds_0;
    holds_1 = v.holds_1;
    width_fits = v.width_fits;
    height_fits = v.height_fits;
    row_fits = v.row_fits;
    rows_fit = v.rows_fit;
    offset_fits = v.offset_fits;
  },
)

pick_zero : (i : ℕ) (a b : FrameBuffer) → i ≡ 0 → (if i == 0 then a else b) ≡ a
pick_zero i a b e = ground arith

pick_one : (i : ℕ) (a b : FrameBuffer) → i ≡ 1 → (if i == 0 then a else b) ≡ b
pick_one i a b e = ground arith

-- On a screen, with a canvas that fits it and a card that flips in the end, showing returns: it writes
-- inside the back buffer alone, which comes to the front with the canvas in it, and the result is a
-- screen again, of the same shape.
pub drm_rendering_show-Flipped :
    {stride size : ℕ} (ctx : RenderingCtx) (c : Canvas) (flips : List Flip)
    → IsScreen stride size ctx
    → Fits stride size ctx c
    → Flips flips
    → (out : RenderingCtx) × (drm_rendering_show flips ctx c ≡ done out)
      × IsScreen stride size out
      × Flipped size ctx c out
unfolding buf_at
drm_rendering_show-Flipped {stride} {size} ctx c flips v f answers = elim v.in_front [
  | inl zero ↦ (
    record (put_memory ctx 1 (shown size c ctx.buf_1)) { front_buf_idx = 1 },
    show_eq ctx c flips 1 ctx.buf_1 (shown size c ctx.buf_1) (ap xor_1 zero) refl
        (copy_to-eq ctx.buf_1 c v.holds_1 f.size_is) answers,
    (shown-IsScreen ctx c v).1,
    record {
      front = shown-byte size c ctx.buf_1;
      front_id = ap (λ b. b.id) (sym (pick_zero ctx.front_buf_idx ctx.buf_1 ctx.buf_0 zero));
      back = sym (pick_zero ctx.front_buf_idx ctx.buf_0 ctx.buf_1 zero);
      other_index = λ e. omega arith;
      mode = refl;
    },
  )
  | inr one ↦ (
    record (put_memory ctx 0 (shown size c ctx.buf_0)) { front_buf_idx = 0 },
    show_eq ctx c flips 0 ctx.buf_0 (shown size c ctx.buf_0) (ap xor_1 one) refl
        (copy_to-eq ctx.buf_0 c v.holds_0 f.size_is) answers,
    (shown-IsScreen ctx c v).0,
    record {
      front = shown-byte size c ctx.buf_0;
      front_id = ap (λ b. b.id) (sym (pick_one ctx.front_buf_idx ctx.buf_1 ctx.buf_0 one));
      back = sym (pick_one ctx.front_buf_idx ctx.buf_0 ctx.buf_1 one);
      other_index = λ e. omega arith;
      mode = refl;
    },
  )
]
