-- ===== src/Drm/Setup/Ready.antt =====
-- What `drm_rendering_init` of display/rendering/drm/drm.c makes of a card that works.
use ttds.Prelude.{ℕ, ◌≡◌, ◌≢◌, ◌⊎◌, true, List, ◌++◌, none, some}
use ttds.Prelude.Text.{Bytes, codes}
use ttds.Prelude.First.{First}
use ttds.Prelude.Run.{Run, done, fault, fatal}
use ttds.Drm.Setup.{Mode, Crtc, Resources, Dumb, mapped, Card, FrameBuffer, RenderingCtx}
use ttds.Drm.Setup.Chosen.{Has, Answered, IsUsable, HasMode, Typed, IsPrimary}

abbrev pub IsCard : Bytes → Type 0
IsCard name = (rest : Bytes) × (name ≡ codes "card" ++ rest)

-- What is made of a buffer of the size of the mode.
abbrev pub Makes : Card → ℕ → ℕ → ℕ → Type 0
Makes card idx width height =
    (dumb : Dumb) × (id : ℕ) × (byte : ℕ → ℕ) × (card.create_dumb idx width height ≡ some dumb)
    × (card.add_fb dumb.handle ≡ some id)
    × (card.map_dumb_ok dumb.handle ≡ true)
    × (card.mmap dumb.handle ≡ mapped byte)

-- The card answers every call; it may lack a connector, a CRTC or a plane that serves.
pub record Works (card : Card) : Type 0 where
  pub names : List Bytes
  pub listed : card.dir ≡ some names
  pub name : Bytes
  pub first : First IsCard names (some name)
  pub fd : ℕ
  pub opens : card.card_open name ≡ some fd
  pub supported : ℕ
  pub dumb : card.dumb_buffers ≡ some supported
  pub supports : supported ≢ 0
  pub universal : card.universal_planes_ok ≡ true
  pub res : Resources
  pub has_res : card.resources ≡ some res
  pub connectors : Answered card.connector res.connectors
  pub crtcs : Answered card.crtc res.crtcs
  pub plane_ids : List ℕ
  pub has_planes : card.planes ≡ some plane_ids
  pub planes : Answered card.plane plane_ids
  pub type_of : ℕ → ℕ
  pub typed : (id : ℕ) → Typed card id (type_of id)
  pub makes : (idx width height : ℕ) → Makes card idx width height

-- The frame buffer is the dumb buffer that the card made for the mode, and mapped as a whole.
abbrev pub Framed : Card → Mode → ℕ → FrameBuffer → Type 0
Framed card mode idx buf =
    (dumb : Dumb) × (card.create_dumb idx mode.hdisplay mode.vdisplay ≡ some dumb)
    × (buf.stride ≡ dumb.pitch)
    × (buf.size ≡ dumb.size)
    × (buf.memory.size ≡ dumb.size)

-- The context after a start: the first connector, CRTC and plane that serve, the mode of the CRTC,
-- and two frame buffers of that mode, of which the first is in front.
pub record Started (card : Card) (w : Works card) (ctx : RenderingCtx) : Type 0 where
  pub conn_id : ℕ
  pub conn_first : First (Has card.connector IsUsable) w.res.connectors (some conn_id)
  pub conn : card.connector conn_id ≡ some ctx.conn
  pub crtc_id : ℕ
  pub crtc_first : First (Has card.crtc HasMode) w.res.crtcs (some crtc_id)
  pub crtc : card.crtc crtc_id ≡ some ctx.crtc
  pub plane_id : ℕ
  pub plane_first :
      First (Has card.plane (IsPrimary w.type_of ctx.crtc)) w.plane_ids (some plane_id)
  pub plane : card.plane plane_id ≡ some ctx.plane
  pub mode : ctx.mode ≡ ctx.crtc.mode
  pub front : ctx.front_buf_idx ≡ 0
  pub framed_0 : Framed card ctx.mode 0 ctx.buf_0
  pub framed_1 : Framed card ctx.mode 1 ctx.buf_1

-- The other end: nothing serves as the connector, as the CRTC, or as the plane of the CRTC.
abbrev pub Lacks : (card : Card) → Works card → Type 0
Lacks card w =
    First (Has card.connector IsUsable) w.res.connectors none
    ⊎ (First (Has card.crtc HasMode) w.res.crtcs none
        ⊎ ((crtc : Crtc) × First (Has card.plane (IsPrimary w.type_of crtc)) w.plane_ids none))

pub data Outcome (card : Card) (w : Works card) (r : Run RenderingCtx) : Type 0 where
  ready : (ctx : RenderingCtx) → r ≡ done ctx → Started card w ctx → Outcome card w r
  stopped : r ≡ fault fatal → Lacks card w → Outcome card w r
