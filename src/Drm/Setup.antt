-- ===== src/Drm/Setup.antt =====
-- `drm_rendering_init` of display/rendering/drm/drm.c and the functions that it calls. The objects of
-- libdrm are values with the fields that are read, so freeing them has no counterpart.
pub mod Chosen
pub mod Ready
use package.ttds.Prelude.{
  ℕ, ◌+◌, Bool, true, false, ◌&&◌, List, [], ◌∷◌, Option, none, some, ltb, ◌==◌, if◌then◌else◌,
}
use package.ttds.Prelude.Text.{Bytes, codes, equal}
use package.ttds.Prelude.First.{find_first}
use package.ttds.Prelude.Run.{Run, done, fault, fatal, out_of_bounds, ◌>>=◌}
use package.ttds.Canvas.{Buffer}

-- `drmModeModeInfo`, `drmModeConnector`, `drmModeCrtc` and `drmModePlane`.
pub record Mode : Type 0 where
  pub hdisplay : ℕ
  pub vdisplay : ℕ

pub record Connector : Type 0 where
  pub connection : ℕ
  pub count_modes : ℕ

pub record Crtc : Type 0 where
  pub crtc_id : ℕ
  pub mode_valid : ℕ
  pub mode : Mode

pub record Plane : Type 0 where
  pub plane_id : ℕ
  pub crtc_id : ℕ

-- `drmModeRes`.
pub record Resources : Type 0 where
  pub connectors : List ℕ
  pub crtcs : List ℕ

-- What `DRM_IOCTL_MODE_CREATE_DUMB` fills in.
pub record Dumb : Type 0 where
  pub handle : ℕ
  pub pitch : ℕ
  pub size : ℕ

-- What `mmap` gives: the bytes of the frame buffer, null, or `MAP_FAILED`.
pub data Mapping : Type 0 where
  mapped : (ℕ → ℕ) → Mapping
  null map_failed : Mapping

-- What the card answers. A property is its name, or null, and its value.
pub record Card : Type 0 where
  pub dir : Option (List Bytes)
  pub card_open : Bytes → Option ℕ
  pub dumb_buffers : Option ℕ
  pub universal_planes_ok : Bool
  pub resources : Option Resources
  pub connector : ℕ → Option Connector
  pub crtc : ℕ → Option Crtc
  pub planes : Option (List ℕ)
  pub plane : ℕ → Option Plane
  pub properties : ℕ → Option (List (Option Bytes × ℕ))
  pub create_dumb : ℕ → ℕ → ℕ → Option Dumb
  pub add_fb : ℕ → Option ℕ
  pub map_dumb_ok : ℕ → Bool
  pub mmap : ℕ → Mapping

-- `struct buffer`. The memory behind an invalid pointer has the size 0.
pub record FrameBuffer : Type 0 where
  pub id : ℕ
  pub stride : ℕ
  pub size : ℕ
  pub memory : Buffer

-- `struct rendering_ctx`, with the array of the two buffers as two fields.
pub record RenderingCtx : Type 0 where
  pub card_fd : ℕ
  pub res : Resources
  pub conn : Connector
  pub crtc : Crtc
  pub mode : Mode
  pub plane : Plane
  pub front_buf_idx : ℕ
  pub buf_0 : FrameBuffer
  pub buf_1 : FrameBuffer

-- `strncmp(name, prefix, strlen(prefix)) == 0`.
unfoldable pub begins_with : Bytes → Bytes → Bool
begins_with [] name = true
begins_with (c ∷ prefix) [] = false
begins_with (c ∷ prefix) (d ∷ name) = begins_with prefix name && c == d

unfoldable pub find_card : Card → Run ℕ
unfolding find_first begins_with
find_card card = elim card.dir [
  | none ↦ fault fatal
  | some names ↦ elim (find_first (begins_with (codes "card")) names) [
    | none ↦ fault fatal
    | some name ↦ elim (card.card_open name) [ none ↦ fault fatal | some fd ↦ done fd ]
  ]
]

unfoldable pub require_dumb_buffers : Card → Run (Unit {0})
require_dumb_buffers card = elim card.dumb_buffers [
  | none ↦ fault fatal
  | some supported ↦ if supported == 0 then fault fatal else done tt
]

unfoldable pub require_universal_planes : Card → Run (Unit {0})
require_universal_planes card = if card.universal_planes_ok then done tt else fault fatal

unfoldable pub init_card : Card → Run ℕ
unfolding find_card require_dumb_buffers require_universal_planes
init_card card = find_card card >>= λ card_fd.
    require_dumb_buffers card >>= λ _. require_universal_planes card >>= λ _. done card_fd

unfoldable pub init_res : Card → Run Resources
init_res card = elim card.resources [ none ↦ fault fatal | some res ↦ done res ]

-- `DRM_MODE_CONNECTED`.
abbrev pub drm_mode_connected : ℕ
drm_mode_connected = 1

-- The loop of `init_conn`, over the connectors that are left.
unfoldable pub init_conn : Card → List ℕ → Run Connector
init_conn card [] = fault fatal
init_conn card (conn_id ∷ ids) =
    let rest = init_conn card ids in
    elim (card.connector conn_id) [
      | none ↦ fault fatal
      | some conn ↦
          if conn.connection == drm_mode_connected && ltb 0 conn.count_modes
          then done conn
          else rest
    ]

-- The loop of `init_crtc`, over the CRTCs that are left.
unfoldable pub init_crtc : Card → List ℕ → Run Crtc
init_crtc card [] = fault fatal
init_crtc card (crtc_id ∷ ids) =
    let rest = init_crtc card ids in
    elim (card.crtc crtc_id) [
      | none ↦ fault fatal
      | some crtc ↦ if crtc.mode_valid == 0 then rest else done crtc
    ]

unfoldable pub init_mode : Crtc → Mode
init_mode crtc = crtc.mode

-- `DRM_PLANE_TYPE_PRIMARY`.
abbrev pub drm_plane_type_primary : ℕ
drm_plane_type_primary = 1

-- The loop of `is_primary_plane`, over the properties that are left.
unfoldable pub find_type : List (Option Bytes × ℕ) → Run Bool
unfolding equal
find_type [] = fault fatal
find_type ((none, val) ∷ props) = fault out_of_bounds
find_type ((some name, val) ∷ props) =
    let rest = find_type props in
    if equal name (codes "type") then done (val == drm_plane_type_primary) else rest

unfoldable pub is_primary_plane : Card → ℕ → Run Bool
unfolding find_type
is_primary_plane card plane_id = elim (card.properties plane_id) [
  | none ↦ fault fatal
  | some props ↦ find_type props
]

-- The loop of `init_plane`, over the planes that are left.
unfoldable pub plane_loop : Card → Crtc → List ℕ → Run Plane
unfolding is_primary_plane
plane_loop card crtc [] = fault fatal
plane_loop card crtc (plane_id ∷ ids) =
    let rest = plane_loop card crtc ids in
    elim (card.plane plane_id) [
      | none ↦ fault out_of_bounds
      | some plane ↦
          if plane.crtc_id == crtc.crtc_id
          then (is_primary_plane card plane_id >>= λ primary. if primary then done plane else rest)
          else rest
    ]

unfoldable pub init_plane : Card → Crtc → Run Plane
unfolding plane_loop
init_plane card crtc = elim card.planes [
  | none ↦ fault out_of_bounds
  | some ids ↦ plane_loop card crtc ids
]

-- The test for null lets `MAP_FAILED` pass.
unfoldable pub map_buffer : Mapping → ℕ → Run Buffer
map_buffer (mapped byte) size = done (record { size = size; byte = byte })
map_buffer null size = fault fatal
map_buffer map_failed size = done (record { size = 0; byte = λ _. 0 })

-- `init_buf` for the buffer `idx`.
unfoldable pub init_buf : Card → Mode → ℕ → Run FrameBuffer
unfolding map_buffer
init_buf card mode idx = elim (card.create_dumb idx mode.hdisplay mode.vdisplay) [
  | none ↦ fault fatal
  | some dumb ↦ elim (card.add_fb dumb.handle) [
    | none ↦ fault fatal
    | some id ↦
        if card.map_dumb_ok dumb.handle
        then (map_buffer (card.mmap dumb.handle) dumb.size >>= λ memory.
            done (record { id = id; stride = dumb.pitch; size = dumb.size; memory = memory }))
        else fault fatal
  ]
]

-- The flag says whether there is memory for the context.
unfoldable pub drm_rendering_init : Bool → Card → Run RenderingCtx
unfolding init_card init_res init_conn init_crtc init_mode init_plane init_buf
drm_rendering_init memory card =
    if memory
    then (init_card card >>= λ card_fd. init_res card >>= λ res.
        init_conn card res.connectors >>= λ conn. init_crtc card res.crtcs >>= λ crtc.
        init_plane card crtc >>= λ plane. init_buf card (init_mode crtc) 0 >>= λ buf_0.
        init_buf card (init_mode crtc) 1 >>= λ buf_1. done (record {
          card_fd = card_fd;
          res = res;
          conn = conn;
          crtc = crtc;
          mode = init_mode crtc;
          plane = plane;
          front_buf_idx = 0;
          buf_0 = buf_0;
          buf_1 = buf_1;
        }))
    else fault out_of_bounds
