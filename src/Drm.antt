-- ===== src/Drm.antt =====
-- The backend that draws on a screen, of display/rendering/drm/drm.c. `Setup` has the choice of the
-- card, the connector, the CRTC and the plane and the making of the two buffers; `Screen` has the
-- canvases and showing them. What libdrm and the kernel answer is an input. A call that ends in
-- `FATAL_ERR` is the fault `fatal`, and a read through a null pointer the fault `out_of_bounds`.
pub mod Setup
pub mod Screen
pub mod Tests
