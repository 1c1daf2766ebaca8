-- ===== src/Input.antt =====
-- The thread of display/rendering/drm/input.c, which takes the keyboards and switches terminals.
-- `Sessions` has the sessions of the login manager, `Devices` the keyboards, `Keys` what their events
-- do, and `Thread` the loop and the whole thread. A failed call that ends in `FATAL_ERR` is the fault
-- `fatal`.
pub mod Sessions
pub mod Keys
pub mod Devices
pub mod Thread
mod Tests
