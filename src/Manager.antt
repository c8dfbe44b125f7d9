-- ===== src/Manager.antt =====
-- src/manager.c.
pub mod State
pub mod Blocks
pub mod Update
