-- ===== src/Util.antt =====
-- src/util.c.
pub mod ObjectPath
pub mod Name
pub mod Status
pub mod Trigger
