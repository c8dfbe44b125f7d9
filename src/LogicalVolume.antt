-- ===== src/LogicalVolume.antt =====
-- src/logicalvolume.c.
pub mod State
pub mod Update
pub mod Methods
