-- ===== src/VolumeGroup.antt =====
-- src/volumegroup.c.
pub mod State
pub mod Blocks
pub mod Update
pub mod Progress
pub mod Poll
pub mod Methods
pub mod References
