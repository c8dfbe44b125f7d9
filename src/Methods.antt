-- ===== src/Methods.antt =====
-- The methods that clients call: src/volumegroup.c, src/logicalvolume.c and src/manager.c.
pub mod Waiting
pub mod Commands
pub mod Sizes
pub mod Wiping
pub mod Threads
pub mod Devices
pub mod Ends
