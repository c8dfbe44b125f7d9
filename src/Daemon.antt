-- ===== src/Daemon.antt =====
-- src/daemon.c.
pub mod Lifecycle
pub mod Bus
pub mod Clients
pub mod Reader
