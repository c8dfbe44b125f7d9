-- ===== src/Properties.antt =====
-- The properties of the classes of src/*.c as GObject sees them: what class_init installs, and the
-- functions `set_property` and `get_property`, which agree with it class by class.
pub mod Values
pub mod Class
pub mod Daemon
pub mod Job
pub mod Spawned
pub mod Threaded
pub mod Group
pub mod Volume
pub mod Block
pub mod Agreement
pub mod Construction
