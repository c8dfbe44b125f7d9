-- ===== src/Job/Spawned.antt =====
-- src/spawnedjob.c: a job that runs a program.
pub mod State
pub mod Events
pub mod Stdin
pub mod Completion
pub mod Message
pub mod Setup
