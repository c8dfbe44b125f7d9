-- ===== src/Job.antt =====
-- src/job.c, src/threadedjob.c and src/spawnedjob.c.
pub mod Base
pub mod Threaded
pub mod Spawned
