-- ===== src/Examples.antt =====
-- Concrete inputs: a volume group with its volumes and blocks, callers on the bus, and jobs.
pub mod Volumes
mod Updates
mod Service
pub mod Jobs
pub mod Calls
pub mod Devices
mod Bus
mod Reports
mod Ends
mod Classes
mod Groups
mod Callers
mod Listing
