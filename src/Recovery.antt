-- ===== src/Recovery.antt =====
-- apps/api/src/testops/api/reliability_services.py: the sweep that ends Runs past their deadline,
-- Runs of a lost worker and dispatched Runs that nobody claimed, and frees orphaned leases.
pub mod Recover
pub mod Select
pub mod Sweep
pub mod Counts
pub mod Blocked
pub mod Ended
pub mod Deadlines
pub mod Samples
