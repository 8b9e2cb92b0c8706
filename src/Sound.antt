-- ===== src/Sound.antt =====
-- The invariant of the control plane's store, over every operation on Runs: their creation, the
-- Runner's callbacks and events, results, cancellations, dispatch batches and recovery sweeps.
pub mod Invariant
pub mod Log
pub mod Writes
pub mod Callbacks
pub mod Untouched
pub mod Results
pub mod Cancel
pub mod Publish
pub mod Events
pub mod Recoveries
pub mod Sweeps
pub mod Kept
pub mod Follows
pub mod Queued
pub mod Moved
pub mod Finished
pub mod Operations
pub mod Courses
pub mod Samples
