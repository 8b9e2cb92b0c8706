-- ===== src/Dispatch.antt =====
-- services/worker/src/testops/worker/outbox.py: the publisher of the transactional Outbox.
-- `Workers` has the tests on Runner workers, `Prepare` the admission of one Outbox row to a slot,
-- `Batch` the loop of `dispatch_outbox_batch`; the other modules prove what a batch keeps.
pub mod Workers
pub mod Prepare
pub mod Batch
pub mod Grants
pub mod Frees
mod Samples
pub mod Progress
pub mod Eligible
mod Placed
pub mod Capacity
