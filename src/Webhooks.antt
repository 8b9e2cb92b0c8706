-- ===== src/Webhooks.antt =====
-- services/worker/src/testops/worker/quality_webhooks.py: the delivery of the quality Webhooks. Send has
-- the sender, Dispatch the batch of the dispatcher.
pub mod Send
pub mod Dispatch
mod Settled
mod Counts
mod Safe
mod Samples
