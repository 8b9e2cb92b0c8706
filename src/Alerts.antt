-- ===== src/Alerts.antt =====
-- apps/api/src/testops/api/quality_alert_services.py: the quality alerts of the projects, whose
-- notifications are queued as Webhook deliveries. Rows has the tables, Decide the decision on a signal,
-- Evaluate the evaluation of a project, Batch the poll, and Machine the life of an alert as its receiver
-- sees it.
pub mod Rows
pub mod Decide
pub mod Evaluate
pub mod Batch
pub mod Machine
mod Keys
mod Tracks
mod Turns
mod Polls
mod Counted
mod Again
mod Samples
