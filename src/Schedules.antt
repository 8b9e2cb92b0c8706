-- ===== src/Schedules.antt =====
-- apps/api/src/testops/api/schedule_services.py: the Regression schedules. Rows has the tables,
-- Resources the check of what a schedule names, and Process the processing of the due schedules.
pub mod Rows
pub mod Resources
pub mod Process
pub mod Pass
pub mod Answer
pub mod Manage
pub mod Update
pub mod Trigger
mod Advance
mod Once
mod Counts
mod Kept
mod Edits
mod Fires
mod Steps
mod Samples
