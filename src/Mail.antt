-- ===== src/Mail.antt =====
-- apps/api/src/testops/api/run_email_services.py and services/worker/src/testops/worker/run_emails.py:
-- the preferences of a user for the e-mails on Runs, and what becomes of the queued e-mails.
pub mod Preferences
pub mod Delivery
mod Chosen
mod Addressed
mod Queued
mod Attempts
mod Steps
mod Samples
