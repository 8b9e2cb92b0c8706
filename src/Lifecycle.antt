-- ===== src/Lifecycle.antt =====
-- apps/api/src/testops/api/services.py: a Run from its creation to its end. `Queue` creates it,
-- `Events` is its event log, `Callbacks` the Runner's status reports, `Results` its result, `Cancel`
-- the cancellation, `Emails` the notification of a terminal Run (run_email_services.py).
pub mod Events
pub mod Callbacks
pub mod Emails
pub mod Results
pub mod Cancel
pub mod Selection
pub mod Queue
pub mod Steps
pub mod Repeat
pub mod Admission
pub mod Retry
pub mod Again
pub mod Freed
pub mod Outcome
pub mod Recipients
pub mod Samples
