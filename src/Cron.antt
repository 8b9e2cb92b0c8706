-- ===== src/Cron.antt =====
-- apps/api/src/testops/api/cron.py: the five-field Cron expressions of the Regression schedules.
-- Text has the calls on texts, Parse the parser, Calendar the dates and Next the search.
pub mod Text
pub mod Parse
pub mod Calendar
pub mod Next
mod Fields
mod Normal
mod Range
mod Selects
mod Bounds
mod Collect
pub mod Occurs
pub mod First
mod Samples
