-- ===== src/Lib.antt =====
-- TestOps: the control plane of a test-automation platform. Users queue Runs of test cases; the
-- Outbox publisher gives each Run a slot on a Runner pool and hands it to a broker; a Runner reports
-- the Run's status, events and result; a user may cancel it; a sweep ends Runs that are late or lost.
-- All of them are transactions on the tables of one database.
--
-- The files and the code that they model:
--   * Base: selections and updates over table rows, which stand for the SQL statements of the code.
--   * Contracts: packages/contracts/src/testops/contracts/models.py, the data of Runs and results.
--   * RunState: apps/api/src/testops/api/state_machine.py, the transitions of a Run; RunState/Graph
--     proves what they allow.
--   * Store: apps/api/src/testops/api/persistence.py, the rows and the store of all tables. `get_run`
--     and `update_run` stand for the session's row lock and its write.
--   * Service: the errors of apps/api/src/testops/api/services.py and the chain of calls in one
--     transaction.
--   * Dispatch: services/worker/src/testops/worker/outbox.py. Workers, Prepare and Batch hold the
--     code (`_worker_supports_execution_isolation`, `_prepare_run_dispatch`,
--     `dispatch_outbox_batch`); Grants, Frees, Capacity, Eligible, Placed and Progress its theorems.
--   * Lifecycle: apps/api/src/testops/api/services.py and run_email_services.py. Events
--     (`_append_run_event`, `record_run_event`), Callbacks (`update_run_status`,
--     `_bind_runner_slot`), Results (`record_run_result`), Cancel (`cancel_run`, `cancel_runs`),
--     Emails (`enqueue_run_result_email`), Queue (`_enforce_execution_policy`,
--     `_queue_snapshot_run` and the end of `create_run`) and Selection (`_select_cases`, with its
--     theorem) hold the code; Steps says how a Run row may be rewritten; Repeat, Retry, Again, Freed,
--     Outcome, Recipients and Admission hold the theorems.
--   * Recovery: apps/api/src/testops/api/reliability_services.py. Recover (`_recover_run`), Select
--     (the queries) and Sweep (`process_run_reliability`) hold the code; Counts, Ended, Deadlines and
--     Blocked the theorems.
--   * Sound: the invariant that the components share, one file for the operations of each, and
--     Operations, which puts them in sequence; Follows, Moved and Finished say what each does to the
--     status of a Run, and Courses what a sequence does.
--   * Cron: apps/api/src/testops/api/cron.py. Text (the calls of `str` and `int`), Parse
--     (`CronExpression.parse`), Calendar (the calls of `datetime`) and Next (`next_after`) hold the
--     code; Fields, Normal, Range, Selects, Bounds, Collect, Occurs and First the theorems.
--   * Alerts: apps/api/src/testops/api/quality_alert_services.py. Rows (the tables), Decide
--     (`decide_quality_alert_event`), Evaluate (`_evaluate_project`) and Batch
--     (`evaluate_quality_alert_batch`) hold the code; Machine is the alert as its receiver sees it;
--     Keys, Tracks, Turns, Polls, Counted and Again hold the theorems.
--   * Schedules: apps/api/src/testops/api/schedule_services.py. Rows (the tables), Resources
--     (`_validate_resources`), Process (`_process_due_schedule`), Pass (`process_due_schedules`),
--     Answer, Manage, Update and Trigger (the operations of the users) hold the code; Advance, Once,
--     Counts, Kept, Edits, Fires and Steps the theorems. `create_run` is the interface
--     `RunCreation`, which Samples fills with the end of `create_run` that Lifecycle/Queue models.
--   * Webhooks: services/worker/src/testops/worker/quality_webhooks.py. Send
--     (`HttpxQualityWebhookSender`) and Dispatch (`dispatch_quality_webhook_batch`) hold the code;
--     Settled, Counts and Safe the theorems. The deliveries are rows of Alerts/Rows, which the alerts
--     write. The libraries that the sender calls are the fields of `Environment`.
--   * Mail: apps/api/src/testops/api/run_email_services.py and
--     services/worker/src/testops/worker/run_emails.py. Preferences (`update_run_email_preference`,
--     `enqueue_run_email_test`, and the rows of Lifecycle/Emails as the dispatcher sees them) and
--     Delivery (`dispatch_run_email_batch`) hold the code; Chosen, Addressed, Queued and Attempts the
--     theorems on each operation, and Steps the sequences of them.
--   * The Samples files hold rows, tests and runs at concrete inputs.
--
-- How the code is read:
--   * A table is the list of its rows, the newest first. A service is a function from the store to a
--     result and a store; one that raises gives no store, since its session is closed without a
--     commit. One call is one transaction; row locks make it see the store that the one before left.
--     A batch that runs beside another passes over locked rows (SKIP LOCKED): `locked` says which.
--   * UUIDs are numbers, and those that the code draws are arguments (`fresh`). Instants are
--     microseconds, and the clock is an argument. A digest is its list of code points; the digests
--     that hashlib computes are arguments. Texts that the code builds from values are these values
--     under a constructor.
--   * The message broker is an argument, `send`, which answers none or the text of what it raised; so
--     is the sender of e-mails, with the exception that it raised.
--   * `str.lower` and `str.casefold` are the ASCII map, which is what the contracts allow there.
--   * `int` of a text reads ASCII digits, where Python's reads those of other scripts too.
--   * The validators of a Runner's result are `valid_result`, a hypothesis where a theorem uses it.
--   * A loop is a recursion over the rows that a query selected or over a text, so no fuel is needed,
--     but for two of the cron module: `range` is given a bound on its rounds, which `values_of` makes
--     large enough (Cron/Range), and `next_after` looks at 2,930 days, as the code does.
--   * A time zone is the record `Zone` of the two conversions that `astimezone` makes; zoneinfo and
--     its data base are an argument. Python's `datetime` is arithmetic on ordinals and microseconds.
--
-- Not modelled: the start of `create_run`, which looks up what a request names and builds the
-- snapshot; reruns; the services of projects, targets, pools and packages; the quality
-- comparisons that the alerts read, the management of webhooks, identity and governance; the HTTP
-- routes, which only call the services; executors and Runners, which drive processes, containers
-- and browsers; object storage, the language model and the frontend. The payloads of events, audit
-- records and e-mails carry no state and are left out.
mod Base
pub mod Contracts
pub mod RunState
pub mod Store
pub mod Service
pub mod Dispatch
pub mod Lifecycle
pub mod Recovery
pub mod Sound
pub mod Cron
pub mod Alerts
pub mod Schedules
pub mod Webhooks
pub mod Mail
