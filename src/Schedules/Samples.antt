-- ===== src/Schedules/Samples.antt =====
-- A schedule for noon of every day in UTC, whose Runs the modelled end of `create_run` admits.
use top.Base.{
  ℕ, ◌≡◌, ◌≤◌, refl, ◌+◌, Bool, false, Option, none, some, [], ◌∷◌, first, select, order_by, any,
  count_where, arith,
}
use top.Contracts.{Text, text_eq}
use top.Service.{Served, ok, raise}
use top.Store.{Store}
use top.Store.Rows.{Project}
use top.Store.Samples.{snapshot, store, search_case}
use top.Lifecycle.Queue.{QueueRequest, admit_run, enforce_execution_policy, queue_snapshot_run}
use top.Lifecycle.Selection.{distinct_codes}
use top.Cron.Text.{partition, int}
use top.Cron.Parse.{Parsed, parsed, insert_value}
use top.Cron.Calendar.{Zone, combine}
use top.Schedules.Rows.{
  Schedule, ScheduleStatus, MisfirePolicy, ScheduleStore, ResourceRefs, ResourceTables,
}
use top.Schedules.Process.{RunCreation, RunRequest, Outcome, has_id, due_at, process_due_schedule}
use top.Schedules.Pass.{DispatchSummary, process_due_schedules}
use top.Schedules.Advance.{Advanced, process_due_schedule-Advanced}
use top.Schedules.Once.{FiresOnce, Launched, process_due_schedule-Launched}
use top.Schedules.Counts.{counted, process_due_schedules-Counted}
use top.Schedules.Edits.{IsKept}
use top.Schedules.Steps.{processed, Step-IsKept}

abbrev utc : Zone
utc = record { to_local = λ t. record { naive = t; fold = 0 }; to_utc = λ local. local.naive }

abbrev utc_info : Text → Option Zone
utc_info name = some utc

abbrev project : Project
project = record { id = 5; max_in_flight_runs = 1; max_daily_runs = 10; run_timeout_seconds = 60 }

abbrev Tables : Type 0
Tables = Store × ResourceTables

abbrev queue_request : RunRequest → QueueRequest
queue_request q = record {
  snapshot = snapshot;
  project_id = q.refs.project_id;
  idempotency_key = b'k' ∷ [];
  request_hash = b'h' ∷ [];
  actor_id = q.actor_id;
  runner_pool_id = some 9;
  timeout_seconds = 60;
  is_rerun = false;
}

abbrev admitted_run : Served (Store × Bool) → ResourceTables → Served (Tables × ℕ × Bool)
admitted_run (raise e) resources = raise e
admitted_run (ok (after, created)) resources = ok ((after, resources), snapshot.run_id, created)

abbrev runs : RunCreation Tables
runs = record {
  create_run =
      λ q tables. admitted_run (admit_run project (queue_request q) 11 100 tables.0) tables.1;
  tables = λ tables. tables.1;
}

abbrev refs : ResourceRefs
refs = record {
  project_id = 5;
  target_id = 1;
  environment_id = 2;
  baseline_id = 3;
  automation_package_id = 4;
  case_codes = [];
}

abbrev resources : ResourceTables
resources = record {
  projects = record { id = 5; status = "ACTIVE" } ∷ [];
  targets = record { id = 1; project_id = 5; status = "ACTIVE" } ∷ [];
  environments = record { id = 2; project_id = 5; target_id = 1; status = "ACTIVE" } ∷ [];
  baselines =
      record { baseline_id = 3; project_id = 5; status = "RELEASED"; cases = search_case ∷ [] }
      ∷ [];
  packages =
      record {
        id = 4;
        project_id = 5;
        target_id = 1;
        status = "ACTIVE";
        supply_chain_status = "VERIFIED";
      }
      ∷ [];
}

-- 2026-11-01.
abbrev today : ℕ
today = 739921

abbrev noon : Schedule
noon = record {
  id = 70;
  key = b'n' ∷ [];
  name = b'n' ∷ [];
  description = none;
  refs = refs;
  cron_expression = b'0' ∷ b' ' ∷ b'1' ∷ b'2' ∷ b' ' ∷ b'*' ∷ b' ' ∷ b'*' ∷ b' ' ∷ b'*' ∷ [];
  timezone = b'U' ∷ [];
  misfire_policy = MisfirePolicy.skip;
  misfire_grace_seconds = 300;
  status = ScheduleStatus.active;
  next_fire_at = some (combine today 12 0);
  last_scheduled_for = none;
  last_triggered_at = none;
  last_run_id = none;
  last_error = none;
  created_by = 3;
}

abbrev before : ScheduleStore Tables
before = record {
  schedules = noon ∷ [];
  firings = [];
  audits = [];
  rest = (record store { runs = []; cases = []; outbox = [] }, resources);
}

-- A minute past noon.
abbrev turn : Parsed (ScheduleStore Tables × Outcome)
turn = process_due_schedule runs utc_info (combine today 12 1) 80 70 before

abbrev result_of : Parsed (ScheduleStore Tables × Outcome) → ScheduleStore Tables × Outcome
result_of (parsed x) = x
result_of _ = (before, Outcome.ignored)

abbrev after : ScheduleStore Tables
after = (result_of turn).0

triggers : turn ≡ parsed (after, Outcome.triggered)
unfolding process_due_schedule first select count_where partition text_eq int insert_value any
    distinct_codes admit_run enforce_execution_policy queue_snapshot_run
triggers = refl

found : first (has_id 70) before.schedules ≡ some noon
unfolding first
found = refl

due : due_at (combine today 12 1) noon ≡ some (combine today 12 0)
unfolding due_at
due = refl

process_due_schedule-Advanced_example :
    (u : Schedule) × (first (has_id 70) after.schedules ≡ some u)
    × Advanced utc (combine today 12 1) noon u
process_due_schedule-Advanced_example =
    process_due_schedule-Advanced runs utc_info utc (combine today 12 1) 80 (combine today 12 0)
      noon before after Outcome.triggered found refl due triggers

no_firings : FiresOnce before.firings
unfolding count_where
no_firings id at = omega arith

process_due_schedule-Launched_example :
    FiresOnce after.firings × Launched runs noon (combine today 12 0) before after Outcome.triggered
process_due_schedule-Launched_example =
    process_due_schedule-Launched runs utc_info (combine today 12 1) 80 (combine today 12 0) noon
      before after Outcome.triggered found due no_firings triggers

abbrev fresh : ℕ → ℕ
fresh id = id + 10

abbrev pass : Option (ScheduleStore Tables × DispatchSummary)
pass = process_due_schedules runs utc_info (combine today 12 1) fresh 10 before

-- The time of a turn that comes late is skipped.
abbrev late : Option (ScheduleStore Tables × DispatchSummary)
late = process_due_schedules runs utc_info (combine today 12 30) fresh 10 before

abbrev one_triggered : DispatchSummary
one_triggered = record { selected = 1; triggered = 1; skipped = 0; blocked = 0; failed = 0 }

abbrev one_skipped : DispatchSummary
one_skipped = record { selected = 1; triggered = 0; skipped = 1; blocked = 0; failed = 0 }

abbrev passed : Option (ScheduleStore Tables × DispatchSummary) → ScheduleStore Tables
passed none = before
passed (some x) = x.0

passes : pass ≡ some (passed pass, one_triggered)
unfolding process_due_schedules order_by select first count_where partition text_eq int insert_value
    any distinct_codes admit_run enforce_execution_policy queue_snapshot_run
passes = refl

skips : late ≡ some (passed late, one_skipped)
unfolding process_due_schedules order_by select first count_where partition text_eq int insert_value
    any
skips = refl

process_due_schedules-Counted_example :
    FiresOnce (passed pass).firings
    × (counted one_triggered ≤ one_triggered.selected)
    × (one_triggered.selected ≤ 10)
process_due_schedules-Counted_example =
    process_due_schedules-Counted runs utc_info (combine today 12 1) fresh 10 before (passed pass)
      one_triggered no_firings passes

Step-IsKept_example : IsKept after
Step-IsKept_example =
    Step-IsKept runs utc_info before after (record { planned = (refl, tt); once = no_firings })
      (processed (combine today 12 1) 80 70 Outcome.triggered triggers)
