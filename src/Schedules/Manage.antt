-- ===== src/Schedules/Manage.antt =====
-- schedule_services.py: `create_regression_schedule`. What ends them is a ServiceError, the exception of the cron module,
-- or a firing of the same schedule and time at the commit. The UUIDs that they draw are arguments, and so is the SHA-256 of an idempotency key.
use top.Base.{
  ℕ, Bool, true, false, not, ◌&&◌, ◌==◌, Option, none, some, List, ◌∷◌, any, if◌then◌else◌,
}
use top.Contracts.{Text, text_eq}
use top.Schedules.Answer.{Managed, done, ◌>>=◌, ◌>>◌, of_service, of_cron}
use top.Service.{ServiceError, check}
use top.Cron.Parse.{Parsed, parsed, error, CronError, parse}
use top.Cron.Calendar.{Zone}
use top.Cron.Next.{next_after}
use top.Schedules.Rows.{
  Schedule, ScheduleStatus, MisfirePolicy, ScheduleAction, ScheduleAudit, ScheduleStore,
  ResourceRefs,
}
use top.Schedules.Resources.{validate_resources}
use top.Schedules.Process.{RunCreation}

abbrev pub is_active : ScheduleStatus → Bool
is_active ScheduleStatus.active = true
is_active _ = false

abbrev pub is_archived : ScheduleStatus → Bool
is_archived ScheduleStatus.archived = true
is_archived _ = false

-- `CronExpression.parse(expression).next_after(moment, timezone)`.
unfoldable pub next_fire : (Text → Option Zone) → Text → Text → ℕ → Parsed ℕ
unfolding parse next_after
next_fire zone_info expression timezone moment =
    top.Cron.Parse.◌>>=◌ (parse expression) (λ cron. next_after zone_info cron moment timezone)

pub record ScheduleCreate : Type 0 where
  pub key : Text
  pub name : Text
  pub description : Option Text
  pub refs : ResourceRefs
  pub cron_expression : Text
  pub timezone : Text
  pub misfire_policy : MisfirePolicy
  pub misfire_grace_seconds : ℕ
  pub status : ScheduleStatus

unfoldable pub new_schedule : ScheduleCreate → ℕ → ℕ → Option ℕ → Schedule
new_schedule p actor id next = record {
  id = id;
  key = p.key;
  name = p.name;
  description = p.description;
  refs = p.refs;
  cron_expression = p.cron_expression;
  timezone = p.timezone;
  misfire_policy = p.misfire_policy;
  misfire_grace_seconds = p.misfire_grace_seconds;
  status = p.status;
  next_fire_at = next;
  last_scheduled_for = none;
  last_triggered_at = none;
  last_run_id = none;
  last_error = none;
  created_by = actor;
}

-- The next time of a new schedule, none if it is not ACTIVE.
unfoldable pub plan_if : Bool → Parsed ℕ → Managed (Option ℕ)
plan_if active next = if active then of_cron next >>= (λ at. done (some at)) else done none

unfoldable pub planned :
    (Text → Option Zone) → ScheduleStatus → Text → Text → ℕ → Managed (Option ℕ)
unfolding next_fire plan_if
planned zone_info status expression timezone moment =
    plan_if (is_active status) (next_fire zone_info expression timezone moment)

abbrev pub add_schedule_audit : ℕ → ScheduleAction → ℕ → List ScheduleAudit → List ScheduleAudit
add_schedule_audit actor action id audits =
    record { actor_id = actor; action = action; resource_id = id } ∷ audits

-- The key of a project's schedule.
abbrev pub has_key : ResourceRefs → Text → Schedule → Bool
has_key refs key r = (r.refs.project_id == refs.project_id) && text_eq r.key key

module _ {S : Type 0} (runs : RunCreation S) (zone_info : Text → Option Zone) where
  unfoldable pub create_regression_schedule :
      ScheduleCreate → ℕ → ℕ → ℕ → ScheduleStore S → Managed (ScheduleStore S)
  unfolding validate_resources planned new_schedule
  create_regression_schedule p actor moment id s = do
    of_service (validate_resources (runs.tables s.rest) p.refs)
    next ← planned zone_info p.status p.cron_expression p.timezone moment
    of_service (check (not (any (has_key p.refs p.key) s.schedules)) ServiceError.conflict)
    done (record s {
      schedules = new_schedule p actor id next ∷ s.schedules;
      audits = add_schedule_audit actor ScheduleAction.created id s.audits;
    })
