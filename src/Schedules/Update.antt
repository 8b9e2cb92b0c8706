-- ===== src/Schedules/Update.antt =====
-- schedule_services.py: `update_regression_schedule`.
use top.Base.{
  ℕ, String, Bool, not, ◌&&◌, ◌||◌, ◌==◌, Option, none, some, is_some, or_else, List, first,
  update_where, if◌then◌else◌,
}
use top.Contracts.{Text}
use top.Schedules.Answer.{Managed, done, ◌>>=◌, ◌>>◌, of_service, of_cron, Sent, is_sent, value_of}
use top.Service.{ServiceError, ok, or_raise, check}
use top.Cron.Parse.{Parsed}
use top.Cron.Calendar.{Zone}
use top.Schedules.Rows.{
  Schedule, ScheduleStatus, MisfirePolicy, ScheduleAction, ScheduleStore, ResourceRefs,
}
use top.Schedules.Resources.{validate_resources}
use top.Schedules.Process.{RunCreation}
use top.Schedules.Manage.{is_active, is_archived, next_fire, add_schedule_audit}

pub record ScheduleUpdate : Type 0 where
  pub name : Sent Text
  pub description : Sent Text
  pub target_id : Sent ℕ
  pub environment_id : Sent ℕ
  pub baseline_id : Sent ℕ
  pub automation_package_id : Sent ℕ
  pub case_codes : Sent (List String)
  pub cron_expression : Sent Text
  pub timezone : Sent Text
  pub misfire_policy : Sent MisfirePolicy
  pub misfire_grace_seconds : Sent ℕ
  pub status : Sent ScheduleStatus

unfoldable pub next_refs : ScheduleUpdate → ResourceRefs → ResourceRefs
next_refs p refs = record {
  project_id = refs.project_id;
  target_id = or_else (value_of p.target_id) refs.target_id;
  environment_id = or_else (value_of p.environment_id) refs.environment_id;
  baseline_id = or_else (value_of p.baseline_id) refs.baseline_id;
  automation_package_id = or_else (value_of p.automation_package_id) refs.automation_package_id;
  case_codes = or_else (value_of p.case_codes) refs.case_codes;
}

-- `payload.model_fields_set.intersection(resource_fields)`.
abbrev pub sets_resources : ScheduleUpdate → Bool
sets_resources p =
    is_sent p.target_id
    || is_sent p.environment_id
    || is_sent p.baseline_id
    || is_sent p.automation_package_id
    || is_sent p.case_codes

-- `payload.model_fields_set.intersection(schedule_fields)`.
abbrev pub sets_schedule : ScheduleUpdate → Bool
sets_schedule p = is_sent p.cron_expression || is_sent p.timezone || is_sent p.status

-- The row with the fields of the request, before its next time.
unfoldable pub edited : ScheduleUpdate → Schedule → Schedule
unfolding next_refs
edited p r = record r {
  name = or_else (value_of p.name) r.name;
  description = if is_sent p.description then value_of p.description else r.description;
  refs = next_refs p r.refs;
  cron_expression = or_else (value_of p.cron_expression) r.cron_expression;
  timezone = or_else (value_of p.timezone) r.timezone;
  misfire_policy = or_else (value_of p.misfire_policy) r.misfire_policy;
  misfire_grace_seconds = or_else (value_of p.misfire_grace_seconds) r.misfire_grace_seconds;
  status = or_else (value_of p.status) r.status;
}

-- The next time of an edited row: computed anew, kept, or none if it is not ACTIVE.
unfoldable pub replan : Bool → Parsed ℕ → Schedule → Managed Schedule
replan sets next r =
    if is_active r.status
    then (if not (is_some r.next_fire_at) || sets
        then of_cron next >>= (λ at. done (record r { next_fire_at = some at }))
        else done r)
    else done (record r { next_fire_at = none })

unfoldable pub replanned : (Text → Option Zone) → ScheduleUpdate → Schedule → ℕ → Managed Schedule
unfolding next_fire replan
replanned zone_info p r moment =
    replan (sets_schedule p) (next_fire zone_info r.cron_expression r.timezone moment) r

-- `payload.status not in {None, "ARCHIVED"}` for an archived schedule.
abbrev pub reactivates : ScheduleUpdate → Schedule → Bool
reactivates p r = is_archived r.status && not (is_archived (or_else (value_of p.status) r.status))

abbrev pub of_project : ℕ → ℕ → Schedule → Bool
of_project project id r = (r.id == id) && (r.refs.project_id == project)

module _ {S : Type 0} (runs : RunCreation S) (zone_info : Text → Option Zone) where
  unfoldable pub update_regression_schedule :
      ℕ → ℕ → ScheduleUpdate → ℕ → ℕ → ScheduleStore S → Managed (ScheduleStore S)
  unfolding validate_resources edited replanned
  update_regression_schedule project id p actor moment s = do
    r ← of_service (or_raise (first (of_project project id) s.schedules) ServiceError.not_found)
    of_service (check (not (reactivates p r)) ServiceError.conflict)
    of_service (
        if sets_resources p
        then validate_resources (runs.tables s.rest) (next_refs p r.refs)
        else ok tt)
    new ← replanned zone_info p (edited p r) moment
    done (record s {
      schedules = update_where (of_project project id) (λ _. new) s.schedules;
      audits = add_schedule_audit actor ScheduleAction.updated id s.audits;
    })
