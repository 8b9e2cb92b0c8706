-- ===== src/Schedules/Edits.antt =====
-- schedule_services.py: what a creation and an update of a schedule keep.
use top.Base.{ℕ, ◌≡◌, not, Option, first, any, All, All-update_where, if◌then◌else◌}
use mathlib.Core.Path.{subst}
use top.Contracts.{Text}
use top.Service.{ok, ServiceError, or_raise, check}
use top.Cron.Calendar.{Zone}
use top.Schedules.Rows.{ScheduleStore}
use top.Schedules.Resources.{validate_resources}
use top.Schedules.Process.{RunCreation}
use top.Schedules.Answer.{done, of_service}
use top.Schedules.Manage.{
  planned, new_schedule, ScheduleCreate, create_regression_schedule, has_key,
}
use top.Schedules.Update.{
  ScheduleUpdate, update_regression_schedule, edited, replanned, next_refs, reactivates,
  sets_resources, of_project,
}
use top.Schedules.Once.{FiresOnce}
use top.Schedules.Kept.{IsPlanned, call_managed, done-injective, plan_if-next, replan-IsPlanned}

pub record IsKept {S : Type 0} (s : ScheduleStore S) : Type 0 where
  pub planned : All IsPlanned s.schedules
  pub once : FiresOnce s.firings

module _ {S : Type 0} (runs : RunCreation S) (zone_info : Text → Option Zone) where
  pub create-IsKept :
      (p : ScheduleCreate) (actor moment id : ℕ) (s t : ScheduleStore S)
      → IsKept s
      → create_regression_schedule runs zone_info p actor moment id s ≡ done t
      → IsKept t
  unfolding create_regression_schedule planned new_schedule
  create-IsKept p actor moment id s t kept went =
      let (u, valid, rest) =
        call_managed (of_service (validate_resources (runs.tables s.rest) p.refs)) _ went in
      let (next, plans, rest1) =
        call_managed (planned zone_info p.status p.cron_expression p.timezone moment) _ rest in
      let (v, unique, last) =
        call_managed
          (of_service (check (not (any (has_key p.refs p.key) s.schedules)) ServiceError.conflict))
          _ rest1 in
      subst (λ x. IsKept x) (done-injective last)
        (record { planned = (plan_if-next _ _ next plans, kept.planned); once = kept.once })

  pub update-IsKept :
      (project id : ℕ) (p : ScheduleUpdate) (actor moment : ℕ) (s t : ScheduleStore S)
      → IsKept s
      → update_regression_schedule runs zone_info project id p actor moment s ≡ done t
      → IsKept t
  unfolding update_regression_schedule replanned
  update-IsKept project id p actor moment s t kept went =
      let (r, found, rest) =
        call_managed
          (of_service (or_raise (first (of_project project id) s.schedules) ServiceError.not_found))
          _ went in
      let (u, allowed, rest1) =
        call_managed (of_service (check (not (reactivates p r)) ServiceError.conflict)) _ rest in
      let (v, valid, rest2) =
        call_managed
          (of_service (
            if sets_resources p
            then validate_resources (runs.tables s.rest) (next_refs p r.refs)
            else ok tt))
          _ rest1 in
      let (new, plans, last) = call_managed (replanned zone_info p (edited p r) moment) _ rest2 in
      subst (λ x. IsKept x) (done-injective last)
        (record {
          planned =
              All-update_where IsPlanned (of_project project id) (λ _. new) s.schedules
                (λ x before. replan-IsPlanned _ _ (edited p r) new plans) kept.planned;
          once = kept.once;
        })
