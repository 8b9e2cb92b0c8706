-- ===== src/Schedules/Trigger.antt =====
-- schedule_services.py: `trigger_regression_schedule`. The SHA-256 of the idempotency key is an
-- argument.
use top.Base.{
  ℕ, Bool, false, not, ◌&&◌, ◌==◌, none, some, ◌∷◌, first, update_where, any, if◌then◌else◌,
}
use top.Contracts.{Text}
use top.Schedules.Answer.{Managed, done, integrity_error, ◌>>=◌, ◌>>◌, of_service}
use top.Service.{ServiceError, or_raise, check}
use top.Schedules.Rows.{Schedule, TriggerKind, FiringStatus, Firing, ScheduleAction, ScheduleStore}
use top.Schedules.Resources.{validate_resources}
use top.Schedules.Process.{RunCreation, RunRequest, RunKey, is_firing}
use top.Schedules.Manage.{is_archived, add_schedule_audit}
use top.Schedules.Update.{of_project}

-- The Run's firing: the one that is there, or a new one, with `true`.
abbrev pub of_run : ℕ → ℕ → Firing → Bool
of_run id run_id f =
    (f.schedule_id == id) && elim f.run_id [ none ↦ false | some run ↦ run == run_id ]

unfoldable pub manual_firing : Schedule → ℕ → ℕ → ℕ → Firing
manual_firing r run_id moment firing_id = record {
  id = firing_id;
  schedule_id = r.id;
  run_id = some run_id;
  scheduled_for = moment;
  triggered_at = moment;
  trigger_kind = TriggerKind.manual;
  status = FiringStatus.triggered;
  error_message = none;
}

abbrev pub manual_schedule : Schedule → Firing → ℕ → Schedule
manual_schedule r firing run_id = record r {
  last_scheduled_for = some firing.scheduled_for;
  last_triggered_at = some firing.triggered_at;
  last_run_id = some run_id;
  last_error = none;
}

unfoldable pub manual_request : Schedule → Text → ℕ → ℕ → RunRequest
manual_request r key_digest actor moment = record {
  refs = r.refs;
  idempotency_key = RunKey.manual r.id key_digest;
  actor_id = actor;
  regression_schedule_id = r.id;
  scheduled_for = moment;
}

module _ {S : Type 0} where
  -- The end of a trigger: the firing of the Run, and the row.
  unfoldable pub record_trigger :
      Schedule → ℕ → ℕ → ℕ → ℕ → S → ScheduleStore S → Managed (ScheduleStore S)
  unfolding manual_firing
  record_trigger r actor moment firing_id run_id rest s =
      let new = manual_firing r run_id moment firing_id in
      let write = λ (firing : Firing).
        update_where (of_project r.refs.project_id r.id) (λ _. manual_schedule r firing run_id)
          s.schedules in
      elim (first (of_run r.id run_id) s.firings) [
        | some firing ↦ done (record s { schedules = write firing; rest = rest })
        | none ↦
            if any (is_firing r.id moment) s.firings
            then integrity_error
            else done (record s {
              schedules = write new;
              firings = new ∷ s.firings;
              audits = add_schedule_audit actor ScheduleAction.triggered_manually r.id s.audits;
              rest = rest;
            })
      ]

  -- With the Run's id and whether it is new.
  unfoldable pub trigger_regression_schedule :
      RunCreation S
      → ℕ
      → ℕ
      → Text
      → ℕ
      → ℕ
      → ℕ
      → ScheduleStore S
      → Managed (ScheduleStore S × ℕ × Bool)
  unfolding validate_resources record_trigger manual_request
  trigger_regression_schedule runs project id key_digest actor moment firing_id s = do
    r ← of_service (or_raise (first (of_project project id) s.schedules) ServiceError.not_found)
    of_service (check (not (is_archived r.status)) ServiceError.conflict)
    of_service (validate_resources (runs.tables s.rest) r.refs)
    made ← of_service (runs.create_run (manual_request r key_digest actor moment) s.rest)
    after ← record_trigger r actor moment firing_id made.1 made.0 s
    done (after, made.1, made.2)
