-- ===== src/Schedules/Fires.antt =====
-- schedule_services.py: what a manual trigger and the processing of a due schedule keep.
use top.Base.{
  ℕ, ◌≡◌, refl, ◌∙◌, sym, ap, Bool, true, not, Option, none, some, is_some, first, any, ltb, All,
  All-first, All-update_where, Bool-cases, Option-cases, inl, inr, if◌then◌else◌,
}
use mathlib.Core.Path.{subst}
use top.Contracts.{Text}
use top.Service.{Served, ok, raise, ServiceError, or_raise, check, or_raise-eq-ok}
use top.Cron.Parse.{parsed, parse, call_parsed, parsed-injective}
use top.Cron.Calendar.{Zone}
use top.Cron.Next.{next_after}
use top.Schedules.Rows.{Schedule, ScheduleStatus, ScheduleStore, Firing}
use top.Schedules.Resources.{validate_resources}
use top.Schedules.Process.{
  RunCreation, Outcome, has_id, due_at, Due, due_turn, fire, process_row, process_due_schedule,
  is_firing,
}
use top.Schedules.Answer.{done, of_service}
use top.Schedules.Manage.{is_active, is_archived}
use top.Schedules.Update.{of_project}
use top.Schedules.Trigger.{
  record_trigger, trigger_regression_schedule, manual_schedule, manual_request, of_run,
  manual_firing,
}
use top.Schedules.Advance.{fire-Rescheduled}
use top.Schedules.Once.{add-FiresOnce}
use top.Schedules.Kept.{IsPlanned, call_managed, done-injective}
use top.Schedules.Edits.{IsKept}

of_service-done : {A : Type 0} (call : Served A) {a : A} → of_service call ≡ done a → call ≡ ok a
of_service-done (ok b) same = ap ok (done-injective same)
of_service-done (raise e) same = cc

due-active :
    (moment : ℕ) (r : Schedule) {at : ℕ} → due_at moment r ≡ some at → is_active r.status ≡ true
unfolding due_at
due-active moment r due = of_status r.status due
  where
    of_status :
        (status : ScheduleStatus) {at : ℕ}
        → (elim status [
          | ScheduleStatus.active ↦ elim r.next_fire_at [
            | none ↦ none
            | some x ↦ if ltb moment x then none else some x
          ]
          | _ ↦ none
        ])
          ≡ some at
        → is_active status ≡ true
    of_status ScheduleStatus.active due = refl
    of_status ScheduleStatus.paused due = cc
    of_status ScheduleStatus.archived due = cc

module _ {S : Type 0} where
  record_trigger-IsKept :
      (r : Schedule) (actor moment firing_id run : ℕ) (rest : S) (s t : ScheduleStore S)
      → IsPlanned r
      → IsKept s
      → record_trigger r actor moment firing_id run rest s ≡ done t
      → IsKept t
  unfolding record_trigger manual_firing
  record_trigger-IsKept r actor moment firing_id run rest s t row_planned kept went =
      let rows = λ (firing : Firing).
        All-update_where IsPlanned (of_project r.refs.project_id r.id)
          (λ _. manual_schedule r firing run) s.schedules (λ x before. row_planned) kept.planned in
      elim (Option-cases (first (of_run r.id run) s.firings)) [
        | inr (firing, found) ↦
            subst (λ x. IsKept x) (done-injective (rw (record_trigger, found) at went))
              (record { planned = rows firing; once = kept.once })
        | inl missing ↦ elim (Bool-cases (any (is_firing r.id moment) s.firings)) [
          | inl taken ↦ cc (rw (record_trigger, missing, taken) at went)
          | inr free ↦
              subst (λ x. IsKept x) (done-injective (rw (record_trigger, missing, free) at went))
                (record {
                  planned = rows (manual_firing r run moment firing_id);
                  once =
                      add-FiresOnce (manual_firing r run moment firing_id) s.firings free kept.once;
                })
        ]
      ]

  pub trigger-IsKept :
      (runs : RunCreation S) (project id : ℕ) (key_digest : Text) (actor moment firing_id run : ℕ)
      (is_new : Bool) (s t : ScheduleStore S)
      → IsKept s
      → trigger_regression_schedule runs project id key_digest actor moment firing_id s
        ≡ done (t, run, is_new)
      → IsKept t
  unfolding trigger_regression_schedule
  trigger-IsKept runs project id key_digest actor moment firing_id run is_new s t kept went =
      let (r, found, rest) =
        call_managed
          (of_service (or_raise (first (of_project project id) s.schedules) ServiceError.not_found))
          _ went in
      let (u, allowed, rest1) =
        call_managed (of_service (check (not (is_archived r.status)) ServiceError.conflict)) _
          rest in
      let (v, valid, rest2) =
        call_managed (of_service (validate_resources (runs.tables s.rest) r.refs)) _ rest1 in
      let (made, creates, rest3) =
        call_managed
          (of_service (runs.create_run (manual_request r key_digest actor moment) s.rest)) _
          rest2 in
      let (after, records, last) =
        call_managed (record_trigger r actor moment firing_id made.1 made.0 s) _ rest3 in
      let row = or_raise-eq-ok _ _ (of_service-done _ found) in
      let row_planned = All-first IsPlanned (of_project project id) s.schedules kept.planned row in
      let same : after ≡ t = ap (λ x. x.0) (done-injective last) in
      subst (λ x. IsKept x) same
        (record_trigger-IsKept r actor moment firing_id made.1 made.0 s after row_planned kept
          records)

  fire-Planned :
      (runs : RunCreation S) (d : Due) (s : ScheduleStore S)
      → is_active d.schedule.status ≡ true
      → All IsPlanned s.schedules
      → All IsPlanned (fire runs d s).0.schedules
  fire-Planned runs d s active all_planned =
      let turned = fire-Rescheduled runs d s in
      subst (λ rows. All IsPlanned rows) (sym turned.written)
        (All-update_where IsPlanned (has_id d.schedule.id) (λ _. turned.row) s.schedules
          (λ x before. ap is_active turned.same_status ∙ active ∙ sym (ap is_some turned.next))
          all_planned)

  row-Planned :
      (runs : RunCreation S) (zone_info : Text → Option Zone) (moment firing_id at : ℕ)
      (r : Schedule) (s t : ScheduleStore S) (outcome : Outcome)
      → is_active r.status ≡ true
      → All IsPlanned s.schedules
      → process_row runs zone_info moment firing_id r at s ≡ parsed (t, outcome)
      → All IsPlanned t.schedules
  unfolding process_row
  row-Planned runs zone_info moment firing_id at r s t outcome active all_planned went =
      let (cron, parses, rest) = call_parsed (parse r.cron_expression) _ went in
      let (next, fires, last) = call_parsed (next_after zone_info cron moment r.timezone) _ rest in
      subst (λ x. All IsPlanned x.0.schedules) (parsed-injective last)
        (fire-Planned runs (due_turn r at next moment firing_id) s active all_planned)

  pub process-Planned :
      (runs : RunCreation S) (zone_info : Text → Option Zone) (moment firing_id id : ℕ)
      (s t : ScheduleStore S) (outcome : Outcome)
      → All IsPlanned s.schedules
      → process_due_schedule runs zone_info moment firing_id id s ≡ parsed (t, outcome)
      → All IsPlanned t.schedules
  unfolding process_due_schedule
  process-Planned runs zone_info moment firing_id id s t outcome all_planned went =
      elim (Option-cases (first (has_id id) s.schedules)) [
        | inl missing ↦
            let same : (s, Outcome.ignored) ≡ (t, outcome) =
              parsed-injective (rw (process_due_schedule, missing) at went) in
            subst (λ x. All IsPlanned x.0.schedules) same all_planned
        | inr (r, found) ↦ elim (Option-cases (due_at moment r)) [
          | inl waits ↦
              let same : (s, Outcome.ignored) ≡ (t, outcome) =
                parsed-injective (rw (process_due_schedule, found, waits) at went) in
              subst (λ x. All IsPlanned x.0.schedules) same all_planned
          | inr (at, due) ↦
              row-Planned runs zone_info moment firing_id at r s t outcome (due-active moment r due)
                all_planned (rw (process_due_schedule, found, due) at went)
        ]
      ]
