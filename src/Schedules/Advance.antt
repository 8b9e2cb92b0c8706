-- ===== src/Schedules/Advance.antt =====
-- schedule_services.py: the next time of a schedule that was processed.
use top.Base.{
  ℕ, ◌≡◌, refl, ◌∙◌, sym, ap, Bool, ◌&&◌, ◌==◌, ◌<◌, Option, none, some, is_some, List, first,
  update_where, first-put, any, Bool-cases, inl, inr, arith, ==_refl, if◌then◌else◌, ltb,
}
use top.Contracts.{Text}
use top.Service.{Served, ok, raise}
use top.Cron.Parse.{parsed, parsed-injective, parse, call_parsed, CronExpression}
use top.Cron.Calendar.{Zone}
use top.Cron.Next.{next_after}
use top.Cron.Occurs.{Occurs}
use top.Cron.First.{next_after-Occurs}
use top.Schedules.Rows.{Schedule, ScheduleStatus, ScheduleStore}
use top.Schedules.Process.{
  RunCreation, Outcome, has_id, due_at, is_firing, is_missed, is_skip, Due, due_turn, advanced,
  skipped_schedule, blocked_schedule, triggered_schedule, write_attempt, write_firing, attempt_run,
  fire, process_row, process_due_schedule,
}

-- The row of a schedule, after a turn.
pub record Rescheduled (d : Due) (before after : List Schedule) : Type 0 where
  pub row : Schedule
  pub written : after ≡ update_where (has_id d.schedule.id) (λ _. row) before
  pub same_id : row.id ≡ d.schedule.id
  pub same_status : row.status ≡ d.schedule.status
  pub next : row.next_fire_at ≡ some d.next_fire_at

module _ {S : Type 0} where
  write_attempt-Rescheduled :
      (d : Due) (answer : Served (S × ℕ × Bool)) (s : ScheduleStore S)
      → Rescheduled d s.schedules (write_attempt d answer s).0.schedules
  unfolding write_attempt write_firing blocked_schedule triggered_schedule advanced
  write_attempt-Rescheduled d (raise failure) s = record {
    row = blocked_schedule d failure;
    written = refl;
    same_id = refl;
    same_status = refl;
    next = refl;
  }
  write_attempt-Rescheduled d (ok (rest, run_id, created)) s = record {
    row = triggered_schedule d run_id;
    written = refl;
    same_id = refl;
    same_status = refl;
    next = refl;
  }

  pub fire-Rescheduled :
      (runs : RunCreation S) (d : Due) (s : ScheduleStore S)
      → Rescheduled d s.schedules (fire runs d s).0.schedules
  unfolding fire write_firing skipped_schedule advanced
  fire-Rescheduled runs d s =
      elim (Bool-cases (any (is_firing d.schedule.id d.scheduled_for) s.firings)) [
        | inl existing ↦ rw existing (record {
          row = advanced d;
          written = refl;
          same_id = refl;
          same_status = refl;
          next = refl;
        })
        | inr fresh ↦ elim (Bool-cases (is_missed d && is_skip d.schedule.misfire_policy)) [
          | inl missed ↦
              rw (fresh, missed)
                (record {
                  row = skipped_schedule d;
                  written = refl;
                  same_id = refl;
                  same_status = refl;
                  next = refl;
                })
          | inr on_time ↦
              rw (fresh, on_time) (write_attempt-Rescheduled d (attempt_run runs d s.rest) s)
        ]
      ]

-- A schedule after a turn: its next time is later than the turn, and its expression names it.
pub record Advanced (zone : Zone) (moment : ℕ) (r u : Schedule) : Type 0 where
  pub cron : CronExpression
  pub parses : parse r.cron_expression ≡ parsed cron
  pub next : ℕ
  pub fires : u.next_fire_at ≡ some next
  pub later : moment < next
  pub occurs : Occurs zone cron next
  pub waits : due_at moment u ≡ none

later_waits :
    (moment next : ℕ) (u : Schedule)
    → u.next_fire_at ≡ some next
    → moment < next
    → due_at moment u ≡ none
unfolding due_at
later_waits moment next u fires later = waits u.status u.next_fire_at fires
  where
    waits :
        (status : ScheduleStatus) (at : Option ℕ)
        → at ≡ some next
        → (elim status [
          | ScheduleStatus.active ↦ elim at [
            | none ↦ none
            | some x ↦ if ltb moment x then none else some x
          ]
          | _ ↦ none
        ])
          ≡ none
    waits ScheduleStatus.active none same = refl
    waits ScheduleStatus.active (some x) same = ground arith
    waits ScheduleStatus.paused at same = refl
    waits ScheduleStatus.archived at same = refl

-- Processing a due schedule without an exception gives it a later next time, which its Cron expression
-- names in its time zone, so that the schedule is not due again at that moment. This holds whether a Run
-- was created, the Run was refused, the time was skipped or a firing was there already.
pub process_due_schedule-Advanced :
    {S : Type 0} (runs : RunCreation S) (zone_info : Text → Option Zone) (zone : Zone)
    (moment firing_id scheduled_for : ℕ) (r : Schedule) (s t : ScheduleStore S) (outcome : Outcome)
    → first (has_id r.id) s.schedules ≡ some r
    → zone_info r.timezone ≡ some zone
    → due_at moment r ≡ some scheduled_for
    → process_due_schedule runs zone_info moment firing_id r.id s ≡ parsed (t, outcome)
    → (u : Schedule) × (first (has_id r.id) t.schedules ≡ some u) × Advanced zone moment r u
unfolding process_due_schedule process_row
process_due_schedule-Advanced runs zone_info zone moment firing_id at r s t outcome found known due
      done =
    let turn : process_row runs zone_info moment firing_id r at s ≡ parsed (t, outcome) =
      rw (process_due_schedule, found, due) at done in
    let (cron, parses, rest) = call_parsed (parse r.cron_expression) _ turn in
    let (next, fires, last) = call_parsed (next_after zone_info cron moment r.timezone) _ rest in
    let d = due_turn r at next moment firing_id in
    let same : fire runs d s ≡ (t, outcome) = parsed-injective last in
    let turned = fire-Rescheduled runs d s in
    let (later, occurs) =
      next_after-Occurs zone_info zone r.timezone r.cron_expression cron moment next parses known
        fires in
    let put =
      first-put (has_id r.id) turned.row s.schedules
        (ap (λ n. n == r.id) turned.same_id ∙ ==_refl r.id) (ap is_some found) in
    (
      turned.row,
      ap (λ x. first (has_id r.id) x.0.schedules) (sym same)
          ∙ ap (first (has_id r.id)) turned.written
          ∙ put,
      record {
        cron = cron;
        parses = parses;
        next = next;
        fires = turned.next;
        later = later;
        occurs = occurs;
        waits = later_waits moment next turned.row turned.next later;
      },
    )
