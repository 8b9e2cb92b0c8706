-- ===== src/Schedules/Steps.antt =====
-- schedule_services.py: the operations on the schedules as steps of their tables.
use top.Base.{ℕ, ◌≡◌, Bool, Option}
use top.Contracts.{Text}
use top.Cron.Parse.{parsed}
use top.Cron.Calendar.{Zone}
use top.Schedules.Rows.{ScheduleStore}
use top.Schedules.Process.{RunCreation, Outcome, process_due_schedule}
use top.Schedules.Answer.{done}
use top.Schedules.Manage.{ScheduleCreate, create_regression_schedule}
use top.Schedules.Update.{ScheduleUpdate, update_regression_schedule}
use top.Schedules.Trigger.{trigger_regression_schedule}
use top.Schedules.Counts.{due-FiresOnce}
use top.Schedules.Edits.{IsKept, create-IsKept, update-IsKept}
use top.Schedules.Fires.{trigger-IsKept, process-Planned}

module _ {S : Type 0} (runs : RunCreation S) (zone_info : Text → Option Zone) where
  -- A transaction that commits.
  pub data Step (s t : ScheduleStore S) : Type 0 where
    created :
        (p : ScheduleCreate) (actor moment id : ℕ)
        → create_regression_schedule runs zone_info p actor moment id s ≡ done t
        → Step s t
    updated :
        (project id : ℕ) (p : ScheduleUpdate) (actor moment : ℕ)
        → update_regression_schedule runs zone_info project id p actor moment s ≡ done t
        → Step s t
    triggered :
        (project id : ℕ) (key_digest : Text) (actor moment firing_id run : ℕ) (is_new : Bool)
        → trigger_regression_schedule runs project id key_digest actor moment firing_id s
          ≡ done (t, run, is_new)
        → Step s t
    processed :
        (moment firing_id id : ℕ) (outcome : Outcome)
        → process_due_schedule runs zone_info moment firing_id id s ≡ parsed (t, outcome)
        → Step s t

-- Every operation on the schedules that commits (a creation, an update, a manual trigger, the processing
-- of a due schedule) keeps two invariants: a schedule has a next time exactly while it is ACTIVE, and
-- there is one firing at most for a schedule and a time.
pub Step-IsKept :
    {S : Type 0} (runs : RunCreation S) (zone_info : Text → Option Zone) (s t : ScheduleStore S)
    → IsKept s
    → Step runs zone_info s t
    → IsKept t
Step-IsKept runs zone_info s t kept (created p actor moment id went) =
    create-IsKept runs zone_info p actor moment id s t kept went
Step-IsKept runs zone_info s t kept (updated project id p actor moment went) =
    update-IsKept runs zone_info project id p actor moment s t kept went
Step-IsKept runs zone_info s t kept
      (triggered project id key actor moment firing_id run is_new went) =
    trigger-IsKept runs project id key actor moment firing_id run is_new s t kept went
Step-IsKept runs zone_info s t kept (processed moment firing_id id outcome went) = record {
  planned = process-Planned runs zone_info moment firing_id id s t outcome kept.planned went;
  once = due-FiresOnce runs zone_info moment firing_id id s t outcome kept.once went;
}
