-- ===== src/Alerts/Again.antt =====
-- quality_alert_services.py: the decision on a signal that comes again.
use top.Base.{
  ℕ, ◌≡◌, refl, ◌∙◌, true, Option, none, some, is_some, arith, Bool-cases, inl, inr, leb, ltb, ◌≢◌,
}
use top.Alerts.Rows.{AlertEvent, AlertStatus, alert_rank}
use top.Alerts.Decide.{is_ahead, decide_quality_alert_event, decide_active, decide_idle}
use top.Alerts.Machine.{IsAlarm}

-- The decision on a signal that is neither STABLE nor without data.
resumed : AlertStatus → Option AlertStatus → AlertStatus → Option ℕ → ℕ → Option AlertEvent
resumed current none minimum cooldown now = (decide_idle current minimum cooldown now).event_type
resumed current (some active) minimum cooldown now =
    (decide_active current active minimum).event_type

resumed_alarm :
    (current : AlertStatus) (active : Option AlertStatus) (minimum : AlertStatus)
    (cooldown : Option ℕ) (now : ℕ)
    → IsAlarm current
    → (decide_quality_alert_event current active minimum cooldown now).event_type
      ≡ resumed current active minimum cooldown now
unfolding decide_quality_alert_event resumed
resumed_alarm AlertStatus.no_data active minimum cooldown now alarm = absurd (ground arith)
resumed_alarm AlertStatus.stable active minimum cooldown now alarm = absurd (ground arith)
resumed_alarm AlertStatus.warning none minimum cooldown now alarm = refl
resumed_alarm AlertStatus.warning (some active) minimum cooldown now alarm = refl
resumed_alarm AlertStatus.critical none minimum cooldown now alarm = refl
resumed_alarm AlertStatus.critical (some active) minimum cooldown now alarm = refl

decide_active_same :
    (current minimum : AlertStatus) → (decide_active current current minimum).event_type ≡ none
unfolding decide_active
decide_active_same current minimum = ground arith

decide_idle_below :
    (current minimum : AlertStatus) (cooldown : Option ℕ) (now : ℕ)
    → ltb (alert_rank current) (alert_rank minimum) ≡ true
    → (decide_idle current minimum cooldown now).event_type ≡ none
unfolding decide_idle
decide_idle_below current minimum cooldown now below = rw below refl

stable_idle :
    (minimum : AlertStatus) (cooldown : Option ℕ) (now : ℕ)
    → IsAlarm minimum
    → is_some (decide_idle AlertStatus.stable minimum cooldown now).event_type ≢ true
stable_idle minimum cooldown now alarm event =
    let quiet = decide_idle_below AlertStatus.stable minimum cooldown now (ground arith) in
    cc (rw quiet at event)

again_active :
    (current active minimum : AlertStatus) (cooldown : Option ℕ) (now : ℕ)
    → is_some (decide_active current active minimum).event_type ≡ true
    → resumed current
        (decide_active current active minimum).active_notification_status
        minimum
        cooldown
        now
      ≡ none
unfolding decide_active resumed
again_active current active minimum cooldown now event =
    elim (Bool-cases (ltb (alert_rank active) (alert_rank current))) [
      | inl up ↦ rw up (decide_active_same current minimum)
      | inr still ↦ elim (Bool-cases (ltb (alert_rank current) (alert_rank active))) [
        | inl down ↦ elim (Bool-cases (leb (alert_rank minimum) (alert_rank current))) [
          | inl kept ↦ rw (still, down, kept) (decide_active_same current minimum)
          | inr closed ↦
              rw (still, down, closed)
                (decide_idle_below current minimum cooldown now (ground (arith, closed)))
        ]
        | inr same ↦ cc (rw (still, same) at event)
      ]
    ]

again_idle :
    (current minimum : AlertStatus) (cooldown later_cooldown : Option ℕ) (now later : ℕ)
    → is_some (decide_idle current minimum cooldown now).event_type ≡ true
    → resumed current
        (decide_idle current minimum cooldown now).active_notification_status
        minimum
        later_cooldown
        later
      ≡ none
unfolding decide_idle resumed
again_idle current minimum cooldown later_cooldown now later event =
    elim (Bool-cases (ltb (alert_rank current) (alert_rank minimum))) [
      | inl below ↦ cc (rw below at event)
      | inr enough ↦ elim (Bool-cases (is_ahead now cooldown)) [
        | inl waits ↦ cc (rw (enough, waits) at event)
        | inr free ↦ rw (enough, free) (decide_active_same current minimum)
      ]
    ]

-- After an event, the same signal has no further event, at any later moment and whatever the cooldown.
pub decide_again :
    (current : AlertStatus) (active : Option AlertStatus) (minimum : AlertStatus)
    (cooldown later_cooldown : Option ℕ) (now later : ℕ)
    → IsAlarm minimum
    → is_some (decide_quality_alert_event current active minimum cooldown now).event_type ≡ true
    → (decide_quality_alert_event current
        (decide_quality_alert_event current active minimum cooldown now).active_notification_status
        minimum
        later_cooldown
        later).event_type
      ≡ none
unfolding decide_quality_alert_event
decide_again AlertStatus.no_data active minimum c lc now later alarm event = refl
decide_again AlertStatus.stable (some active) minimum c lc now later alarm event =
    decide_idle_below AlertStatus.stable minimum lc later (ground arith)
decide_again AlertStatus.stable none minimum c lc now later alarm event =
    absurd (stable_idle minimum c now alarm event)
decide_again AlertStatus.warning (some active) minimum c lc now later alarm event =
    resumed_alarm AlertStatus.warning _ minimum lc later (omega arith)
    ∙ again_active AlertStatus.warning active minimum lc later event
decide_again AlertStatus.warning none minimum c lc now later alarm event =
    resumed_alarm AlertStatus.warning _ minimum lc later (omega arith)
    ∙ again_idle AlertStatus.warning minimum c lc now later event
decide_again AlertStatus.critical (some active) minimum c lc now later alarm event =
    resumed_alarm AlertStatus.critical _ minimum lc later (omega arith)
    ∙ again_active AlertStatus.critical active minimum lc later event
decide_again AlertStatus.critical none minimum c lc now later alarm event =
    resumed_alarm AlertStatus.critical _ minimum lc later (omega arith)
    ∙ again_idle AlertStatus.critical minimum c lc now later event
