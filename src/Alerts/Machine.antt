-- ===== src/Alerts/Machine.antt =====
-- The life of an alert as the receiver of its notifications sees it: idle or active at a level, and
-- the moves that each kind of `quality.alert` event makes.
use top.Base.{
  ℕ, ◌≡◌, Bool, ◌&&◌, ◌==◌, ◌+◌, ◌≤◌, ◌<◌, List, [], ◌∷◌, ◌++◌, Option, none, some, length, arith,
  Bool-cases, inl, inr, ltb, leb,
}
use mathlib.Core.Path.{subst}
use top.Alerts.Rows.{AlertStatus, AlertEvent, Metric, Delivery, alert_rank, same_metric}
use top.Alerts.Decide.{is_ahead, decide_quality_alert_event, decide_active, decide_idle}

-- WARNING and CRITICAL, which alone are notified.
abbrev pub IsAlarm : AlertStatus → Type 0
IsAlarm status = 2 ≤ alert_rank status

pub data Move : Option AlertStatus → AlertEvent → Option AlertStatus → Type 0 where
  triggers : (level : AlertStatus) → IsAlarm level → Move none AlertEvent.triggered (some level)
  escalates :
      (from to : AlertStatus)
      → alert_rank from < alert_rank to
      → Move (some from) AlertEvent.escalated (some to)
  deescalates :
      (from to : AlertStatus)
      → alert_rank to < alert_rank from
      → IsAlarm to
      → Move (some from) AlertEvent.deescalated (some to)
  closes : (from : AlertStatus) → Move (some from) AlertEvent.deescalated none
  recovers : (from : AlertStatus) → Move (some from) AlertEvent.recovered none

-- The deliveries of an alert in their order, numbered from 1, and the level that they leave it at.
pub data Trace : List Delivery → Option AlertStatus → Type 0 where
  idle : Trace [] none
  moved :
      (before : List Delivery) (d : Delivery) (from to : Option AlertStatus)
      → Trace before from
      → Move from d.event_type to
      → d.dedupe_key.sequence ≡ length before + 1
      → Trace (before ++ d ∷ []) to

-- The deliveries of a project and a metric.
abbrev pub of_metric : ℕ → Metric → Delivery → Bool
of_metric project metric d = (d.project_id == project) && same_metric d.dedupe_key.metric metric

renamed :
    {from to : Option AlertStatus} {decided event : AlertEvent}
    → Move from decided to
    → some decided ≡ some event
    → Move from event to
renamed {from} {to} move same = subst (λ e. Move from e to) (cc same) move

decide_active-Move :
    (current active minimum : AlertStatus) (event : AlertEvent)
    → IsAlarm minimum
    → (decide_active current active minimum).event_type ≡ some event
    → Move (some active) event (decide_active current active minimum).active_notification_status
unfolding decide_active
decide_active-Move current active minimum event alarm decided =
    elim (Bool-cases (ltb (alert_rank active) (alert_rank current))) [
      | inl up ↦ rw up (renamed (escalates active current (ground arith)) (rw up at decided))
      | inr still ↦ elim (Bool-cases (ltb (alert_rank current) (alert_rank active))) [
        | inl down ↦ elim (Bool-cases (leb (alert_rank minimum) (alert_rank current))) [
          | inl kept ↦
              rw (still, down, kept)
                (renamed (deescalates active current (ground arith) (ground arith))
                  (rw (still, down) at decided))
          | inr closed ↦
              rw (still, down, closed) (renamed (closes active) (rw (still, down) at decided))
        ]
        | inr same ↦ cc (rw (still, same) at decided)
      ]
    ]

decide_idle-Move :
    (current minimum : AlertStatus) (cooldown : Option ℕ) (now : ℕ) (event : AlertEvent)
    → IsAlarm minimum
    → (decide_idle current minimum cooldown now).event_type ≡ some event
    → Move none event (decide_idle current minimum cooldown now).active_notification_status
unfolding decide_idle
decide_idle-Move current minimum cooldown now event alarm decided =
    elim (Bool-cases (ltb (alert_rank current) (alert_rank minimum))) [
      | inl below ↦ cc (rw below at decided)
      | inr enough ↦ elim (Bool-cases (is_ahead now cooldown)) [
        | inl waits ↦ cc (rw (enough, waits) at decided)
        | inr free ↦
            rw (enough, free)
              (renamed (triggers current (ground arith)) (rw (enough, free) at decided))
      ]
    ]

-- An event that is decided is a move from the active level to the next.
pub decide-Move :
    (current : AlertStatus) (active : Option AlertStatus) (minimum : AlertStatus)
    (cooldown : Option ℕ) (now : ℕ) (event : AlertEvent)
    → IsAlarm minimum
    → (decide_quality_alert_event current active minimum cooldown now).event_type ≡ some event
    → Move active event
        (decide_quality_alert_event current active minimum cooldown now).active_notification_status
unfolding decide_quality_alert_event
decide-Move AlertStatus.no_data active minimum cooldown now event alarm decided = cc
decide-Move AlertStatus.stable (some active) minimum cooldown now event alarm decided =
    renamed (recovers active) decided
decide-Move AlertStatus.stable none minimum cooldown now event alarm decided =
    decide_idle-Move AlertStatus.stable minimum cooldown now event alarm decided
decide-Move AlertStatus.warning (some active) minimum cooldown now event alarm decided =
    decide_active-Move AlertStatus.warning active minimum event alarm decided
decide-Move AlertStatus.warning none minimum cooldown now event alarm decided =
    decide_idle-Move AlertStatus.warning minimum cooldown now event alarm decided
decide-Move AlertStatus.critical (some active) minimum cooldown now event alarm decided =
    decide_active-Move AlertStatus.critical active minimum event alarm decided
decide-Move AlertStatus.critical none minimum cooldown now event alarm decided =
    decide_idle-Move AlertStatus.critical minimum cooldown now event alarm decided
