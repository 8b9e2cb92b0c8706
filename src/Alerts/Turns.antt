-- ===== src/Alerts/Turns.antt =====
-- quality_alert_services.py: what the turns of `_evaluate_project` write.
use top.Base.{
  ℕ, ◌≡◌, refl, ◌∙◌, sym, ap, Bool, true, false, ◌&&◌, ◌==◌, ◌+◌, List, [], ◌∷◌, ◌++◌, Option, none,
  some, first, length, select, select-append, arith, Bool-cases, inl, inr, if◌then◌else◌,
}
use mathlib.Core.Path.{subst}
use top.Contracts.{Text}
use top.Alerts.Rows.{
  AlertEvent, Metric, Signal, AlertState, Delivery, WebhookConfig, AlertStore, has_metric,
  same_metric,
}
use top.Alerts.Evaluate.{
  Turn, turn_of, put_state, write_turn, write_event, write_evaluated, write_notified, queued_event,
  notified_state, new_delivery, next_after_state, evaluate_signals,
}
use top.Alerts.Machine.{IsAlarm, Move, moved, of_metric}
use top.Alerts.Keys.{same_metric→eq, put_state_self, put_state_other}
use top.Alerts.Tracks.{Follows, FollowsIf, Tracks, IsTracked, Ready, turn_of-Ready}

append-nil : (ds : List Delivery) → ds ++ [] ≡ ds
append-nil [] = refl
append-nil (d ∷ ds) = ap (λ xs. d ∷ xs) (append-nil ds)

-- A row of one key is written, and deliveries of its key are added.
put_Tracks :
    (s : AlertStore) (new : AlertState) (added : List Delivery) (project : ℕ) (metric : Metric)
    → Follows (select (of_metric new.project_id new.metric) (s.deliveries ++ added)) new
    → (has_metric project metric new ≡ false → select (of_metric project metric) added ≡ [])
    → Tracks s project metric
    → FollowsIf
        (select (of_metric project metric) (s.deliveries ++ added))
        (first (has_metric project metric) (put_state new s.states))
unfolding Tracks
put_Tracks s new added project metric own others before =
    elim (Bool-cases (has_metric project metric new)) [
      | inl same ↦
          let same_project : new.project_id ≡ project = ground (arith) in
          let same_key : new.metric ≡ metric = same_metric→eq new.metric metric (ground arith) in
          subst
            (λ p.
              FollowsIf (select (of_metric p metric) (s.deliveries ++ added))
                (first (has_metric p metric) (put_state new s.states)))
            same_project
            (subst
              (λ m.
                FollowsIf (select (of_metric new.project_id m) (s.deliveries ++ added))
                  (first (has_metric new.project_id m) (put_state new s.states)))
              same_key
              (subst
                (λ o.
                  FollowsIf (select (of_metric new.project_id new.metric) (s.deliveries ++ added))
                    o)
                (sym (put_state_self new s.states)) own))
      | inr apart ↦
          let kept =
            select-append (of_metric project metric) s.deliveries added
            ∙ ap (λ ds. select (of_metric project metric) s.deliveries ++ ds) (others apart)
            ∙ append-nil (select (of_metric project metric) s.deliveries) in
          subst (λ o. FollowsIf (select (of_metric project metric) (s.deliveries ++ added)) o)
            (sym (put_state_other project metric new s.states apart))
            (subst (λ ds. FollowsIf ds (first (has_metric project metric) s.states)) (sym kept)
              before)
    ]

-- The deliveries before a turn, by the key of its row.
own_before :
    (t : Turn) (s : AlertStore)
    → Ready t s
    → Follows (select (of_metric t.state.project_id t.state.metric) s.deliveries) t.state
own_before t s ready =
    let keyed = ready.keyed in
    let project : t.config.project_id ≡ t.state.project_id = ground arith in
    let metric : t.signal.metric ≡ t.state.metric =
      sym (same_metric→eq t.state.metric t.signal.metric (ground arith)) in
    subst (λ p. Follows (select (of_metric p t.state.metric) s.deliveries) t.state) project
      (subst (λ m. Follows (select (of_metric t.config.project_id m) s.deliveries) t.state) metric
        ready.follows)

write_evaluated-IsTracked :
    (t : Turn) (s : AlertStore) → Ready t s → IsTracked s → IsTracked (write_evaluated t s)
unfolding write_evaluated Tracks
write_evaluated-IsTracked t s ready tracked project metric =
    subst
      (λ ds.
        FollowsIf (select (of_metric project metric) ds)
          (first (has_metric project metric) (put_state t.state s.states)))
      (append-nil s.deliveries)
      (put_Tracks s t.state [] project metric
        (subst (λ ds. Follows (select (of_metric t.state.project_id t.state.metric) ds) t.state)
          (sym (append-nil s.deliveries)) (own_before t s ready))
        (λ apart. unfold select in refl) (tracked project metric))

length_add : (ds : List Delivery) (d : Delivery) → length (ds ++ d ∷ []) ≡ length ds + 1
length_add [] d = refl
length_add (x ∷ ds) d = let rest = length_add ds d in omega arith

-- The delivery of a turn is the next of its alert.
notified_state-Follows :
    (t : Turn) (event : AlertEvent) (id : ℕ) (deliveries : List Delivery)
    → Move t.state.active_notification_status event t.decision.active_notification_status
    → Follows deliveries t.state
    → Follows (deliveries ++ new_delivery t event id ∷ []) (notified_state t id)
unfolding Follows notified_state new_delivery
notified_state-Follows t event id deliveries move (trace, numbered) = (
  moved deliveries _ _ _ trace move (ap (λ n. n + 1) numbered),
  sym (length_add deliveries (new_delivery t event id) ∙ ap (λ n. n + 1) (sym numbered)),
)

own_delivery :
    (t : Turn) (event : AlertEvent) (id : ℕ)
    → has_metric t.config.project_id t.signal.metric t.state ≡ true
    → select (of_metric t.state.project_id t.state.metric) (new_delivery t event id ∷ [])
      ≡ new_delivery t event id ∷ []
unfolding select new_delivery
own_delivery t event id keyed =
    let mine : (t.config.project_id == t.state.project_id)
          && same_metric t.signal.metric t.state.metric
        ≡ true =
      ground arith in
    rw mine refl

other_delivery :
    (t : Turn) (event : AlertEvent) (id project : ℕ) (metric : Metric)
    → has_metric t.config.project_id t.signal.metric t.state ≡ true
    → has_metric project metric t.state ≡ false
    → select (of_metric project metric) (new_delivery t event id ∷ []) ≡ []
unfolding select new_delivery
other_delivery t event id project metric keyed apart =
    let elsewhere : (t.config.project_id == project) && same_metric t.signal.metric metric ≡ false =
      ground arith in
    rw elsewhere refl

write_notified-IsTracked :
    (t : Turn) (event : AlertEvent) (s : AlertStore)
    → t.decision.event_type ≡ some event
    → Ready t s
    → IsTracked s
    → IsTracked (write_notified t event s)
unfolding write_notified Tracks
write_notified-IsTracked t event s decided ready tracked project metric =
    let id = next_after_state t s in
    let d = new_delivery t event id in
    put_Tracks s (notified_state t id) (d ∷ []) project metric
      (subst (λ ds. Follows ds (notified_state t id))
        (sym (
          select-append (of_metric t.state.project_id t.state.metric) s.deliveries (d ∷ [])
          ∙ ap (λ ds. select (of_metric t.state.project_id t.state.metric) s.deliveries ++ ds)
              (own_delivery t event id ready.keyed)))
        (notified_state-Follows t event id _ (ready.moves event decided) (own_before t s ready)))
      (λ apart. other_delivery t event id project metric ready.keyed apart) (tracked project metric)

write_event-IsTracked :
    (queued : Option AlertEvent) (t : Turn) (s : AlertStore)
    → ((event : AlertEvent) → queued ≡ some event → t.decision.event_type ≡ some event)
    → Ready t s
    → IsTracked s
    → IsTracked (write_event queued t s)
unfolding write_event
write_event-IsTracked none t s decided ready tracked = write_evaluated-IsTracked t s ready tracked
write_event-IsTracked (some event) t s decided ready tracked =
    write_notified-IsTracked t event s (decided event refl) ready tracked

queued_decided :
    (silenced : Bool) (decided : Option AlertEvent) (event : AlertEvent)
    → (if silenced then none else decided) ≡ some event
    → decided ≡ some event
queued_decided true decided event same = cc
queued_decided false decided event same = same

write_turn-IsTracked :
    (t : Turn) (s : AlertStore) → Ready t s → IsTracked s → IsTracked (write_turn t s)
unfolding write_turn
write_turn-IsTracked t s ready tracked =
    write_event-IsTracked (queued_event t) t s (queued_decided t.silenced t.decision.event_type)
      ready tracked

pub evaluate_signals-IsTracked :
    (config : WebhookConfig) (moment : ℕ) (fingerprint : Signal → Text) (signals : List Signal)
    (s : AlertStore)
    → IsAlarm config.minimum_alert_status
    → IsTracked s
    → IsTracked (evaluate_signals config moment fingerprint signals s).0
unfolding evaluate_signals
evaluate_signals-IsTracked config moment fingerprint [] s alarm tracked = tracked
evaluate_signals-IsTracked config moment fingerprint (signal ∷ signals) s alarm tracked =
    evaluate_signals-IsTracked config moment fingerprint signals _ alarm (
      write_turn-IsTracked (turn_of config moment (fingerprint signal) signal s) s
        (turn_of-Ready config moment (fingerprint signal) signal s alarm tracked) tracked)
