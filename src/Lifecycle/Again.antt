-- ===== src/Lifecycle/Again.antt =====
-- Events and cancellations that are sent twice.
use mathlib.Core.Path.{subst}
use top.Base.{
  ℕ, ◌≡◌, refl, Bool, true, false, inl, inr, some, arith, ◌==◌, ◌||◌, is_some, first,
  first-update_where, Bool-cases, Option-cases,
}
use top.RunState.{is_terminal}
use top.Service.{ok, check, or_raise, call_returned, check-eq-ok, or_raise-eq-ok}
use top.Store.{Store, get_run, update_run}
use top.Store.Rows.{Run, DedupeKey}
use top.Lifecycle.Events.{
  RunnerEvent, has_key, same_key, numbered, append_run_event, runner_new_event, report_case,
  known_case, append_reported, record_run_event,
}
use top.Lifecycle.Cancel.{mark_canceled, write_cancel, request_cancel, cancel_run}
use top.Lifecycle.Repeat.{text_eq_refl}
use top.Sound.Log.{append_run_event-runs}
use top.Sound.Events.{report_case-kept}
use top.Sound.Cancel.{close_queued-runs}
use top.Sound.Writes.{get_run-id, get_run_self}

-- A Run that is ended or whose cancellation is requested.
record Canceled (id : ℕ) (s : Store) : Type 0 where
  row : Run
  known : get_run s id ≡ some row
  closed : (is_terminal row.status || row.cancel_requested) ≡ true

write_cancel-Canceled :
    (run : Run) (actor fresh now : ℕ) (s : Store)
    → get_run s run.id ≡ some run
    → Canceled run.id (write_cancel run actor fresh now s)
unfolding write_cancel update_run get_run mark_canceled
write_cancel-Canceled run actor fresh now s known = record {
  row = mark_canceled now run;
  known =
      simp (append_run_event-runs, close_queued-runs)
        (first-update_where (λ x. x.id == run.id) (λ x. x.id == run.id) (mark_canceled now) s.runs
          run (λ x. ground arith) known (ground arith));
  closed = ground arith;
}

request_cancel-Canceled :
    (run : Run) (actor fresh now : ℕ) (s : Store)
    → get_run s run.id ≡ some run
    → Canceled run.id (request_cancel run actor fresh now s).0
unfolding request_cancel
request_cancel-Canceled run actor fresh now s known =
    elim (Bool-cases (is_terminal run.status || run.cancel_requested)) [
      | inl q ↦ rw q (record { row = run; known = known; closed = q })
      | inr q ↦ rw q (write_cancel-Canceled run actor fresh now s known)
    ]

cancel_run-unchanged :
    (id actor fresh later : ℕ) (t : Store)
    → Canceled id t
    → cancel_run id actor fresh later t ≡ ok (t, false)
unfolding cancel_run request_cancel
cancel_run-unchanged id actor fresh later t c = rw c.known (rw c.closed refl)

-- A cancellation that was accepted is accepted again, by anyone and at any time, and changes
-- nothing then.
pub cancel_run-repeat :
    (run_id actor fresh now : ℕ) (s t : Store) (changed : Bool)
    → cancel_run run_id actor fresh now s ≡ ok (t, changed)
    → (actor' fresh' later : ℕ) → cancel_run run_id actor' fresh' later t ≡ ok (t, false)
unfolding cancel_run
cancel_run-repeat run_id actor fresh now s t changed h actor' fresh' later =
    let (run, e, k) = call_returned (or_raise (get_run s run_id) _) _ h in
    let found = or_raise-eq-ok _ _ e in
    let c : Canceled run.id t =
      subst (Canceled run.id) (ground arith)
        (request_cancel-Canceled run actor fresh now s (get_run_self s run_id run found)) in
    cancel_run-unchanged run_id actor' fresh' later t
      (subst (λ n. Canceled n t) (get_run-id s run_id run found) c)

-- A store that has the Run and the event.
record Logged (id : ℕ) (p : RunnerEvent) (s : Store) : Type 0 where
  has_run : is_some (get_run s id) ≡ true
  has_event : is_some (first (has_key id (DedupeKey.runner_event p.digest)) s.events) ≡ true

appended :
    (run : ℕ) (p : RunnerEvent) (s : Store)
    → is_some (
        first
          (has_key run (DedupeKey.runner_event p.digest))
          (append_run_event run (runner_new_event p) s).0.events)
      ≡ true
unfolding append_run_event first runner_new_event numbered same_key
appended run p s =
    elim (Option-cases (first (has_key run (DedupeKey.runner_event p.digest)) s.events)) [
      | inl n ↦ ground (arith, text_eq_refl p.digest)
      | inr (e, q) ↦ ground arith
    ]

reported-Logged :
    (run : Run) (p : RunnerEvent) (created : Bool) (s : Store)
    → get_run s run.id ≡ some run
    → Logged run.id p (report_case run p created (append_run_event run.id (runner_new_event p) s).0)
unfolding get_run
reported-Logged run p created s known =
    let (hr, _, _, he) =
      report_case-kept run p created (append_run_event run.id (runner_new_event p) s).0 in
    record {
      has_run = rw (hr, append_run_event-runs run.id (runner_new_event p) s) (ground arith);
      has_event = rw he (appended run.id p s);
    }

append_reported-Logged :
    (run : Run) (p : RunnerEvent) (s t : Store) (created : Bool)
    → get_run s run.id ≡ some run
    → append_reported run p s ≡ ok (t, created)
    → Logged run.id p t
unfolding append_reported
append_reported-Logged run p s t created known h =
    let (_, _, h1) = call_returned (known_case run.id p.case_code s) _ h in
    let (_, _, h2) = call_returned (known_case run.id p.progress_case_code s) _ h1 in
    subst (Logged run.id p) (ground arith)
      (reported-Logged run p (append_run_event run.id (runner_new_event p) s).1 s known)

record_run_event-unchanged :
    (run_id : ℕ) (p : RunnerEvent) (t : Store)
    → (p.run_id == run_id) ≡ true
    → Logged run_id p t
    → record_run_event run_id p t ≡ ok (t, false)
unfolding record_run_event
record_run_event-unchanged run_id p t named l = ground (arith, named, l.has_run, l.has_event)

-- An event that was recorded is accepted again and changes nothing then.
pub record_run_event-repeat :
    (run_id : ℕ) (p : RunnerEvent) (s t : Store) (created : Bool)
    → record_run_event run_id p s ≡ ok (t, created)
    → record_run_event run_id p t ≡ ok (t, false)
unfolding record_run_event
record_run_event-repeat run_id p s t created h =
    let (_, e1, h1) = call_returned (check (p.run_id == run_id) _) _ h in
    let (run, e2, h2) = call_returned (or_raise (get_run s run_id) _) _ h1 in
    let found = or_raise-eq-ok _ _ e2 in
    record_run_event-unchanged run_id p t (check-eq-ok _ _ e1)
      (elim (Option-cases (first (has_key run_id (DedupeKey.runner_event p.digest)) s.events)) [
        | inl n ↦
            subst (λ id. Logged id p t) (get_run-id s run_id run found)
              (append_reported-Logged run p s t created (get_run_self s run_id run found)
                (rw n at h2))
        | inr (e, q) ↦
            let done : s ≡ t = ground arith in
            subst (Logged run_id p) done
              (record { has_run = ground (arith, found); has_event = ground (arith, q) })
      ])
