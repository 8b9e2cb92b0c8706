-- ===== src/Sound/Events.antt =====
-- The events that a Runner reports (`record_run_event`) and the invariant.
use top.Base.{ℕ, ◌≡◌, refl, Bool, not, inl, inr, arith, ◌==◌, ◌&&◌, first, Option-cases, Bool-cases}
use mathlib.Core.Path.{subst}
use top.RunState.{is_terminal}
use top.Service.{ok, check, or_raise, call_returned}
use top.Store.{Store, get_run}
use top.Store.Rows.{Run, DedupeKey}
use top.Lifecycle.Events.{
  RunnerEvent, known_case, write_case, runner_new_event, report_case, append_reported,
  record_run_event, has_key, append_run_event,
}
use top.Lifecycle.Steps.{Steps-refl}
use top.Sound.Log.{append_run_event-runs, append_run_event-leases, append_run_event-pools}
use top.Sound.Invariant.{IsSound, Effect, Effect-refl}
use top.Sound.Writes.{Closes-refl, Effect-Steps}

pub report_case-kept :
    (run : Run) (p : RunnerEvent) (created : Bool) (s : Store)
    → ((report_case run p created s).runs ≡ s.runs)
      × ((report_case run p created s).pools ≡ s.pools)
      × ((report_case run p created s).leases ≡ s.leases)
      × ((report_case run p created s).events ≡ s.events)
unfolding report_case write_case
report_case-kept run p created s = elim (Bool-cases (created && not (is_terminal run.status))) [
  | inr q ↦ rw q (refl, refl, refl, refl)
  | inl q ↦ elim (Option-cases p.case_code) [
    | inl n ↦ rw (q, n) (refl, refl, refl, refl)
    | inr (c, n) ↦ rw (q, n) (refl, refl, refl, refl)
  ]
]

reported-Effect :
    (run : Run) (p : RunnerEvent) (created : Bool) (s : Store)
    → IsSound s
    → Effect s (report_case run p created (append_run_event run.id (runner_new_event p) s).0)
unfolding runner_new_event
reported-Effect run p created s w =
    let m = (append_run_event run.id (runner_new_event p) s).0 in
    let (hr, hp, hl, he) = report_case-kept run p created m in
    Effect-Steps s s _ run.id (runner_new_event p) w
      (rw (hr, append_run_event-runs run.id (runner_new_event p) s) (Steps-refl s.runs))
      (rw hp (append_run_event-pools run.id (runner_new_event p) s))
      (rw (hl, append_run_event-leases run.id (runner_new_event p) s) (Closes-refl s.leases)) refl
      he refl

append_reported-Effect :
    (run : Run) (p : RunnerEvent) (s t : Store) (created : Bool)
    → append_reported run p s ≡ ok (t, created)
    → IsSound s
    → Effect s t
unfolding append_reported
append_reported-Effect run p s t created h w =
    let (_, _, h1) = call_returned (known_case run.id p.case_code s) _ h in
    let (_, _, h2) = call_returned (known_case run.id p.progress_case_code s) _ h1 in
    subst (λ x. Effect s x) (ground arith)
      (reported-Effect run p (append_run_event run.id (runner_new_event p) s).1 s w)

-- Recording a Runner's event keeps the invariant of the store.
pub record_run_event-Effect :
    (run_id : ℕ) (p : RunnerEvent) (s t : Store) (created : Bool)
    → record_run_event run_id p s ≡ ok (t, created)
    → IsSound s
    → Effect s t
unfolding record_run_event
record_run_event-Effect run_id p s t created h w =
    let (_, _, h1) = call_returned (check (p.run_id == run_id) _) _ h in
    let (run, _, h2) = call_returned (or_raise (get_run s run_id) _) _ h1 in
    elim (Option-cases (first (has_key run_id (DedupeKey.runner_event p.digest)) s.events)) [
      | inl n ↦ append_reported-Effect run p s t created (rw n at h2) w
      | inr (e, q) ↦ subst (λ x. Effect s x) (ground arith) (Effect-refl s w)
    ]
