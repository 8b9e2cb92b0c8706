-- ===== src/Sound/Cancel.antt =====
-- The cancellations of Runs (`cancel_run`, `cancel_runs`) and the invariant.
use top.Base.{
  ℕ, ◌+◌, ◌≡◌, refl, Bool, inl, inr, List, [], ◌∷◌, arith, ◌||◌, if◌then◌else◌, Bool-cases,
}
use mathlib.Core.Path.{subst}
use top.Contracts.{RunStatus, same_status}
use top.RunState.{is_terminal}
use top.Service.{ok, or_raise, call_returned}
use top.Store.{Store, get_run, update_run}
use top.Store.Rows.{Run}
use top.Lifecycle.Results.{release_runner_slot}
use top.Lifecycle.Emails.{enqueue_run_result_email}
use top.Lifecycle.Cancel.{
  mark_canceled, close_queued, cancel_event, write_cancel, request_cancel, cancel_run, cancel_each,
  cancel_runs,
}
use top.Lifecycle.Steps.{Steps-update_all, mark_canceled-RunStep}
use top.Sound.Log.{append_run_event-runs, append_run_event-leases, append_run_event-pools}
use top.Sound.Kept.{Kept, Effect-Kept}
use top.Lifecycle.Cancel.{project_runs}
use top.Sound.Invariant.{IsSound, Effect, Effect-refl}
use top.Sound.Writes.{Closes, Closes-refl, release-Closes, Effect-Steps}
use top.Sound.Untouched.{on_lease-runs, on_lease-pools, on_lease-events}

pub close_queued-runs : (run : Run) (now : ℕ) (s : Store) → (close_queued run now s).runs ≡ s.runs
unfolding close_queued enqueue_run_result_email release_runner_slot
close_queued-runs run now s = elim (Bool-cases (same_status run.status RunStatus.queued)) [
  | inl q ↦ rw q (simp on_lease-runs)
  | inr q ↦ rw q
]

close_queued-pools : (run : Run) (now : ℕ) (s : Store) → (close_queued run now s).pools ≡ s.pools
unfolding close_queued enqueue_run_result_email release_runner_slot
close_queued-pools run now s = elim (Bool-cases (same_status run.status RunStatus.queued)) [
  | inl q ↦ rw q (simp on_lease-pools)
  | inr q ↦ rw q
]

close_queued-events : (run : Run) (now : ℕ) (s : Store) → (close_queued run now s).events ≡ s.events
unfolding close_queued enqueue_run_result_email release_runner_slot
close_queued-events run now s = elim (Bool-cases (same_status run.status RunStatus.queued)) [
  | inl q ↦ rw q (simp on_lease-events)
  | inr q ↦ rw q
]

close_queued-Closes :
    (run : Run) (now : ℕ) (s : Store) → Closes s.leases (close_queued run now s).leases
unfolding close_queued enqueue_run_result_email
close_queued-Closes run now s = elim (Bool-cases (same_status run.status RunStatus.queued)) [
  | inl q ↦ rw q (release-Closes run.id now s)
  | inr q ↦ rw q (Closes-refl s.leases)
]

write_cancel-Effect :
    (run : Run) (actor fresh now : ℕ) (s : Store)
    → IsSound s
    → Effect s (write_cancel run actor fresh now s)
unfolding write_cancel cancel_event update_run
write_cancel-Effect run actor fresh now s w =
    Effect-Steps s (close_queued run now (update_run run.id (mark_canceled now) s)) _ run.id
      (cancel_event run now) w
      (simp (append_run_event-runs, close_queued-runs)
        (Steps-update_all _ (mark_canceled now) s.runs (mark_canceled-RunStep now)))
      (simp (append_run_event-pools, close_queued-pools))
      (simp append_run_event-leases (close_queued-Closes run now _)) (simp close_queued-events) refl
      refl

request_cancel-Effect :
    (run : Run) (actor fresh now : ℕ) (s : Store)
    → IsSound s
    → Effect s (request_cancel run actor fresh now s).0
unfolding request_cancel
request_cancel-Effect run actor fresh now s w =
    elim (Bool-cases (is_terminal run.status || run.cancel_requested)) [
      | inl q ↦ rw q (Effect-refl s w)
      | inr q ↦ rw q (write_cancel-Effect run actor fresh now s w)
    ]

-- Cancelling a Run keeps the invariant of the store.
pub cancel_run-Effect :
    (run_id actor fresh now : ℕ) (s t : Store) (changed : Bool)
    → cancel_run run_id actor fresh now s ≡ ok (t, changed)
    → IsSound s
    → Effect s t
unfolding cancel_run
cancel_run-Effect run_id actor fresh now s t changed h w =
    let (run, e, k) = call_returned (or_raise (get_run s run_id) _) _ h in
    subst (λ x. Effect s x) (ground arith) (request_cancel-Effect run actor fresh now s w)

cancel_each-Kept :
    (rs runs : List Run) (actor : ℕ) (fresh : ℕ → ℕ) (now : ℕ) (s : Store) (changed : ℕ)
    → Kept rs s
    → Kept rs (cancel_each runs actor fresh now s changed).0
unfolding cancel_each
cancel_each-Kept rs [] actor fresh now s changed w = w
cancel_each-Kept rs (run ∷ runs) actor fresh now s changed w =
    let r = request_cancel run actor (fresh run.id) now s in
    cancel_each-Kept rs runs actor fresh now r.0 (if r.1 then changed + 1 else changed)
      (Effect-Kept rs s r.0 (request_cancel-Effect run actor (fresh run.id) now s w.sound) w)

-- Cancelling the Runs of a project keeps the invariant and the Runs.
pub cancel_runs-Kept :
    (rs : List Run) (project : ℕ) (run_ids : List ℕ) (actor : ℕ) (fresh : ℕ → ℕ) (now : ℕ)
    (s t : Store) (changed : ℕ)
    → cancel_runs project run_ids actor fresh now s ≡ ok (t, changed)
    → Kept rs s
    → Kept rs t
unfolding cancel_runs
cancel_runs-Kept rs project run_ids actor fresh now s t changed h w =
    let (runs, e, k) = call_returned (project_runs s project run_ids) _ h in
    subst (Kept rs) (ground arith) (cancel_each-Kept rs runs actor fresh now s 0 w)
