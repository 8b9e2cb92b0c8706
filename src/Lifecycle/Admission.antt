-- ===== src/Lifecycle/Admission.antt =====
-- The quota of a project and the idempotency key of a request.
use top.Base.{
  ℕ, ◌≤◌, ◌≡◌, sym, true, false, inl, inr, Option, none, some, ◌∷◌, arith, ltb, first, any,
  count_where, Bool-cases,
}
use mathlib.Core.Path.{subst}
use top.Contracts.{Text, text_eq}
use top.Service.{ServiceError, ok, raise, ◌>>=◌, check, call_returned, check-eq-ok}
use top.Store.{Store}
use top.Store.Rows.{Run, Project}
use top.Lifecycle.Queue.{
  in_flight_runs, execution_usage, enforce_execution_policy, existing_idempotent_run, QueueRequest,
  new_run, write_run, collides, answer_raced, queue_snapshot_run, admit_run,
}
use top.Lifecycle.Repeat.{text_eq_refl}
use top.Sound.Log.{append_run_event-runs}

pub write_run-runs :
    (q : QueueRequest) (fresh now : ℕ) (s : Store)
    → (write_run q fresh now s).runs ≡ new_run q ∷ s.runs
unfolding write_run
write_run-runs q fresh now s = simp append_run_event-runs

raced-existing : (raced : Option Run) (s t : Store) → answer_raced raced s ≡ ok (t, true) → ⊥
raced-existing none s t h = cc
raced-existing (some r) s t h = ground arith

-- A Run that was queued is the new row on the old ones.
pub queue_snapshot_run-created :
    (q : QueueRequest) (fresh now : ℕ) (s t : Store)
    → queue_snapshot_run q fresh now s ≡ ok (t, true)
    → (any (collides q) s.runs ≡ false) × (t ≡ write_run q fresh now s)
unfolding queue_snapshot_run
queue_snapshot_run-created q fresh now s t h = elim (Bool-cases (any (collides q) s.runs)) [
  | inr e ↦ (e, ground arith)
  | inl e ↦
      let h' : (existing_idempotent_run q.project_id q.idempotency_key q.request_hash s >>= λ raced.
      answer_raced raced s)
          ≡ ok (t, true) =
        rw e at h in
      let (raced, _, k) =
        call_returned (existing_idempotent_run q.project_id q.idempotency_key q.request_hash s)
          (λ raced. answer_raced raced s) h' in
      absurd (raced-existing raced s t k)
]

-- The usage of a project is within its limits.
pub record IsWithinQuota (project : Project) (now : ℕ) (s : Store) : Type 0 where
  pub in_flight : in_flight_runs (execution_usage project.id now s) ≤ project.max_in_flight_runs
  pub daily : (execution_usage project.id now s).runs_created_today ≤ project.max_daily_runs

write_run-IsWithinQuota :
    (project : Project) (q : QueueRequest) (fresh now : ℕ) (s : Store)
    → ltb (in_flight_runs (execution_usage project.id now s)) project.max_in_flight_runs ≡ true
    → ltb (execution_usage project.id now s).runs_created_today project.max_daily_runs ≡ true
    → IsWithinQuota project now (write_run q fresh now s)
unfolding execution_usage count_where new_run
write_run-IsWithinQuota project q fresh now s flying today = record {
  in_flight = rw write_run-runs (ground arith);
  daily = rw write_run-runs (ground arith);
}

-- A request that creates a Run leaves its project within the in-flight and the daily limit.
pub admit_run-IsWithinQuota :
    (project : Project) (q : QueueRequest) (fresh now : ℕ) (s t : Store)
    → admit_run project q fresh now s ≡ ok (t, true)
    → IsWithinQuota project now t
unfolding admit_run enforce_execution_policy
admit_run-IsWithinQuota project q fresh now s t h =
    let (_, e, h1) = call_returned (enforce_execution_policy project now s) _ h in
    let (_, e1, h2) =
      call_returned
        (check (ltb (in_flight_runs (execution_usage project.id now s)) project.max_in_flight_runs)
          ServiceError.conflict)
        _ e in
    let (_, done) = queue_snapshot_run-created q fresh now s t h1 in
    subst (IsWithinQuota project now) (sym done)
      (write_run-IsWithinQuota project q fresh now s (check-eq-ok _ _ e1) (check-eq-ok _ _ h2))

found :
    (q : QueueRequest) (t s : Store)
    → t.runs ≡ new_run q ∷ s.runs
    → existing_idempotent_run q.project_id q.idempotency_key q.request_hash t
      ≡ ok (some (new_run q))
unfolding existing_idempotent_run first new_run
found q t s e = rw e (ground (arith, text_eq_refl q.idempotency_key, text_eq_refl q.request_hash))

refused :
    (q : QueueRequest) (other : Text) (t s : Store)
    → t.runs ≡ new_run q ∷ s.runs
    → text_eq q.request_hash other ≡ false
    → existing_idempotent_run q.project_id q.idempotency_key other t ≡ raise ServiceError.conflict
unfolding existing_idempotent_run first new_run
refused q other t s e apart = rw e (ground (arith, text_eq_refl q.idempotency_key, apart))

-- After a request created a Run, the same request finds that Run by its key, and a request with
-- another content under the key is a conflict.
pub admit_run-existing :
    (project : Project) (q : QueueRequest) (fresh now : ℕ) (s t : Store)
    → admit_run project q fresh now s ≡ ok (t, true)
    → (existing_idempotent_run q.project_id q.idempotency_key q.request_hash t
        ≡ ok (some (new_run q)))
      × ((other : Text)
          → text_eq q.request_hash other ≡ false
          → existing_idempotent_run q.project_id q.idempotency_key other t
            ≡ raise ServiceError.conflict)
unfolding admit_run
admit_run-existing project q fresh now s t h =
    let (_, e, h1) = call_returned (enforce_execution_policy project now s) _ h in
    let (_, done) = queue_snapshot_run-created q fresh now s t h1 in
    (
      found q t s
          (subst (λ x. x.runs ≡ new_run q ∷ s.runs) (sym done) (write_run-runs q fresh now s)),
      λ other apart.
          refused q other t s
            (subst (λ x. x.runs ≡ new_run q ∷ s.runs) (sym done) (write_run-runs q fresh now s))
            apart,
    )
