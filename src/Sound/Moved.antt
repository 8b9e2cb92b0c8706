-- ===== src/Sound/Moved.antt =====
-- Each operation takes a Run along one transition of the table at most.
use mathlib.Core.Path.{subst}
use top.Base.{
  ℕ, ◌≡◌, refl, ◌∙◌, sym, String, Bool, true, inl, inr, Option, some, List, [], ◌∷◌, ◌+◌, ◌==◌,
  ◌||◌, arith, first, update_where, if◌then◌else◌, Bool-cases,
}
use top.Contracts.{RunStatus}
use top.RunState.{allowed, is_terminal}
use top.Service.{ok, call_returned}
use top.Store.{Store, update_run}
use top.Store.Rows.{Run, Project}
use top.Dispatch.Batch.{Task, Summary, dispatch_outbox_batch}
use top.Dispatch.Capacity.{batch_induction}
use top.Lifecycle.Cancel.{
  mark_canceled, write_cancel, request_cancel, cancel_each, cancel_runs, project_runs,
}
use top.Lifecycle.Queue.{QueueRequest, new_run, admit_run, enforce_execution_policy}
use top.Lifecycle.Admission.{write_run-runs, queue_snapshot_run-created}
use top.Sound.Log.{append_run_event-runs}
use top.Sound.Cancel.{close_queued-runs}
use top.Sound.Publish.{Grants-tables}
use top.Sound.Queued.{free_id}
use top.Sound.Kept.{first-added}
use top.Sound.Follows.{
  Finishes, Stays, Finishes-trans, Follows, Follows-trans, Follows-same, Idles-Follows,
  update-Follows,
}

-- A batch of the publisher leaves every status.
pub dispatch_outbox_batch-Follows :
    (send : Task → Option String) (locked : ℕ → Bool) (fresh : ℕ → ℕ) (n now ttl poll : ℕ)
    (s s' : Store) (t : Summary)
    → dispatch_outbox_batch send locked fresh n now ttl poll s ≡ some (s', t)
    → Follows Stays s.runs s'.runs
dispatch_outbox_batch-Follows send locked fresh n now ttl poll s s' t went =
    batch_induction (λ x. Follows Stays s.runs x.runs)
      (λ x y grants before.
        Follows-trans Stays s.runs x.runs y.runs (λ a b c p q. q ∙ p) before
          (Idles-Follows x.runs y.runs (Grants-tables x y grants).runs))
      (λ x y frees before.
        Follows-trans Stays s.runs x.runs y.runs (λ a b c p q. q ∙ p) before
          (Idles-Follows x.runs y.runs frees.runs))
      send locked fresh n now ttl poll s s' t went
      (Follows-same Stays s.runs s.runs (λ a. refl) refl)

pub stays : (a : RunStatus) → Finishes a a
stays a = inl refl

pub chain :
    (rs ts us : List Run) → Follows Finishes rs ts → Follows Finishes ts us → Follows Finishes rs us
chain rs ts us one two = Follows-trans Finishes rs ts us Finishes-trans one two

mark_canceled-Finishes : (now : ℕ) (r : Run) → Finishes r.status (mark_canceled now r).status
unfolding mark_canceled allowed is_terminal
mark_canceled-Finishes now r = ground arith

mark_canceled-id : (now : ℕ) (r : Run) → (mark_canceled now r).id ≡ r.id
unfolding mark_canceled
mark_canceled-id now r = ground arith

write_cancel-runs :
    (run : Run) (actor fresh now : ℕ) (s : Store)
    → (write_cancel run actor fresh now s).runs
      ≡ update_where (λ r. r.id == run.id) (mark_canceled now) s.runs
unfolding write_cancel update_run
write_cancel-runs run actor fresh now s = simp (append_run_event-runs, close_queued-runs)

request_cancel-Follows :
    (run : Run) (actor fresh now : ℕ) (s : Store)
    → Follows Finishes s.runs (request_cancel run actor fresh now s).0.runs
unfolding request_cancel
request_cancel-Follows run actor fresh now s =
    elim (Bool-cases (is_terminal run.status || run.cancel_requested)) [
      | inl q ↦ rw q (Follows-same Finishes s.runs s.runs stays refl)
      | inr q ↦ rw q (
          subst (Follows Finishes s.runs) (sym (write_cancel-runs run actor fresh now s)) (
            update-Follows Finishes run.id (mark_canceled now) s.runs stays (mark_canceled-id now)
              (λ r found. mark_canceled-Finishes now r)))
    ]

cancel_each-Follows :
    (runs : List Run) (actor : ℕ) (fresh : ℕ → ℕ) (now : ℕ) (s : Store) (changed : ℕ)
    → Follows Finishes s.runs (cancel_each runs actor fresh now s changed).0.runs
unfolding cancel_each
cancel_each-Follows [] actor fresh now s changed = Follows-same Finishes s.runs s.runs stays refl
cancel_each-Follows (run ∷ runs) actor fresh now s changed =
    let r = request_cancel run actor (fresh run.id) now s in
    let more = if r.1 then changed + 1 else changed in
    chain s.runs r.0.runs (cancel_each runs actor fresh now r.0 more).0.runs
      (request_cancel-Follows run actor (fresh run.id) now s)
      (cancel_each-Follows runs actor fresh now r.0 more)

pub cancel_runs-Follows :
    (project : ℕ) (run_ids : List ℕ) (actor : ℕ) (fresh : ℕ → ℕ) (now : ℕ) (s t : Store)
    (changed : ℕ)
    → cancel_runs project run_ids actor fresh now s ≡ ok (t, changed)
    → Follows Finishes s.runs t.runs
unfolding cancel_runs
cancel_runs-Follows project run_ids actor fresh now s t changed h =
    let (runs, e, k) = call_returned (project_runs s project run_ids) _ h in
    let same_store : (cancel_each runs actor fresh now s 0).0 ≡ t = ground arith in
    subst (λ x. Follows Finishes s.runs x.runs) same_store
      (cancel_each-Follows runs actor fresh now s 0)

-- A new Run leaves the others.
pub admit_run-Follows :
    (project : Project) (q : QueueRequest) (fresh now : ℕ) (s t : Store)
    → admit_run project q fresh now s ≡ ok (t, true)
    → Follows Stays s.runs t.runs
unfolding admit_run new_run
admit_run-Follows project q fresh now s t h id r found =
    let (_, e, h1) = call_returned (enforce_execution_policy project now s) _ h in
    let (apart, made) = queue_snapshot_run-created q fresh now s t h1 in
    (
      r,
      subst (λ x. first (λ y. y.id == id) x.runs ≡ some r) (sym made)
          (rw write_run-runs (first-added id s.runs r (new_run q) found (free_id q s.runs apart))),
      refl,
    )
