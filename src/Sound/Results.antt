-- ===== src/Sound/Results.antt =====
-- The results of Runs (`record_run_result`) and the invariant.
use top.Base.{
  ℕ, ◌≡◌, refl, Bool, true, false, inl, inr, some, List, ◌++◌, arith, ◌==◌, Bool-cases, is_some,
}
use mathlib.Core.Path.{subst}
use top.Contracts.{RunResult, Text}
use top.RunState.{allowed, is_terminal}
use top.Service.{ok, ◌>>=◌, check, or_raise, call_returned, check-eq-ok, or_raise-eq-ok}
use top.Store.{Store, get_run, update_run}
use top.Store.Rows.{Run, RunCase}
use top.Lifecycle.Results.{
  release_runner_slot, set_validation, finish, result_event, write_result, accept_result,
  record_for, is_recorded, artifact_rows, record_run_result, valid_result,
}
use top.Lifecycle.Emails.{enqueue_run_result_email}
use top.Lifecycle.Steps.{finish-RunStep}
use top.Sound.Log.{append_run_event-leases}
use top.Sound.Invariant.{IsSound, Effect, Effect-refl}
use top.Sound.Writes.{release-Closes, Effect-write, get_run_self}
use top.Sound.Untouched.{untouched, set_validation-leases}

write_result-Effect :
    (run : Run) (digest : Text) (result : RunResult) (now : ℕ) (rows : List RunCase) (s : Store)
    → IsSound s
    → get_run s run.id ≡ some run
    → is_terminal result.status ≡ true
    → allowed run.status result.status ≡ true
    → is_some run.result_digest ≡ false
    → Effect s (write_result run digest result now rows s)
unfolding write_result enqueue_run_result_email update_run release_runner_slot result_event
write_result-Effect run digest result now rows s w known ends move fresh =
    Effect-write s
      (set_validation run.id result.status (
        release_runner_slot run.id now (
          update_run run.id (finish digest result) (record s {
            cases = rows;
            artifacts = artifact_rows run.id result.artifacts ++ s.artifacts;
          }))))
      _ run (finish digest result) (result_event digest result) w known
      (finish-RunStep digest result run ends move fresh) (simp untouched) (simp untouched)
      (simp (append_run_event-leases, set_validation-leases) (release-Closes run.id now _))
      (simp untouched) refl refl

accept_result-allowed :
    (run : Run) (result : RunResult) (s : Store) (rows : List RunCase)
    → accept_result run result s ≡ ok rows
    → allowed run.status result.status ≡ true
unfolding accept_result
accept_result-allowed run result s rows h =
    let (_, e, _) = call_returned (check (allowed run.status result.status) _) _ h in
    check-eq-ok _ _ e

valid_result-terminal :
    (result : RunResult) → valid_result result ≡ true → is_terminal result.status ≡ true
unfolding valid_result
valid_result-terminal result h = ground arith

recorded :
    (run : Run) (digest : Text) (same : Bool) (result : RunResult) (now : ℕ) (s t : Store)
    (created : Bool)
    → is_terminal result.status ≡ true
    → IsSound s
    → get_run s run.id ≡ some run
    → record_for run digest same result now s ≡ ok (t, created)
    → Effect s t
unfolding record_for
recorded run digest same result now s t created ends w known h =
    elim (Bool-cases (is_some run.result_digest)) [
      | inl q ↦ elim (Bool-cases (is_recorded digest same run.result_digest)) [
        | inl y ↦ subst (λ x. Effect s x) (ground arith) (Effect-refl s w)
        | inr n ↦ absurd (ground arith)
      ]
      | inr q ↦
          let h' : (accept_result run result s >>= λ rows.
          ok (write_result run digest result now rows s, true))
              ≡ ok (t, created) =
            rw q at h in
          let (rows, e, k) = call_returned (accept_result run result s) _ h' in
          subst (λ x. Effect s x) (ground arith)
            (write_result-Effect run digest result now rows s w known ends
              (accept_result-allowed run result s rows e) q)
    ]

-- Recording a result that its contract accepts keeps the invariant of the store.
pub record_run_result-Effect :
    (run_id : ℕ) (digest : Text) (same : Bool) (result : RunResult) (now : ℕ) (s t : Store)
    (created : Bool)
    → valid_result result ≡ true
    → record_run_result run_id digest same result now s ≡ ok (t, created)
    → IsSound s
    → Effect s t
unfolding record_run_result
record_run_result-Effect run_id digest same result now s t created valid h w =
    let (_, e1, h1) = call_returned (check (result.run_id == run_id) _) _ h in
    let (run, e2, h2) = call_returned (or_raise (get_run s run_id) _) _ h1 in
    let known = get_run_self s run_id run (or_raise-eq-ok _ _ e2) in
    recorded run digest same result now s t created (valid_result-terminal result valid) w known h2
