-- ===== src/Lifecycle/Outcome.antt =====
-- What a Run, its cases and its lease are after a result is recorded.
use mathlib.Core.Path.{subst}
use top.Base.{
  ℕ, ◌≤◌, ◌≡◌, ◌∙◌, refl, Bool, true, false, inl, inr, Option, none, some, List, [], ◌∷◌, map,
  arith, ◌==◌, All, any, first-some, is_some, first, update_where, first-update_where, count_where,
  Bool-cases, str_eq,
}
use top.Contracts.{RunStatus, RunResult, CaseResult, Artifact, Text}
use top.RunState.{allowed}
use top.Service.{
  ServiceError, ok, ◌>>=◌, check, or_raise, call_returned, check-eq-ok, or_raise-eq-ok,
}
use top.Store.{Store, get_run, update_run, active_of_run, update_lease}
use top.Store.Rows.{Run, RunCase, Lease, of_result}
use top.Dispatch.Capacity.{HasOneLease}
use top.Lifecycle.Events.{NewEvent, append_run_event}
use top.Lifecycle.Emails.{enqueue_run_result_email}
use top.Lifecycle.Results.{
  finish, write_result, accept_result, record_for, is_recorded, record_run_result,
  release_runner_slot, on_lease, mem_id, distinct, is_row, with_result, apply_case_results,
  set_validation, same_ids, cases_of, statuses_agree, refs_known, free_artifacts,
}
use top.Lifecycle.Repeat.{get_run-write_result}
use top.Lifecycle.Freed.{release-leases}
use top.Sound.Untouched.{set_validation-leases}
use top.Sound.Log.{append_run_event-leases}
use top.Sound.Writes.{get_run-id, get_run_self}

-- The row of a case result.
abbrev Reported : ℕ → List RunCase → CaseResult → Type 0
Reported run rows c =
    (row : RunCase) × (first (is_row run c.case_id) rows ≡ some row)
    × (row.status ≡ of_result c.status)

first_other :
    (run a b : ℕ) (r : CaseResult) (rows : List RunCase)
    → (a == b) ≡ false
    → first (is_row run b) (update_where (is_row run a) (with_result r) rows)
      ≡ first (is_row run b) rows
unfolding first update_where with_result
first_other run a b r [] h = refl
first_other run a b r (c ∷ cs) h = elim (Bool-cases (is_row run a c)) [
  | inl e ↦ ground (arith, first_other run a b r cs h)
  | inr e ↦ ground (arith, first_other run a b r cs h)
]

apply-other :
    (run id : ℕ) (rs : List CaseResult) (rows rows' : List RunCase)
    → mem_id id (map (λ (c : CaseResult). c.case_id) rs) ≡ false
    → apply_case_results run rs rows ≡ ok rows'
    → first (is_row run id) rows' ≡ first (is_row run id) rows
unfolding apply_case_results mem_id any
apply-other run id [] rows rows' m h = ground arith
apply-other run id (r ∷ rs) rows rows' m h =
    let (stored, e1, h1) = call_returned (or_raise (first (is_row run r.case_id) rows) _) _ h in
    let (_, e2, h2) = call_returned (check (str_eq stored.case_code r.case_code) _) _ h1 in
    apply-other run id rs _ rows' (ground arith) h2
    ∙ first_other run r.case_id id r rows (ground arith)

apply-Reported :
    (run : ℕ) (rs : List CaseResult) (rows rows' : List RunCase)
    → distinct (map (λ (c : CaseResult). c.case_id) rs) ≡ true
    → apply_case_results run rs rows ≡ ok rows'
    → All (Reported run rows') rs
unfolding apply_case_results distinct
apply-Reported run [] rows rows' d h = tt
apply-Reported run (r ∷ rs) rows rows' d h =
    let (stored, e1, h1) = call_returned (or_raise (first (is_row run r.case_id) rows) _) _ h in
    let (_, e2, h2) = call_returned (check (str_eq stored.case_code r.case_code) _) _ h1 in
    let found = or_raise-eq-ok _ _ e1 in
    let now_there =
      first-update_where (is_row run r.case_id) (is_row run r.case_id) (with_result r) rows stored
        (λ y. unfold with_result in refl) found (first-some (is_row run r.case_id) rows found) in
    (
      (
        with_result r stored,
        apply-other run r.case_id rs _ rows' (ground arith) h2 ∙ now_there,
        unfold with_result in refl,
      ),
      apply-Reported run rs _ rows' (ground arith) h2,
    )

accept_result-cases :
    (run : Run) (result : RunResult) (s : Store) (rows : List RunCase)
    → accept_result run result s ≡ ok rows
    → All (Reported run.id rows) result.case_results
unfolding accept_result
accept_result-cases run result s rows h =
    let (_, _, h1) = call_returned (check (allowed run.status result.status) _) _ h in
    let (_, d, h2) =
      call_returned (check (distinct (map (λ (c : CaseResult). c.case_id) result.case_results)) _) _
        h1 in
    let ids = map (λ (c : CaseResult). c.case_id) result.case_results in
    let known = map (λ (c : RunCase). c.case_id) (cases_of run.id s.cases) in
    let (_, _, h3) = call_returned (check (same_ids ids known) ServiceError.invalid) _ h2 in
    let (_, _, h4) =
      call_returned (check (statuses_agree result.status result.case_results) ServiceError.invalid)
        _ h3 in
    let (rows', e, h5) =
      call_returned (apply_case_results run.id result.case_results s.cases) _ h4 in
    let (_, _, h6) =
      call_returned
        (check (distinct (map (λ (a : Artifact). a.artifact_id) result.artifacts))
          ServiceError.invalid)
        _ h5 in
    let (_, _, h7) = call_returned (check (refs_known result) ServiceError.invalid) _ h6 in
    let (_, _, h8) =
      call_returned (check (free_artifacts result.artifacts s.artifacts) ServiceError.conflict) _
        h7 in
    let same : rows' ≡ rows = ground arith in
    rw same at (apply-Reported run.id result.case_results s.cases rows' (check-eq-ok _ _ d) e)

append_run_event-cases :
    (run : ℕ) (n : NewEvent) (s : Store) → (append_run_event run n s).0.cases ≡ s.cases
unfolding append_run_event
append_run_event-cases run n s = ground arith

set_validation-cases :
    (run : ℕ) (status : RunStatus) (s : Store) → (set_validation run status s).cases ≡ s.cases
unfolding set_validation
set_validation-cases run status s = ground arith

on_lease-cases :
    (o : Option Lease) (f : Lease → Lease) (s : Store) → (on_lease o f s).cases ≡ s.cases
unfolding update_lease
on_lease-cases none f s = refl
on_lease-cases (some l) f s = refl

write_result-cases :
    (run : Run) (digest : Text) (result : RunResult) (now : ℕ) (rows : List RunCase) (s : Store)
    → (write_result run digest result now rows s).cases ≡ rows
unfolding write_result enqueue_run_result_email update_run release_runner_slot
write_result-cases run digest result now rows s =
    simp (append_run_event-cases, set_validation-cases, on_lease-cases)

write_result-leases :
    (run : Run) (digest : Text) (result : RunResult) (now : ℕ) (rows : List RunCase) (s : Store)
    → count_where (active_of_run run.id) s.leases ≤ 1
    → count_where (active_of_run run.id) (write_result run digest result now rows s).leases ≡ 0
unfolding write_result enqueue_run_result_email update_run
write_result-leases run digest result now rows s one =
    simp (append_run_event-leases, set_validation-leases) (release-leases run.id now _ one)

-- What the store says of a Run whose result is recorded.
pub record Concluded (run_id : ℕ) (digest : Text) (result : RunResult) (t : Store) : Type 0 where
  pub row : Run
  pub known : get_run t run_id ≡ some row
  pub status : row.status ≡ result.status
  pub digest_is : row.result_digest ≡ some digest
  pub document : row.result_document ≡ some result
  pub cases : All (Reported run_id t.cases) result.case_results
  pub freed : count_where (active_of_run run_id) t.leases ≡ 0

write_result-Concluded :
    (run : Run) (digest : Text) (result : RunResult) (now : ℕ) (rows : List RunCase) (s : Store)
    → get_run s run.id ≡ some run
    → All (Reported run.id rows) result.case_results
    → count_where (active_of_run run.id) s.leases ≤ 1
    → Concluded run.id digest result (write_result run digest result now rows s)
unfolding finish
write_result-Concluded run digest result now rows s known all one = record {
  row = finish digest result run;
  known = get_run-write_result run digest result now rows s known;
  status = refl;
  digest_is = refl;
  document = refl;
  cases = rw write_result-cases all;
  freed = write_result-leases run digest result now rows s one;
}

recorded-Concluded :
    (run : Run) (digest : Text) (matches : Bool) (result : RunResult) (now : ℕ) (s t : Store)
    → get_run s run.id ≡ some run
    → record_for run digest matches result now s ≡ ok (t, true)
    → count_where (active_of_run run.id) s.leases ≤ 1
    → Concluded run.id digest result t
unfolding record_for
recorded-Concluded run digest matches result now s t known h one =
    elim (Bool-cases (is_some run.result_digest)) [
      | inl q ↦ elim (Bool-cases (is_recorded digest matches run.result_digest)) [
        | inl y ↦ absurd (ground arith)
        | inr n ↦ absurd (ground arith)
      ]
      | inr q ↦
          let h' : (accept_result run result s >>= λ rows.
          ok (write_result run digest result now rows s, true))
              ≡ ok (t, true) =
            rw q at h in
          let (rows, e, k) = call_returned (accept_result run result s) _ h' in
          subst (Concluded run.id digest result) (ground arith) (
            write_result-Concluded run digest result now rows s known
              (accept_result-cases run result s rows e) one)
    ]

-- A result that is recorded for the first time sets the Run's status, digest and document, gives
-- each reported case its status, and leaves the Run without an ACTIVE lease, where it had at most
-- one.
pub record_run_result-Concluded :
    (run_id : ℕ) (digest : Text) (matches : Bool) (result : RunResult) (now : ℕ) (s t : Store)
    → record_run_result run_id digest matches result now s ≡ ok (t, true)
    → HasOneLease s
    → Concluded run_id digest result t
unfolding record_run_result
record_run_result-Concluded run_id digest matches result now s t h w =
    let (_, e1, h1) = call_returned (check (result.run_id == run_id) _) _ h in
    let (run, e2, h2) = call_returned (or_raise (get_run s run_id) _) _ h1 in
    let found = or_raise-eq-ok _ _ e2 in
    subst (λ n. Concluded n digest result t) (get_run-id s run_id run found)
      (recorded-Concluded run digest matches result now s t (get_run_self s run_id run found) h2
        (w.at_run run.id))
