-- ===== src/Recovery/Blocked.antt =====
-- Runs that are PREPARING at their deadline, and the sweep of reliability_services.py.
use top.Base.{
  ℕ, ◌≡◌, ◌∙◌, refl, sym, Bool, false, inl, inr, none, some, List, [], ◌∷◌, arith, ◌==◌,
  Option-cases, Bool-cases, first, update_where,
}
use mathlib.Core.Path.{subst}
use top.Contracts.{RunStatus}
use top.RunState.{allowed, is_terminal}
use top.Store.{Store, get_run}
use top.Store.Rows.{Run}
use top.Recovery.Recover.{Verdict, end_run, write_recovery, recover, recover_run}
use top.Recovery.Sweep.{
  SweepSummary, no_recoveries, recover_all, timeout_task, timeout_tasks, sweep_timeouts, sweep,
  process_run_reliability,
}
use top.Recovery.Select.{timeout_runs}
use top.Sound.Recoveries.{write_recovery-runs}
use top.Sound.Writes.{get_run-id}

-- Ending one Run leaves every other Run as it was.
first_other :
    (v : Verdict) (moment a b : ℕ) (rs : List Run)
    → (a == b) ≡ false
    → first (λ r. r.id == b) (update_where (λ r. r.id == a) (end_run v moment) rs)
      ≡ first (λ r. r.id == b) rs
unfolding first update_where end_run
first_other v moment a b [] h = refl
first_other v moment a b (r ∷ rs) h = elim (Bool-cases (r.id == a)) [
  | inl e ↦ ground (arith, first_other v moment a b rs h)
  | inr e ↦ ground (arith, first_other v moment a b rs h)
]

get_run-recover :
    (a b : ℕ) (v : Verdict) (fresh moment : ℕ) (s t : Store) (run : Run) (freed : Bool)
    → (a == b) ≡ false
    → run.id ≡ a
    → recover run v fresh moment s ≡ some (t, freed)
    → get_run t b ≡ get_run s b
unfolding recover get_run
get_run-recover a b v fresh moment s t run freed apart named h =
    elim (Bool-cases (is_terminal run.status)) [
      | inl e ↦ ground arith
      | inr e ↦
          let runs = write_recovery-runs run v fresh moment s in
          let done : t ≡ write_recovery run v fresh moment s = ground arith in
          let other = first_other v moment run.id b s.runs (rw named apart) in
          subst (λ x. first (λ r. r.id == b) x.runs ≡ first (λ r. r.id == b) s.runs) (sym done)
            (rw runs other)
    ]

get_run-recover_run :
    (a b : ℕ) (v : Verdict) (fresh moment : ℕ) (s t : Store) (freed : Bool)
    → (a == b) ≡ false
    → recover_run a v fresh moment s ≡ some (t, freed)
    → get_run t b ≡ get_run s b
unfolding recover_run
get_run-recover_run a b v fresh moment s t freed apart h = elim (Option-cases (get_run s a)) [
  | inl n ↦ ground arith
  | inr (run, q) ↦
      get_run-recover a b v fresh moment s t run freed apart (get_run-id s a run q) (ground arith)
]

recover_run-none :
    (run : Run) (v : Verdict) (fresh moment : ℕ) (s : Store)
    → get_run s run.id ≡ some run
    → run.status ≡ RunStatus.preparing
    → v.target ≡ RunStatus.timed_out
    → recover_run run.id v fresh moment s ≡ none
unfolding recover_run recover is_terminal allowed
recover_run-none run v fresh moment s known preparing target =
    rw (known, recover_run) (rw (preparing, target) refl)

-- The loop over the timeouts raises when its turn comes to such a Run.
timeouts_raise :
    (rs : List Run) (run : Run) (fresh : ℕ → ℕ) (moment : ℕ) (s : Store) (t : SweepSummary)
    → first (λ r. r.id == run.id) rs ≡ some run
    → get_run s run.id ≡ some run
    → run.status ≡ RunStatus.preparing
    → recover_all (timeout_tasks rs) fresh moment s t ≡ none
unfolding recover_all timeout_tasks first timeout_task
timeouts_raise [] run fresh moment s t h known preparing = absurd (ground arith)
timeouts_raise (r ∷ rs) run fresh moment s t h known preparing =
    let v = (timeout_task r).1 in
    elim (Bool-cases (r.id == run.id)) [
      | inl e ↦
          let same : r ≡ run = ground arith in
          rw same (
            rw
              (
                recover_run-none run (timeout_task run).1 (fresh run.id) moment s known preparing
                    refl,
                recover_all,
              )
              refl)
      | inr e ↦ elim (Option-cases (recover_run r.id v (fresh r.id) moment s)) [
        | inl n ↦ rw (n, recover_all) refl
        | inr ((m, freed), q) ↦
            let kept = get_run-recover_run r.id run.id v (fresh r.id) moment s m freed e q in
            rw (q, recover_all)
              (timeouts_raise rs run fresh moment m _ (ground arith) (kept ∙ known) preparing)
      ]
    ]

-- A sweep that selects a PREPARING Run whose deadline has passed raises, whatever else it selected.
pub process_run_reliability-none :
    (locked : ℕ → Bool) (fresh : ℕ → ℕ) (n moment ttl start_timeout : ℕ) (s : Store) (run : Run)
    → first (λ r. r.id == run.id) (timeout_runs locked n moment s) ≡ some run
    → get_run s run.id ≡ some run
    → run.status ≡ RunStatus.preparing
    → process_run_reliability locked fresh n moment ttl start_timeout s ≡ none
unfolding process_run_reliability sweep sweep_timeouts
process_run_reliability-none locked fresh n moment ttl start_timeout s run chosen known preparing =
    let raised =
      timeouts_raise (timeout_runs locked n moment s) run fresh moment s no_recoveries chosen known
        preparing in
    ground (arith, raised)
