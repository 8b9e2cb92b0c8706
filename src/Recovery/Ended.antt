-- ===== src/Recovery/Ended.antt =====
-- The Runs that `_recover_run` ends, and the loops of the sweep.
use mathlib.Core.Path.{subst}
use top.Base.{
  ℕ, ◌≤◌, ◌≡◌, refl, Bool, true, false, inl, inr, some, List, [], ◌∷◌, arith, ◌==◌, All, All-map,
  count_where, update_where, first-update_where, Bool-cases, Option-cases,
}
use top.RunState.{allowed, is_terminal}
use top.RunState.Graph.{History-final}
use top.Store.{Store, get_run, update_run, active_of_run}
use top.Store.Rows.{Run, LeaseStatus}
use top.Dispatch.Capacity.{HasOneLease}
use top.Lifecycle.Freed.{close-leases}
use top.Recovery.Recover.{
  Verdict, append_reliability_event, end_run, end_cases, expire_lease, write_recovery, recover,
  recover_run,
}
use top.Recovery.Sweep.{Task, SweepSummary, counted, recover_all}
use top.Sound.Invariant.{IsSound}
use top.Sound.Kept.{Kept-self, Chain, Chain-Evolved}
use top.Sound.Recoveries.{write_recovery-runs, Ends, recover_run-Kept, recover_all-Kept}
use top.Sound.Untouched.{set_validation-leases}
use top.Sound.Writes.{get_run-id, get_run_self}

-- A Run that the sweep ended for the reason `v`.
pub record Recovered (id moment : ℕ) (v : Verdict) (t : Store) : Type 0 where
  pub row : Run
  pub known : get_run t id ≡ some row
  pub status : row.status ≡ v.target
  pub finished : row.finished_at ≡ some moment
  pub error : row.error_message ≡ some v.message
  pub freed : count_where (active_of_run id) t.leases ≡ 0

write_recovery-freed :
    (run : Run) (v : Verdict) (fresh moment : ℕ) (s : Store)
    → count_where (active_of_run run.id) s.leases ≤ 1
    → count_where (active_of_run run.id) (write_recovery run v fresh moment s).leases ≡ 0
unfolding write_recovery append_reliability_event end_cases update_run expire_lease
write_recovery-freed run v fresh moment s one = simp set_validation-leases (
    close-leases run.id (λ l. record l { status = LeaseStatus.expired; released_at = some moment })
      (record s { runs = update_where (λ x. x.id == run.id) (end_run v moment) s.runs }) (λ l. refl)
      one)

write_recovery-Recovered :
    (run : Run) (v : Verdict) (fresh moment : ℕ) (s : Store)
    → get_run s run.id ≡ some run
    → count_where (active_of_run run.id) s.leases ≤ 1
    → Recovered run.id moment v (write_recovery run v fresh moment s)
unfolding get_run end_run
write_recovery-Recovered run v fresh moment s known one = record {
  row = end_run v moment run;
  known = rw write_recovery-runs (
      first-update_where (λ x. x.id == run.id) (λ x. x.id == run.id) (end_run v moment) s.runs run
        (λ x. refl) known (ground arith));
  status = refl;
  finished = refl;
  error = refl;
  freed = write_recovery-freed run v fresh moment s one;
}

recover-Recovered :
    (run : Run) (v : Verdict) (fresh moment : ℕ) (s t : Store) (freed : Bool)
    → get_run s run.id ≡ some run
    → is_terminal run.status ≡ false
    → count_where (active_of_run run.id) s.leases ≤ 1
    → recover run v fresh moment s ≡ some (t, freed)
    → Recovered run.id moment v t
unfolding recover
recover-Recovered run v fresh moment s t freed known going one h =
    elim (Bool-cases (allowed run.status v.target)) [
      | inr n ↦ absurd (ground arith)
      | inl y ↦
          subst (Recovered run.id moment v) (ground arith)
            (write_recovery-Recovered run v fresh moment s known one)
    ]

-- A Run that the sweep recovers while it has not ended takes the status, the end and the message of
-- the verdict, and keeps no ACTIVE lease, where it had at most one.
pub recover_run-Recovered :
    (id : ℕ) (v : Verdict) (fresh moment : ℕ) (s t : Store) (run : Run) (freed : Bool)
    → recover_run id v fresh moment s ≡ some (t, freed)
    → get_run s id ≡ some run
    → is_terminal run.status ≡ false
    → HasOneLease s
    → Recovered id moment v t
unfolding recover_run
recover_run-Recovered id v fresh moment s t run freed h known going w =
    subst (λ n. Recovered n moment v t) (get_run-id s id run known)
      (recover-Recovered run v fresh moment s t freed (get_run_self s id run known) going
        (w.at_run run.id) (ground (arith, known)))

-- The Run of a task, where `s` has it, is there in `t` and has ended.
abbrev pub Done : Store → Store → Task → Type 0
Done s t (id, v) =
    (run : Run)
    → get_run s id ≡ some run
    → (row : Run) × (get_run t id ≡ some row) × (is_terminal row.status ≡ true)

-- A Run that has ended stays so.
stays_ended :
    (s t : Store) (id : ℕ) (run : Run)
    → Chain s.runs t.runs
    → get_run s id ≡ some run
    → is_terminal run.status ≡ true
    → (row : Run) × (get_run t id ≡ some row) × (is_terminal row.status ≡ true)
unfolding get_run
stays_ended s t id run c known ended =
    let (row, found, e) = Chain-Evolved id s.runs t.runs run c known in
    (row, found, rw (History-final e.history ended) ended)

recover_run-Done :
    (id : ℕ) (v : Verdict) (fresh moment : ℕ) (s t : Store) (freed : Bool)
    → is_terminal v.target ≡ true
    → recover_run id v fresh moment s ≡ some (t, freed)
    → IsSound s
    → Done s t (id, v)
unfolding recover_run recover
recover_run-Done id v fresh moment s t freed ends h w run known =
    elim (Bool-cases (is_terminal run.status)) [
      | inl e ↦
          let same : s ≡ t = ground (arith, known) in
          (run, subst (λ x. get_run x id ≡ some run) same known, e)
      | inr e ↦
          let r = recover_run-Recovered id v fresh moment s t run freed h known e w.one_lease in
          (r.row, r.known, rw r.status ends)
    ]

Done-after : (s m t : Store) (task : Task) → Chain s.runs m.runs → Done m t task → Done s t task
unfolding get_run
Done-after s m t (id, v) c d run known =
    let (row, found, e) = Chain-Evolved id s.runs m.runs run c known in d row found

pub Done-later : (s m t : Store) (task : Task) → Done s m task → Chain m.runs t.runs → Done s t task
Done-later s m t (id, v) d c run known =
    let (row, found, ended) = d run known in stays_ended m t id row c found ended

-- Each task of a loop of the sweep ends its Run.
pub recover_all-Done :
    (tasks : List Task) (fresh : ℕ → ℕ) (moment : ℕ) (s t : Store) (u u' : SweepSummary)
    → All Ends tasks
    → recover_all tasks fresh moment s u ≡ some (t, u')
    → IsSound s
    → All (Done s t) tasks
unfolding recover_all
recover_all-Done [] fresh moment s t u u' ends h w = tt
recover_all-Done ((id, v) ∷ tasks) fresh moment s t u u' ends h w =
    elim (Option-cases (recover_run id v (fresh id) moment s)) [
      | inl n ↦ absurd (ground arith)
      | inr ((m, freed), e) ↦
          let k =
            recover_run-Kept s.runs id v (fresh id) moment s m freed ends.0 e (Kept-self s w) in
          let rest : recover_all tasks fresh moment m (counted v.reason freed u) ≡ some (t, u') =
            ground arith in
          let c =
            recover_all-Kept m.runs tasks fresh moment m t _ u' ends.1 rest (Kept-self m k.sound) in
          (
            Done-later s m t (id, v) (recover_run-Done id v (fresh id) moment s m freed ends.0 e w)
                c.chain,
            All-map (Done m t) (Done s t) tasks (λ task. Done-after s m t task k.chain)
                (recover_all-Done tasks fresh moment m t _ u' ends.1 rest k.sound),
          )
    ]
