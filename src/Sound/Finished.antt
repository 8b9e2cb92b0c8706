-- ===== src/Sound/Finished.antt =====
-- The sweep takes a Run along one transition at most, to a terminal status.
use mathlib.Core.Path.{subst}
use top.Base.{
  ℕ, ◌-◌, ◌≡◌, refl, sym, Bool, true, inl, inr, some, List, [], ◌∷◌, arith, All, Bool-cases,
  Option-cases,
}
use top.RunState.{allowed, is_terminal}
use top.Store.{Store, get_run, update_lease}
use top.Store.Rows.{Run}
use top.Recovery.Recover.{Verdict, write_recovery, end_run, recover, recover_run}
use top.Recovery.Select.{Held, orphaned_leases}
use top.Recovery.Sweep.{
  SweepSummary, no_recoveries, counted, recover_all, free_orphans, sweep_timeouts, sweep_lost,
  sweep_stalled, sweep_orphans, sweep, process_run_reliability,
}
use top.Recovery.Sweep as SweepParts
use top.Recovery.Counts.{part_returned}
use top.Sound.Writes.{get_run_self}
use top.Sound.Recoveries.{Ends, write_recovery-runs}
use top.Sound.Sweeps.{timeout_tasks-Ends, lost_tasks-Ends, stalled_tasks-Ends}
use top.Sound.Follows.{Finishes, Follows, Follows-same, update-Follows}
use top.Sound.Moved.{stays, chain}

recover-Follows :
    (run : Run) (v : Verdict) (fresh moment : ℕ) (s t : Store) (freed : Bool)
    → is_terminal v.target ≡ true
    → get_run s run.id ≡ some run
    → recover run v fresh moment s ≡ some (t, freed)
    → Follows Finishes s.runs t.runs
unfolding recover get_run end_run
recover-Follows run v fresh moment s t freed ends known h =
    elim (Bool-cases (is_terminal run.status)) [
      | inl e ↦ Follows-same Finishes s.runs t.runs stays (ground arith)
      | inr e ↦ elim (Bool-cases (allowed run.status v.target)) [
        | inr n ↦ absurd (ground arith)
        | inl y ↦
            let same_store : write_recovery run v fresh moment s ≡ t = ground arith in
            subst (λ x. Follows Finishes s.runs x.runs) same_store
              (subst (Follows Finishes s.runs) (sym (write_recovery-runs run v fresh moment s)) (
                update-Follows Finishes run.id (end_run v moment) s.runs stays (λ x. refl)
                  (λ r found.
                    (let same_run : run ≡ r = ground arith in
                      subst (λ x. Finishes x.status v.target) same_run (inr (y, ends))))))
      ]
    ]

recover_run-Follows :
    (id : ℕ) (v : Verdict) (fresh moment : ℕ) (s t : Store) (freed : Bool)
    → is_terminal v.target ≡ true
    → recover_run id v fresh moment s ≡ some (t, freed)
    → Follows Finishes s.runs t.runs
unfolding recover_run
recover_run-Follows id v fresh moment s t freed ends h = elim (Option-cases (get_run s id)) [
  | inl n ↦ Follows-same Finishes s.runs t.runs stays (ground arith)
  | inr (run, q) ↦
      recover-Follows run v fresh moment s t freed ends (get_run_self s id run q) (ground arith)
]

recover_all-Follows :
    (tasks : List SweepParts.Task) (fresh : ℕ → ℕ) (moment : ℕ) (s t : Store) (u u' : SweepSummary)
    → All Ends tasks
    → recover_all tasks fresh moment s u ≡ some (t, u')
    → Follows Finishes s.runs t.runs
unfolding recover_all
recover_all-Follows [] fresh moment s t u u' ends h =
    Follows-same Finishes s.runs t.runs stays (ground arith)
recover_all-Follows ((id, v) ∷ tasks) fresh moment s t u u' ends h =
    elim (Option-cases (recover_run id v (fresh id) moment s)) [
      | inl n ↦ absurd (ground arith)
      | inr ((m, freed), e) ↦
          chain s.runs m.runs t.runs (recover_run-Follows id v (fresh id) moment s m freed ends.0 e)
            (recover_all-Follows tasks fresh moment m t (counted v.reason freed u) u' ends.1
              (ground arith))
    ]

free_orphans-runs :
    (hs : List Held) (moment : ℕ) (s : Store) (t : SweepSummary)
    → (free_orphans hs moment s t).0.runs ≡ s.runs
unfolding free_orphans update_lease
free_orphans-runs [] moment s t = refl
free_orphans-runs (h ∷ hs) moment s t = free_orphans-runs hs moment _ _

sweep-Follows :
    (locked : ℕ → Bool) (fresh : ℕ → ℕ) (n moment ttl start_timeout : ℕ) (s s' : Store)
    (t : SweepSummary)
    → sweep locked fresh n moment ttl start_timeout s ≡ some (s', t)
    → Follows Finishes s.runs s'.runs
unfolding sweep sweep_timeouts sweep_lost sweep_stalled sweep_orphans
sweep-Follows locked fresh n moment ttl start_timeout s s' t h =
    let ((s1, t1), e1, h1) = part_returned (sweep_timeouts locked fresh n moment s) _ h in
    let ((s2, t2), e2, h2) = part_returned (sweep_lost locked fresh n moment ttl (s1, t1)) _ h1 in
    let ((s3, t3), e3, h3) =
      part_returned (sweep_stalled locked fresh n moment start_timeout (s2, t2)) _ h2 in
    let w1 = recover_all-Follows _ fresh moment s s1 no_recoveries t1 (timeout_tasks-Ends _) e1 in
    let w2 = recover_all-Follows _ fresh moment s1 s2 t1 t2 (lost_tasks-Ends _) e2 in
    let w3 = recover_all-Follows _ fresh moment s2 s3 t2 t3 (stalled_tasks-Ends _) e3 in
    let freed = free_orphans (orphaned_leases locked (n - t3.selected) s3) moment s3 t3 in
    let ended : freed.0 ≡ s' = ground arith in
    subst (λ (x : Store). Follows Finishes s.runs x.runs) ended
      (subst (Follows Finishes s.runs)
        (sym (free_orphans-runs (orphaned_leases locked (n - t3.selected) s3) moment s3 t3))
        (chain s.runs s2.runs s3.runs (chain s.runs s1.runs s2.runs w1 w2) w3))

pub process_run_reliability-Follows :
    (locked : ℕ → Bool) (fresh : ℕ → ℕ) (n moment ttl start_timeout : ℕ) (s s' : Store)
    (t : SweepSummary)
    → process_run_reliability locked fresh n moment ttl start_timeout s ≡ some (s', t)
    → Follows Finishes s.runs s'.runs
unfolding process_run_reliability
process_run_reliability-Follows locked fresh n moment ttl start_timeout s s' t h =
    sweep-Follows locked fresh n moment ttl start_timeout s s' t (ground arith)
