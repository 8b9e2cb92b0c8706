-- ===== src/Recovery/Deadlines.antt =====
-- The Runs that a sweep selects for their deadline (`timeout_runs` of
-- `process_run_reliability`).
use mathlib.Core.Path.{subst}
use top.Base.{ℕ, ◌-◌, ◌≡◌, Bool, true, some, List, [], ◌∷◌, arith, All, All-map}
use top.RunState.{is_terminal}
use top.Store.{Store, get_run}
use top.Store.Rows.{Run}
use top.Recovery.Sweep.{
  SweepSummary, no_recoveries, timeout_task, timeout_tasks, sweep_timeouts, sweep_lost,
  sweep_stalled, sweep_orphans, ◌>>=◌, sweep, process_run_reliability,
}
use top.Recovery.Select.{timeout_runs, orphaned_leases}
use top.Recovery.Counts.{part_returned}
use top.Recovery.Ended.{Done, Done-later, recover_all-Done}
use top.Sound.Invariant.{IsSound}
use top.Sound.Kept.{Kept, Kept-self}
use top.Sound.Recoveries.{recover_all-Kept}
use top.Sound.Sweeps.{timeout_tasks-Ends, lost_tasks-Ends, stalled_tasks-Ends, free_orphans-Kept}

-- The parts of the sweep behind the timeouts keep the Runs.
later_parts :
    (locked : ℕ → Bool) (fresh : ℕ → ℕ) (n moment ttl start_timeout : ℕ) (s t : Store)
    (u v : SweepSummary)
    → (sweep_lost locked fresh n moment ttl (s, u) >>= λ two.
        sweep_stalled locked fresh n moment start_timeout two >>= λ three.
        some (sweep_orphans locked n moment three))
      ≡ some (t, v)
    → IsSound s
    → Kept s.runs t
unfolding sweep_lost sweep_stalled sweep_orphans
later_parts locked fresh n moment ttl start_timeout s t u v h w =
    let ((s2, t2), e2, h2) = part_returned (sweep_lost locked fresh n moment ttl (s, u)) _ h in
    let ((s3, t3), e3, h3) =
      part_returned (sweep_stalled locked fresh n moment start_timeout (s2, t2)) _ h2 in
    let w2 =
      recover_all-Kept s.runs _ fresh moment s s2 u t2 (lost_tasks-Ends _) e2 (Kept-self s w) in
    let w3 = recover_all-Kept s.runs _ fresh moment s2 s3 t2 t3 (stalled_tasks-Ends _) e3 w2 in
    subst (Kept s.runs) (ground arith)
      (free_orphans-Kept s.runs (orphaned_leases locked (n - t3.selected) s3) moment s3 t3 w3)

-- The Run has ended in `t`, where `s` has it.
abbrev pub HasEnded : Store → Store → Run → Type 0
HasEnded s t r =
    (run : Run)
    → get_run s r.id ≡ some run
    → (row : Run) × (get_run t r.id ≡ some row) × (is_terminal row.status ≡ true)

tasks-HasEnded :
    (s t : Store) (rs : List Run) → All (Done s t) (timeout_tasks rs) → All (HasEnded s t) rs
unfolding timeout_tasks timeout_task
tasks-HasEnded s t [] all = tt
tasks-HasEnded s t (r ∷ rs) all = (all.0, tasks-HasEnded s t rs all.1)

sweep-HasEnded :
    (locked : ℕ → Bool) (fresh : ℕ → ℕ) (n moment ttl start_timeout : ℕ) (s t : Store)
    (u : SweepSummary)
    → sweep locked fresh n moment ttl start_timeout s ≡ some (t, u)
    → IsSound s
    → All (HasEnded s t) (timeout_runs locked n moment s)
unfolding sweep sweep_timeouts
sweep-HasEnded locked fresh n moment ttl start_timeout s t u h w =
    let ((s1, t1), e1, h1) = part_returned (sweep_timeouts locked fresh n moment s) _ h in
    let rs = timeout_runs locked n moment s in
    let ends = timeout_tasks-Ends rs in
    let k =
      recover_all-Kept s.runs (timeout_tasks rs) fresh moment s s1 no_recoveries t1 ends e1
        (Kept-self s w) in
    let rest = later_parts locked fresh n moment ttl start_timeout s1 t t1 u h1 k.sound in
    tasks-HasEnded s t rs (
      All-map (Done s s1) (Done s t) (timeout_tasks rs)
        (λ task d. Done-later s s1 t task d rest.chain)
        (recover_all-Done (timeout_tasks rs) fresh moment s s1 no_recoveries t1 ends e1 w))

-- After a sweep that does not raise, every Run that it selected for its deadline has ended.
pub process_run_reliability-HasEnded :
    (locked : ℕ → Bool) (fresh : ℕ → ℕ) (n moment ttl start_timeout : ℕ) (s t : Store)
    (u : SweepSummary)
    → process_run_reliability locked fresh n moment ttl start_timeout s ≡ some (t, u)
    → IsSound s
    → All (HasEnded s t) (timeout_runs locked n moment s)
unfolding process_run_reliability
process_run_reliability-HasEnded locked fresh n moment ttl start_timeout s t u h w =
    sweep-HasEnded locked fresh n moment ttl start_timeout s t u (ground arith) w
