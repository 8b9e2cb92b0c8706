-- ===== src/Sound/Sweeps.antt =====
-- The whole sweep (`process_run_reliability`) and the invariant.
use top.Base.{ℕ, ◌-◌, ◌≡◌, refl, Bool, some, List, [], ◌∷◌, arith, All}
use mathlib.Core.Path.{subst}
use top.RunState.{is_terminal}
use top.Store.{Store, update_lease}
use top.Store.Rows.{Run, LeaseStatus}
use top.Lifecycle.Steps.{Steps-refl}
use top.Recovery.Sweep.{
  SweepSummary, no_recoveries, timeout_task, timeout_tasks, lost_tasks, stalled_tasks, free_orphans,
  sweep_timeouts, sweep_lost, sweep_stalled, sweep_orphans, sweep, process_run_reliability,
}
use top.Recovery.Select.{Held, orphaned_leases}
use top.Recovery.Counts.{part_returned}
use top.Sound.Kept.{Kept, Effect-Kept}
use top.Sound.Writes.{update_lease-Closes}
use top.Sound.Recoveries.{Ends, recover_all-Kept}

pub timeout_tasks-Ends : (rs : List Run) → All Ends (timeout_tasks rs)
unfolding timeout_tasks timeout_task is_terminal
timeout_tasks-Ends [] = tt
timeout_tasks-Ends (r ∷ rs) = (refl, timeout_tasks-Ends rs)

pub lost_tasks-Ends : (hs : List Held) → All Ends (lost_tasks hs)
unfolding lost_tasks is_terminal
lost_tasks-Ends [] = tt
lost_tasks-Ends (h ∷ hs) = (refl, lost_tasks-Ends hs)

pub stalled_tasks-Ends : (hs : List Held) → All Ends (stalled_tasks hs)
unfolding stalled_tasks is_terminal
stalled_tasks-Ends [] = tt
stalled_tasks-Ends (h ∷ hs) = (refl, stalled_tasks-Ends hs)

pub free_orphans-Kept :
    (rs : List Run) (hs : List Held) (moment : ℕ) (s : Store) (t : SweepSummary)
    → Kept rs s
    → Kept rs (free_orphans hs moment s t).0
unfolding free_orphans update_lease
free_orphans-Kept rs [] moment s t w = w
free_orphans-Kept rs (h ∷ hs) moment s t w =
    let closes =
      update_lease-Closes h.lease.id
        (λ l. record l { status = LeaseStatus.released; released_at = some moment }) s.leases
        (λ x. (refl, refl)) (λ x e. cc) in
    free_orphans-Kept rs hs moment _ _ (
      Effect-Kept rs s _
        (record {
          runs = Steps-refl s.runs;
          pools = refl;
          fewer_of_run = closes.fewer_of_run;
          fewer_in_pool = closes.fewer_in_pool;
          log = w.sound.log;
          ended = w.sound.ended;
        })
        w)

sweep-Kept :
    (rs : List Run) (locked : ℕ → Bool) (fresh : ℕ → ℕ) (n moment ttl start_timeout : ℕ)
    (s s' : Store) (t : SweepSummary)
    → sweep locked fresh n moment ttl start_timeout s ≡ some (s', t)
    → Kept rs s
    → Kept rs s'
unfolding sweep sweep_timeouts sweep_lost sweep_stalled sweep_orphans
sweep-Kept rs locked fresh n moment ttl start_timeout s s' t h w =
    let ((s1, t1), e1, h1) = part_returned (sweep_timeouts locked fresh n moment s) _ h in
    let ((s2, t2), e2, h2) = part_returned (sweep_lost locked fresh n moment ttl (s1, t1)) _ h1 in
    let ((s3, t3), e3, h3) =
      part_returned (sweep_stalled locked fresh n moment start_timeout (s2, t2)) _ h2 in
    let w1 = recover_all-Kept rs _ fresh moment s s1 no_recoveries t1 (timeout_tasks-Ends _) e1 w in
    let w2 = recover_all-Kept rs _ fresh moment s1 s2 t1 t2 (lost_tasks-Ends _) e2 w1 in
    let w3 = recover_all-Kept rs _ fresh moment s2 s3 t2 t3 (stalled_tasks-Ends _) e3 w2 in
    subst (Kept rs) (ground arith)
      (free_orphans-Kept rs (orphaned_leases locked (n - t3.selected) s3) moment s3 t3 w3)

-- A sweep that does not raise keeps the invariant and the Runs.
pub process_run_reliability-Kept :
    (rs : List Run) (locked : ℕ → Bool) (fresh : ℕ → ℕ) (n moment ttl start_timeout : ℕ)
    (s s' : Store) (t : SweepSummary)
    → process_run_reliability locked fresh n moment ttl start_timeout s ≡ some (s', t)
    → Kept rs s
    → Kept rs s'
unfolding process_run_reliability
process_run_reliability-Kept rs locked fresh n moment ttl start_timeout s s' t h w =
    sweep-Kept rs locked fresh n moment ttl start_timeout s s' t (ground arith) w
