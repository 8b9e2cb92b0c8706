-- ===== src/Recovery/Counts.antt =====
-- The counts that a sweep reports.
use top.Base.{
  ℕ, ◌+◌, ◌-◌, ◌≤◌, ◌≡◌, refl, ◌∙◌, Bool, true, false, inl, inr, Option, none, some, List, [], ◌∷◌,
  arith, Option-cases, length, length-limit,
}
use mathlib.Core.Path.{subst}
use top.Store.{Store, update_lease}
use top.Store.Rows.{Run, Recovery, LeaseStatus}
use top.Recovery.Recover.{recover_run}
use top.Recovery.Sweep.{
  Task, SweepSummary, no_recoveries, counted, recover_all, timeout_task, timeout_tasks, lost_tasks,
  stalled_tasks, free_orphans, sweep_timeouts, sweep_lost, sweep_stalled, sweep_orphans, ◌>>=◌,
  sweep, process_run_reliability,
}
use top.Recovery.Select.{timeout_runs, Held, stale_rows, stalled_rows, orphaned_leases}

abbrev same_recovery : Recovery → Recovery → Bool
same_recovery Recovery.timed_out Recovery.timed_out = true
same_recovery Recovery.runner_lost Recovery.runner_lost = true
same_recovery Recovery.dispatch_stalled Recovery.dispatch_stalled = true
same_recovery _ _ = false

-- The counter of a reason.
abbrev count_of : Recovery → SweepSummary → ℕ
count_of Recovery.timed_out t = t.timed_out
count_of Recovery.runner_lost t = t.runner_lost
count_of Recovery.dispatch_stalled t = t.dispatch_stalled

abbrev one_if : Bool → ℕ
one_if true = 1
one_if false = 0

-- The tasks of a reason.
tasks_of : Recovery → List Task → ℕ
tasks_of q [] = 0
tasks_of q ((id, v) ∷ tasks) = one_if (same_recovery q v.reason) + tasks_of q tasks

-- What a loop adds to the counters: its tasks, each under its reason, and a lease for each at most.
record Added (tasks : List Task) (t t' : SweepSummary) : Type 0 where
  selected : t'.selected ≡ t.selected + length tasks
  reasons : (q : Recovery) → count_of q t' ≡ count_of q t + tasks_of q tasks
  more : t.leases_released ≤ t'.leases_released
  bounded : t'.leases_released ≤ t.leases_released + length tasks

counted-reason :
    (q r : Recovery) (freed : Bool) (t : SweepSummary)
    → count_of q (counted r freed t) ≡ count_of q t + one_if (same_recovery q r)
counted-reason Recovery.timed_out Recovery.timed_out freed t = refl
counted-reason Recovery.timed_out Recovery.runner_lost freed t = omega arith
counted-reason Recovery.timed_out Recovery.dispatch_stalled freed t = omega arith
counted-reason Recovery.runner_lost Recovery.timed_out freed t = omega arith
counted-reason Recovery.runner_lost Recovery.runner_lost freed t = refl
counted-reason Recovery.runner_lost Recovery.dispatch_stalled freed t = omega arith
counted-reason Recovery.dispatch_stalled Recovery.timed_out freed t = omega arith
counted-reason Recovery.dispatch_stalled Recovery.runner_lost freed t = omega arith
counted-reason Recovery.dispatch_stalled Recovery.dispatch_stalled freed t = refl

counted-selected :
    (r : Recovery) (freed : Bool) (t : SweepSummary)
    → ((counted r freed t).selected ≡ t.selected + 1)
      × (t.leases_released ≤ (counted r freed t).leases_released)
      × ((counted r freed t).leases_released ≤ t.leases_released + 1)
counted-selected r freed t = ground arith

recover_all-Added :
    (tasks : List Task) (fresh : ℕ → ℕ) (moment : ℕ) (s s' : Store) (t t' : SweepSummary)
    → recover_all tasks fresh moment s t ≡ some (s', t')
    → Added tasks t t'
unfolding recover_all tasks_of
recover_all-Added [] fresh moment s s' t t' h =
    let same : t ≡ t' = ground arith in
    subst (λ x. Added [] t x) same
      (record {
        selected = omega arith;
        reasons = λ q. omega arith;
        more = omega arith;
        bounded = omega arith;
      })
recover_all-Added ((id, v) ∷ tasks) fresh moment s s' t t' h =
    elim (Option-cases (recover_run id v (fresh id) moment s)) [
      | inl q ↦ absurd (ground arith)
      | inr ((m, freed), e) ↦
          let (one, more, fewer) = counted-selected v.reason freed t in
          let rest =
            recover_all-Added tasks fresh moment m s' (counted v.reason freed t) t'
              (ground arith) in
          record {
            selected = omega (arith, one, rest.selected);
            reasons = λ q. omega (arith, counted-reason q v.reason freed t, rest.reasons q);
            more = omega (arith, more, rest.more);
            bounded = omega (arith, fewer, rest.bounded);
          }
    ]

-- The loops: the length of the tasks, and their reason.
timeout_tasks-reasons :
    (rs : List Run)
    → (length (timeout_tasks rs) ≡ length rs)
      × (tasks_of Recovery.timed_out (timeout_tasks rs) ≡ length rs)
      × (tasks_of Recovery.runner_lost (timeout_tasks rs) ≡ 0)
      × (tasks_of Recovery.dispatch_stalled (timeout_tasks rs) ≡ 0)
unfolding timeout_tasks timeout_task tasks_of
timeout_tasks-reasons [] = (refl, refl, refl, refl)
timeout_tasks-reasons (r ∷ rs) =
    let (a, b, c, d) = timeout_tasks-reasons rs in
    (omega arith, omega arith, omega arith, omega arith)

lost_tasks-reasons :
    (hs : List Held)
    → (length (lost_tasks hs) ≡ length hs)
      × (tasks_of Recovery.timed_out (lost_tasks hs) ≡ 0)
      × (tasks_of Recovery.runner_lost (lost_tasks hs) ≡ length hs)
      × (tasks_of Recovery.dispatch_stalled (lost_tasks hs) ≡ 0)
unfolding lost_tasks tasks_of
lost_tasks-reasons [] = (refl, refl, refl, refl)
lost_tasks-reasons (h ∷ hs) =
    let (a, b, c, d) = lost_tasks-reasons hs in (omega arith, omega arith, omega arith, omega arith)

stalled_tasks-reasons :
    (hs : List Held)
    → (length (stalled_tasks hs) ≡ length hs)
      × (tasks_of Recovery.timed_out (stalled_tasks hs) ≡ 0)
      × (tasks_of Recovery.runner_lost (stalled_tasks hs) ≡ 0)
      × (tasks_of Recovery.dispatch_stalled (stalled_tasks hs) ≡ length hs)
unfolding stalled_tasks tasks_of
stalled_tasks-reasons [] = (refl, refl, refl, refl)
stalled_tasks-reasons (h ∷ hs) =
    let (a, b, c, d) = stalled_tasks-reasons hs in
    (omega arith, omega arith, omega arith, omega arith)

-- An orphan is counted under no reason.
orphan-reason :
    (q : Recovery) (t : SweepSummary)
    → count_of q (record t { selected = t.selected + 1; leases_released = t.leases_released + 1 })
      ≡ count_of q t
orphan-reason Recovery.timed_out t = refl
orphan-reason Recovery.runner_lost t = refl
orphan-reason Recovery.dispatch_stalled t = refl

free_orphans-counts :
    (hs : List Held) (moment : ℕ) (s : Store) (t : SweepSummary)
    → ((free_orphans hs moment s t).1.selected ≡ t.selected + length hs)
      × ((free_orphans hs moment s t).1.leases_released ≡ t.leases_released + length hs)
      × ((q : Recovery) → count_of q (free_orphans hs moment s t).1 ≡ count_of q t)
unfolding free_orphans
free_orphans-counts [] moment s t = (omega arith, omega arith, λ q. refl)
free_orphans-counts (h ∷ hs) moment s t =
    let more : SweepSummary = record t {
      selected = t.selected + 1;
      leases_released = t.leases_released + 1;
    } in
    let (a, b, c) =
      free_orphans-counts hs moment
        (update_lease h.lease.id
          (λ l. record l { status = LeaseStatus.released; released_at = some moment }) s)
        more in
    (omega arith, omega arith, λ q. c q ∙ orphan-reason q t)

-- A sweep that did not raise went through each of its parts.
pub part_returned :
    {A B : Type 0} (part : Option A) (rest : A → Option B) {result : B}
    → (part >>= rest) ≡ some result
    → (value : A) × (part ≡ some value) × (rest value ≡ some result)
part_returned none rest raised = cc
part_returned (some value) rest returned = (value, refl, returned)

-- Each query is bounded.
timeout_runs-limit :
    (locked : ℕ → Bool) (n moment : ℕ) (s : Store) → length (timeout_runs locked n moment s) ≤ n
unfolding timeout_runs
timeout_runs-limit locked n moment s = length-limit n _

stale_rows-limit :
    (locked : ℕ → Bool) (n moment ttl : ℕ) (s : Store)
    → length (stale_rows locked n moment ttl s) ≤ n
unfolding stale_rows
stale_rows-limit locked n moment ttl s = length-limit n _

stalled_rows-limit :
    (locked : ℕ → Bool) (n moment start_timeout : ℕ) (s : Store)
    → length (stalled_rows locked n moment start_timeout s) ≤ n
unfolding stalled_rows
stalled_rows-limit locked n moment start_timeout s = length-limit n _

orphaned_leases-limit :
    (locked : ℕ → Bool) (n : ℕ) (s : Store) → length (orphaned_leases locked n s) ≤ n
unfolding orphaned_leases
orphaned_leases-limit locked n s = length-limit n _

-- What the queries of a sweep found, each on the store that the loop before left, is what the counters
-- say: one for each Run under the reason of its query, and one for each orphaned lease.
pub record Tallied (locked : ℕ → Bool) (fresh : ℕ → ℕ) (n moment ttl start_timeout : ℕ) (s : Store)
    (t : SweepSummary) : Type 0 where
  pub timeouts : Store × SweepSummary
  pub losses : Store × SweepSummary
  pub stalls : Store × SweepSummary
  pub first_loop : sweep_timeouts locked fresh n moment s ≡ some timeouts
  pub second_loop : sweep_lost locked fresh n moment ttl timeouts ≡ some losses
  pub third_loop : sweep_stalled locked fresh n moment start_timeout losses ≡ some stalls
  pub timed_out : t.timed_out ≡ length (timeout_runs locked n moment s)
  pub runner_lost :
      t.runner_lost ≡ length (stale_rows locked (n - timeouts.1.selected) moment ttl timeouts.0)
  pub dispatch_stalled :
      t.dispatch_stalled
      ≡ length (stalled_rows locked (n - losses.1.selected) moment start_timeout losses.0)
  pub selected :
      t.selected
      ≡ t.timed_out
        + t.runner_lost
        + t.dispatch_stalled
        + length (orphaned_leases locked (n - stalls.1.selected) stalls.0)
  pub batch : t.selected ≤ n
  pub orphans_released :
      length (orphaned_leases locked (n - stalls.1.selected) stalls.0) ≤ t.leases_released
  pub released : t.leases_released ≤ t.selected

sweep-Tallied :
    (locked : ℕ → Bool) (fresh : ℕ → ℕ) (n moment ttl start_timeout : ℕ) (s s' : Store)
    (t : SweepSummary)
    → sweep locked fresh n moment ttl start_timeout s ≡ some (s', t)
    → Tallied locked fresh n moment ttl start_timeout s t
unfolding sweep sweep_timeouts sweep_lost sweep_stalled sweep_orphans
sweep-Tallied locked fresh n moment ttl start_timeout s s' t h =
    let ((s1, t1), e1, h1) = part_returned (sweep_timeouts locked fresh n moment s) _ h in
    let ((s2, t2), e2, h2) = part_returned (sweep_lost locked fresh n moment ttl (s1, t1)) _ h1 in
    let ((s3, t3), e3, h3) =
      part_returned (sweep_stalled locked fresh n moment start_timeout (s2, t2)) _ h2 in
    let late = timeout_runs locked n moment s in
    let lost = stale_rows locked (n - t1.selected) moment ttl s1 in
    let stalled = stalled_rows locked (n - t2.selected) moment start_timeout s2 in
    let orphans = orphaned_leases locked (n - t3.selected) s3 in
    let w1 = recover_all-Added (timeout_tasks late) fresh moment s s1 no_recoveries t1 e1 in
    let w2 = recover_all-Added (lost_tasks lost) fresh moment s1 s2 t1 t2 e2 in
    let w3 = recover_all-Added (stalled_tasks stalled) fresh moment s2 s3 t2 t3 e3 in
    let u = (free_orphans orphans moment s3 t3).1 in
    let (all, freed, kept) = free_orphans-counts orphans moment s3 t3 in
    let (n1, a1, b1, c1) = timeout_tasks-reasons late in
    let (n2, a2, b2, c2) = lost_tasks-reasons lost in
    let (n3, a3, b3, c3) = stalled_tasks-reasons stalled in
    let timed_out : u.timed_out ≡ length late = omega (
      arith,
      kept Recovery.timed_out,
      w3.reasons Recovery.timed_out,
      w2.reasons Recovery.timed_out,
      w1.reasons Recovery.timed_out,
    ) in
    let runner_lost : u.runner_lost ≡ length lost = omega (
      arith,
      kept Recovery.runner_lost,
      w3.reasons Recovery.runner_lost,
      w2.reasons Recovery.runner_lost,
      w1.reasons Recovery.runner_lost,
    ) in
    let dispatch_stalled : u.dispatch_stalled ≡ length stalled = omega (
      arith,
      kept Recovery.dispatch_stalled,
      w3.reasons Recovery.dispatch_stalled,
      w2.reasons Recovery.dispatch_stalled,
      w1.reasons Recovery.dispatch_stalled,
    ) in
    let m1 = w1.selected in
    let m2 = w2.selected in
    let m3 = w3.selected in
    let l1 = w1.bounded in
    let l2 = w2.bounded in
    let l3 = w3.bounded in
    let short1 = timeout_runs-limit locked n moment s in
    let short2 = stale_rows-limit locked (n - t1.selected) moment ttl s1 in
    let short3 = stalled_rows-limit locked (n - t2.selected) moment start_timeout s2 in
    let short4 = orphaned_leases-limit locked (n - t3.selected) s3 in
    let same : u ≡ t = ground arith in
    subst (λ x. Tallied locked fresh n moment ttl start_timeout s x) same
      (record {
        timeouts = (s1, t1);
        losses = (s2, t2);
        stalls = (s3, t3);
        first_loop = e1;
        second_loop = e2;
        third_loop = e3;
        timed_out = timed_out;
        runner_lost = runner_lost;
        dispatch_stalled = dispatch_stalled;
        selected = omega arith;
        batch = omega arith;
        orphans_released = omega arith;
        released = omega arith;
      })

-- The counters of a sweep that does not raise are the numbers of the rows that its queries found: the
-- Runs past their deadline in `timed_out`, then those of a silent worker in `runner_lost`, then those
-- that no worker claimed in `dispatch_stalled`, and at last the orphaned leases. `selected` is their
-- sum and at most the batch size; the released leases are at most `selected`, and at least the
-- orphaned ones.
pub process_run_reliability-Tallied :
    (locked : ℕ → Bool) (fresh : ℕ → ℕ) (n moment ttl start_timeout : ℕ) (s s' : Store)
    (t : SweepSummary)
    → process_run_reliability locked fresh n moment ttl start_timeout s ≡ some (s', t)
    → Tallied locked fresh n moment ttl start_timeout s t
unfolding process_run_reliability
process_run_reliability-Tallied locked fresh n moment ttl start_timeout s s' t h =
    sweep-Tallied locked fresh n moment ttl start_timeout s s' t (ground arith)
