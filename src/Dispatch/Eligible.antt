-- ===== src/Dispatch/Eligible.antt =====
-- Which workers a pooled Run may be given to.
use top.Base.{
  All-select_of, ℕ, ◌≤◌, ◌≡◌, ◌≢◌, refl, inl, inr, Bool, true, false, some, List, [], ◌∷◌, arith,
  ◌==◌, select, All, All-map, Bool-cases, Option-cases,
}
use mathlib.Core.Path.{subst}
use top.Contracts.{RunSnapshot, AutomationPackageRef}
use top.Store.{Store}
use top.Store.Rows.{Worker, Pool, Isolation, CredentialScope, WaitReason}
use top.Dispatch.Workers.{
  worker_matches, worker_hosts_package, worker_supports_execution_isolation, worker_isolation_rank,
}
use top.Dispatch.Prepare.{
  go, some_of, is_healthy, device_run, strongest, package_of, eligible_workers,
}
use top.Dispatch.Grants.{attempt_went}

some_of-eq-go : (ws vs : List Worker) (r : WaitReason) → some_of ws r ≡ go vs → ws ≡ vs
unfolding some_of
some_of-eq-go [] vs r h = cc
some_of-eq-go (w ∷ ws) vs r h = cc

some_of-ne-nil : (ws vs : List Worker) (r : WaitReason) → some_of ws r ≡ go vs → vs ≢ []
unfolding some_of
some_of-ne-nil [] vs r h e = cc
some_of-ne-nil (w ∷ ws) [] r h e = cc
some_of-ne-nil (w ∷ ws) (v ∷ vs) r h e = cc

-- Some worker has the strongest rank.
select-strongest :
    (ws : List Worker) (n : ℕ)
    → strongest ws ≡ n
    → ws ≢ []
    → select (λ w. worker_isolation_rank w == n) ws ≢ []
unfolding strongest select
select-strongest [] n h e = λ _. e refl
select-strongest (w ∷ []) n h e = ground arith
select-strongest (w ∷ v ∷ ws) n h e =
    let rest : strongest (v ∷ ws) ≡ n → select (λ x. worker_isolation_rank x == n) (v ∷ ws) ≢ [] =
      λ q. select-strongest (v ∷ ws) n q (λ c. cc) in
    elim (Bool-cases (worker_isolation_rank w == n)) [
      | inl q ↦ rw q (λ c. cc)
      | inr q ↦ rw q (rest (ground arith))
    ]

-- What the publisher demands of a worker before it takes a slot for the Run.
pub record IsEligible (snap : RunSnapshot) (runtime : AutomationPackageRef) (pool : Pool)
    (now ttl : ℕ) (w : Worker) : Type 0 where
  pub healthy : is_healthy pool now ttl w ≡ true
  pub capable : worker_matches snap.target_type snap.browser w ≡ true
  pub isolated :
      worker_supports_execution_isolation (device_run snap.target_type runtime.runner_type) w ≡ true
  pub hosting :
      worker_hosts_package runtime.runner_type runtime.image_repository runtime.digest w ≡ true

narrowed :
    (P : Worker → Type 0) (p : Worker → Bool) (ws vs : List Worker) (r : WaitReason)
    → some_of (select p ws) r ≡ go vs
    → All P ws
    → (vs ≢ []) × All (λ w. P w × (p w ≡ true)) vs
narrowed P p ws vs r h all = (
  some_of-ne-nil (select p ws) vs r h,
  rw (some_of-eq-go (select p ws) vs r h) at (All-select_of P p ws all),
)

everyone : (ws : List Worker) → All (λ w. Unit {0}) ws
everyone [] = tt
everyone (w ∷ ws) = (tt, everyone ws)

package_of-eq-go :
    (snap : RunSnapshot) (found runtime : AutomationPackageRef)
    → package_of snap ≡ go found
    → snap.automation_package ≡ some runtime
    → found ≡ runtime
unfolding package_of
package_of-eq-go snap found runtime h e = ground arith

-- The workers that a pool has for a Run.
pub eligible_workers_sound :
    (s : Store) (snap : RunSnapshot) (runtime : AutomationPackageRef) (pool : Pool) (now ttl : ℕ)
    (ws : List Worker)
    → snap.automation_package ≡ some runtime
    → eligible_workers s snap pool now ttl ≡ go ws
    → (ws ≢ []) × All (IsEligible snap runtime pool now ttl) ws
unfolding eligible_workers
eligible_workers_sound s snap runtime pool now ttl ws known h =
    let (healthy, e1, h1) =
      attempt_went (some_of (select (is_healthy pool now ttl) s.workers) _) _ h in
    let (capable, e2, h2) =
      attempt_went (some_of (select (worker_matches snap.target_type snap.browser) healthy) _) _
        h1 in
    let (found, e3, h3) = attempt_went (package_of snap) _ h2 in
    let (isolated, e4, h4) =
      attempt_went
        (some_of
          (select
            (worker_supports_execution_isolation (device_run snap.target_type found.runner_type))
            capable)
          _)
        _ h3 in
    let (hosting, e5, h5) =
      attempt_went
        (some_of
          (select (worker_hosts_package found.runner_type found.image_repository found.digest)
            isolated)
          _)
        _ h4 in
    let a1 = narrowed _ _ s.workers healthy _ e1 (everyone s.workers) in
    let a2 = narrowed _ _ healthy capable _ e2 a1.1 in
    let a4 = narrowed _ _ capable isolated _ e4 a2.1 in
    let a5 = narrowed _ _ isolated hosting _ e5 a4.1 in
    let chosen : select (λ w. worker_isolation_rank w == strongest hosting) hosting ≡ ws = cc in
    let same_runtime = package_of-eq-go snap found runtime e3 known in
    let strong = λ (w : Worker). worker_isolation_rank w == strongest hosting in
    (
      rw chosen at (select-strongest hosting (strongest hosting) refl a5.0),
      subst (λ r. All (IsEligible snap r pool now ttl) ws) same_runtime
          (rw chosen at (
            All-map _ (IsEligible snap found pool now ttl) _
              (λ w x. record {
                healthy = x.0.0.0.0.1;
                capable = x.0.0.0.1;
                isolated = x.0.0.1;
                hosting = x.0.1;
              })
              (All-select_of _ strong hosting a5.1))),
    )

-- Outside of the Android device exception, every accepted worker runs the Run in a process of its
-- own that holds only the Run's secrets, and its rank is at least that of a subprocess.
pub isolation_dedicated :
    (w : Worker)
    → worker_supports_execution_isolation false w ≡ true
    → (2 ≤ worker_isolation_rank w)
      × (i : Isolation) × (w.capabilities.execution_isolation ≡ some i)
      × (i.dedicated_process ≡ true)
      × (i.credential_scope ≡ CredentialScope.run_secrets_only)
unfolding worker_supports_execution_isolation worker_isolation_rank
isolation_dedicated w h = elim (Option-cases w.capabilities.execution_isolation) [
  | inl n ↦ absurd (ground arith)
  | inr (i, e) ↦ (ground arith, i, e, ground arith, ground arith)
]
