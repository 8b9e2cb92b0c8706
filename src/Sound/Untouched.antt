-- ===== src/Sound/Untouched.antt =====
-- The tables that the smaller writes of a service leave alone.
use top.Base.{ℕ, ◌≡◌, refl, Option, none, some, arith}
use top.Contracts.{RunStatus}
use top.Store.{Store, update_lease}
use top.Store.Rows.{Lease}
use top.Lifecycle.Results.{set_validation, on_lease}
use top.Sound.Log.{
  IsLog, is_recovery, append_run_event-IsLog, append_run_event-runs, append_run_event-leases,
  append_run_event-pools, append_run_event-All,
}

pub set_validation-runs :
    (run : ℕ) (status : RunStatus) (s : Store) → (set_validation run status s).runs ≡ s.runs
unfolding set_validation
set_validation-runs run status s = ground arith

pub set_validation-pools :
    (run : ℕ) (status : RunStatus) (s : Store) → (set_validation run status s).pools ≡ s.pools
unfolding set_validation
set_validation-pools run status s = ground arith

pub set_validation-leases :
    (run : ℕ) (status : RunStatus) (s : Store) → (set_validation run status s).leases ≡ s.leases
unfolding set_validation
set_validation-leases run status s = ground arith

pub set_validation-events :
    (run : ℕ) (status : RunStatus) (s : Store) → (set_validation run status s).events ≡ s.events
unfolding set_validation
set_validation-events run status s = ground arith

pub on_lease-runs :
    (o : Option Lease) (f : Lease → Lease) (s : Store) → (on_lease o f s).runs ≡ s.runs
unfolding update_lease
on_lease-runs none f s = refl
on_lease-runs (some l) f s = refl

pub on_lease-pools :
    (o : Option Lease) (f : Lease → Lease) (s : Store) → (on_lease o f s).pools ≡ s.pools
unfolding update_lease
on_lease-pools none f s = refl
on_lease-pools (some l) f s = refl

pub on_lease-events :
    (o : Option Lease) (f : Lease → Lease) (s : Store) → (on_lease o f s).events ≡ s.events
unfolding update_lease
on_lease-events none f s = refl
on_lease-events (some l) f s = refl

pub ruleset untouched = (
  set_validation-runs, set_validation-pools, set_validation-leases, set_validation-events,
  on_lease-runs, on_lease-pools, on_lease-events, append_run_event-runs, append_run_event-pools,
  append_run_event-leases,
)
