-- ===== src/Dispatch/Grants.antt =====
-- The slot leases when one Outbox row is prepared.
use top.Base.{
  ℕ, suc, ◌≤◌, ◌≡◌, refl, inl, inr, Bool, none, some, List, ◌∷◌, arith, ◌==◌, count_where,
  first-some, Bool-cases, Option-cases,
}
use top.Contracts.{RunSnapshot}
use top.RunState.{is_terminal}
use top.Store.{Store, get_run, update_run, get_pool, active_in_pool, active_lease}
use top.Store.Rows.{Run, OutboxEvent, OutboxRow, Lease, Worker, Pool}
use mathlib.Core.Path.{subst}
use top.Lifecycle.Steps.{Idles, Idles-refl, Idles-update_all, settle-IdleStep}
use top.Dispatch.Prepare.{
  settle, Attempt, go, wait, invalid, ◌>>=◌, PreparedDispatch, open_pool, eligible_workers,
  effective_capacity, new_lease, take_slot, pool_for, prepare_pooled, prepare_run, prepare_event,
  prepare_run_dispatch,
}

-- Preparing a row writes no pool, no event and no Outbox row, and steps the Runs.
pub record SameTables (s t : Store) : Type 0 where
  pub runs : Idles s.runs t.runs
  pub events : t.events ≡ s.events
  pub pools : t.pools ≡ s.pools
  pub outbox : t.outbox ≡ s.outbox

pub kept :
    (s t : Store)
    → t.runs ≡ s.runs
    → t.events ≡ s.events
    → t.pools ≡ s.pools
    → t.outbox ≡ s.outbox
    → SameTables s t
kept s t hr he hp ho = record {
  runs = rw hr (Idles-refl s.runs);
  events = he;
  pools = hp;
  outbox = ho;
}

-- `t` has the leases of `s`, or one more: the first of a Run without an ACTIVE lease, in a pool
-- that stays within its concurrency.
pub data Grants (s t : Store) : Type 0 where
  same : t.leases ≡ s.leases → SameTables s t → Grants s t
  slot :
      (l : Lease) (pool : Pool)
      → t.leases ≡ l ∷ s.leases
      → SameTables s t
      → active_lease s l.run_id ≡ none
      → get_pool s l.pool_id ≡ some pool
      → suc (count_where (active_in_pool l.pool_id) s.leases) ≤ pool.max_concurrency
      → Grants s t

-- An attempt that went on went on from its first part.
pub attempt_went :
    {A B : Type 0} (part : Attempt A) (rest : A → Attempt B) {result : B}
    → (part >>= rest) ≡ go result
    → (value : A) × (part ≡ go value) × (rest value ≡ go result)
attempt_went invalid rest stopped = cc
attempt_went (wait reason) rest stopped = cc
attempt_went (go value) rest went = (value, refl, went)

get_pool-id : (s : Store) (id : ℕ) (pool : Pool) → get_pool s id ≡ some pool → pool.id ≡ id
unfolding get_pool
get_pool-id s id pool h =
    let test : Pool → Bool = λ p. p.id == id in ground (arith, first-some test s.pools {x = pool} h)

take_slot-Grants :
    (s t : Store) (run : Run) (pool : Pool) (now fresh : ℕ) (ws : List Worker)
    (p : PreparedDispatch)
    → get_pool s pool.id ≡ some pool
    → take_slot s run pool now fresh ws ≡ go (p, t)
    → Grants s t
unfolding take_slot effective_capacity new_lease
take_slot-Grants s t run pool now fresh ws p known h = elim (Option-cases (active_lease s run.id)) [
  | inr (l, e) ↦
      same (ground arith) (kept s t (ground arith) (ground arith) (ground arith) (ground arith))
  | inl e ↦
      slot (new_lease fresh now run pool) pool (ground arith)
        (kept s t (ground arith) (ground arith) (ground arith) (ground arith)) e known
        (ground arith)
]

pool_for-eq-go :
    (s : Store) (id : ℕ) (pool : Pool) → pool_for s id ≡ go pool → get_pool s id ≡ some pool
unfolding pool_for
pool_for-eq-go s id pool h = ground arith

prepare_pooled-Grants :
    (s t : Store) (snap : RunSnapshot) (run : Run) (pool_id now ttl fresh : ℕ)
    (p : PreparedDispatch)
    → prepare_pooled s snap run pool_id now ttl fresh ≡ go (p, t)
    → Grants s t
unfolding prepare_pooled
prepare_pooled-Grants s t snap run pool_id now ttl fresh p h =
    let (pool, found, h1) = attempt_went (pool_for s pool_id) _ h in
    let (_, opened, h2) = attempt_went (open_pool pool.status) _ h1 in
    let (ws, chosen, h3) = attempt_went (eligible_workers s snap pool now ttl) _ h2 in
    let known = pool_for-eq-go s pool_id pool found in
    take_slot-Grants s t run pool now fresh ws p (rw (get_pool-id s pool_id pool known) known) h3

prepare_run-Grants :
    (s t : Store) (snap : RunSnapshot) (run : Run) (now ttl fresh : ℕ) (p : PreparedDispatch)
    → prepare_run s snap run now ttl fresh ≡ go (p, t)
    → Grants s t
unfolding prepare_run update_run
prepare_run-Grants s t snap run now ttl fresh p h = elim (Bool-cases (is_terminal run.status)) [
  | inl e ↦ same (ground arith) (record {
    runs =
        subst (λ x. Idles s.runs x) (ground arith)
          (Idles-update_all (λ r. r.id == run.id) (settle now) s.runs (settle-IdleStep now));
    events = ground arith;
    pools = ground arith;
    outbox = ground arith;
  })
  | inr e ↦ elim (Option-cases run.runner_pool_id) [
    | inl n ↦
        same (ground arith) (kept s t (ground arith) (ground arith) (ground arith) (ground arith))
    | inr (id, q) ↦ prepare_pooled-Grants s t snap run id now ttl fresh p (ground arith)
  ]
]

prepare_event-Grants :
    (s t : Store) (e : OutboxEvent) (id now ttl fresh : ℕ) (p : PreparedDispatch)
    → prepare_event s e id now ttl fresh ≡ go (p, t)
    → Grants s t
unfolding prepare_event
prepare_event-Grants s t (OutboxEvent.run_queued snap) id now ttl fresh p h =
    elim (Option-cases (get_run s id)) [
      | inl n ↦ absurd (ground arith)
      | inr (run, q) ↦ prepare_run-Grants s t snap run now ttl fresh p (ground arith)
    ]
prepare_event-Grants s t _ id now ttl fresh p h =
    same (ground arith) (kept s t (ground arith) (ground arith) (ground arith) (ground arith))

pub prepare-Grants :
    (s t : Store) (row : OutboxRow) (now ttl fresh : ℕ) (p : PreparedDispatch)
    → prepare_run_dispatch s row now ttl fresh ≡ go (p, t)
    → Grants s t
unfolding prepare_run_dispatch
prepare-Grants s t row now ttl fresh p h =
    prepare_event-Grants s t row.event row.aggregate_id now ttl fresh p h

pub outbox-Grants : (s t : Store) → Grants s t → t.outbox ≡ s.outbox
outbox-Grants s t (same _ e) = e.outbox
outbox-Grants s t (slot _ _ _ e _ _ _) = e.outbox
