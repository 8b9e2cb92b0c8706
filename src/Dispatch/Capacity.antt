-- ===== src/Dispatch/Capacity.antt =====
-- The slot leases in a batch of the Outbox publisher: the concurrency of the pools and the
-- leases of a Run.
use top.Base.{
  ℕ, ◌≤◌, ◌≡◌, String, inl, inr, Bool, Option, some, List, [], ◌∷◌, arith, count_where,
  first-none→count, Option-cases,
}
use top.Store.{Store, get_pool, active_of_run, active_in_pool, active_lease}
use top.Store.Rows.{OutboxRow, Pool}
use top.Dispatch.Batch.{
  Task, Summary, free, no_rounds, due_rows, dispatch_row, dispatch_rows, dispatch_outbox_batch,
}
use top.Dispatch.Grants.{Grants, same, slot}
use top.Dispatch.Frees.{Frees, dispatch_row-leases}

-- No pool has more ACTIVE leases than its concurrency.
pub record IsWithinCapacity (s : Store) : Type 0 where
  pub at_pool :
      (id : ℕ) (pool : Pool)
      → get_pool s id ≡ some pool
      → count_where (active_in_pool id) s.leases ≤ pool.max_concurrency

-- No Run has two ACTIVE leases.
pub record HasOneLease (s : Store) : Type 0 where
  pub at_run : (run : ℕ) → count_where (active_of_run run) s.leases ≤ 1

pub Grants-IsWithinCapacity : (s t : Store) → Grants s t → IsWithinCapacity s → IsWithinCapacity t
unfolding get_pool count_where
Grants-IsWithinCapacity s t (same e q) w = record {
  at_pool = λ id pool h. rw (e) (w.at_pool id pool (rw (q.pools) at h));
}
Grants-IsWithinCapacity s t (slot l p e q _ known room) w = record {
  at_pool = λ id pool h. ground (arith, w.at_pool id pool);
}

pub Grants-HasOneLease : (s t : Store) → Grants s t → HasOneLease s → HasOneLease t
unfolding active_lease count_where
Grants-HasOneLease s t (same e q) w = record { at_run = λ run. rw e (w.at_run run) }
Grants-HasOneLease s t (slot l p e q only _ _) w = record {
  at_run =
      λ run. ground (arith, w.at_run run, first-none→count (active_of_run l.run_id) s.leases only);
}

pub Frees-IsWithinCapacity : (s t : Store) → Frees s t → IsWithinCapacity s → IsWithinCapacity t
unfolding get_pool free
Frees-IsWithinCapacity s t f w = record {
  at_pool = λ id pool h. omega (
    arith,
    f.fewer (active_in_pool id) (λ now l e. ground arith),
    w.at_pool id pool (rw f.pools at h),
  );
}

pub Frees-HasOneLease : (s t : Store) → Frees s t → HasOneLease s → HasOneLease t
unfolding free
Frees-HasOneLease s t f w = record {
  at_run =
      λ run. omega (arith, f.fewer (active_of_run run) (λ now l e. ground arith), w.at_run run);
}

module _ (P : Store → Type 0) (grants : (s t : Store) → Grants s t → P s → P t)
    (frees : (s t : Store) → Frees s t → P s → P t) where
  -- What a new lease and freed leases keep, the loop keeps.
  rows_induction :
      (send : Task → Option String) (now ttl poll : ℕ) (fresh : ℕ → ℕ) (rows : List OutboxRow)
      (s : Store) (t : Summary) (s' : Store) (t' : Summary)
      → dispatch_rows send now ttl poll fresh rows s t ≡ some (s', t')
      → P s
      → P s'
  unfolding dispatch_rows
  rows_induction send now ttl poll fresh [] s t s' t' h w =
      let e : s ≡ s' = ground arith in rw e at w
  rows_induction send now ttl poll fresh (row ∷ rows) s t s' t' h w =
      elim (Option-cases (dispatch_row send now ttl poll (fresh row.id) row s t)) [
        | inl n ↦ absurd (ground arith)
        | inr ((m, u), e) ↦
            let (k, g, f) = dispatch_row-leases send now ttl poll (fresh row.id) row s t m u e in
            rows_induction send now ttl poll fresh rows m u s' t' (ground arith)
              (frees k m f (grants s k g w))
      ]

  pub batch_induction :
      (send : Task → Option String) (locked : ℕ → Bool) (fresh : ℕ → ℕ) (n now ttl poll : ℕ)
      (s s' : Store) (t : Summary)
      → dispatch_outbox_batch send locked fresh n now ttl poll s ≡ some (s', t)
      → P s
      → P s'
  unfolding dispatch_outbox_batch
  batch_induction send locked fresh n now ttl poll s s' t h w =
      rows_induction send now ttl poll fresh (due_rows locked now n s) s no_rounds s' t
        (ground arith) w

-- A batch of the Outbox publisher keeps every pool within its concurrency.
pub dispatch_outbox_batch-IsWithinCapacity :
    (send : Task → Option String) (locked : ℕ → Bool) (fresh : ℕ → ℕ) (n now ttl poll : ℕ)
    (s s' : Store) (t : Summary)
    → dispatch_outbox_batch send locked fresh n now ttl poll s ≡ some (s', t)
    → IsWithinCapacity s
    → IsWithinCapacity s'
dispatch_outbox_batch-IsWithinCapacity =
    batch_induction IsWithinCapacity Grants-IsWithinCapacity Frees-IsWithinCapacity

-- A batch of the Outbox publisher never gives a Run a second ACTIVE lease.
pub dispatch_outbox_batch-HasOneLease :
    (send : Task → Option String) (locked : ℕ → Bool) (fresh : ℕ → ℕ) (n now ttl poll : ℕ)
    (s s' : Store) (t : Summary)
    → dispatch_outbox_batch send locked fresh n now ttl poll s ≡ some (s', t)
    → HasOneLease s
    → HasOneLease s'
dispatch_outbox_batch-HasOneLease = batch_induction HasOneLease Grants-HasOneLease Frees-HasOneLease
