-- ===== src/Dispatch/Frees.antt =====
-- The leases in a round of the publisher once the row is prepared.
use top.Base.{
  ℕ, String, ◌≤◌, ◌≡◌, refl, inl, inr, Bool, true, Option, none, some, List, arith, ◌==◌,
  count_where, Bool-cases, count_where-update_le,
}
use top.Store.{Store, update_run, update_lease}
use top.Store.Rows.{Run, OutboxRow, Lease}
use mathlib.Core.Path.{subst}
use top.Lifecycle.Steps.{
  Idles, Idles-refl, IdleStep, Idles-update_all, settle-IdleStep, park-IdleStep,
}
use top.Dispatch.Prepare.{
  settle, Attempt, go, wait, invalid, PreparedDispatch, prepare_run_dispatch,
}
use top.Dispatch.Batch.{
  park, Task, Summary, Sent, delivered, raised, update_row, for_run, for_lease, free, publish,
  publish_prepared, dispatch_row,
}
use top.Dispatch.Grants.{Grants, same, kept, prepare-Grants}

-- The rest of a round, after the row is prepared, frees leases and takes none.
pub record Frees (s t : Store) : Type 0 where
  pub runs : Idles s.runs t.runs
  pub events : t.events ≡ s.events
  pub pools : t.pools ≡ s.pools
  pub fewer :
      (q : Lease → Bool)
      → ((now : ℕ) (l : Lease) → q (free now l) ≡ true → q l ≡ true)
      → count_where q t.leases ≤ count_where q s.leases

Frees-Idles :
    (s t : Store)
    → Idles s.runs t.runs
    → t.events ≡ s.events
    → t.pools ≡ s.pools
    → t.leases ≡ s.leases
    → Frees s t
Frees-Idles s t hr he hp hl = record {
  runs = hr;
  events = he;
  pools = hp;
  fewer = λ q h. rw hl (omega arith);
}

for_lease-count :
    (o : Option ℕ) (now : ℕ) (s : Store) (ls : List Lease) (q : Lease → Bool)
    → s.leases ≡ ls
    → ((l : Lease) → q (free now l) ≡ true → q l ≡ true)
    → count_where q (for_lease o (free now) s).leases ≤ count_where q ls
unfolding update_lease
for_lease-count none now s ls q e h = rw e (omega arith)
for_lease-count (some id) now s ls q e h =
    rw e (count_where-update_le q (λ l. l.id == id) (free now) ls h)

for_run-leases : (o : Option ℕ) (f : Run → Run) (s : Store) → (for_run o f s).leases ≡ s.leases
unfolding update_run
for_run-leases none f s = refl
for_run-leases (some id) f s = refl

for_run-pools : (o : Option ℕ) (f : Run → Run) (s : Store) → (for_run o f s).pools ≡ s.pools
unfolding update_run
for_run-pools none f s = refl
for_run-pools (some id) f s = refl

for_lease-pools : (o : Option ℕ) (f : Lease → Lease) (s : Store) → (for_lease o f s).pools ≡ s.pools
unfolding update_lease
for_lease-pools none f s = refl
for_lease-pools (some id) f s = refl

for_run-events : (o : Option ℕ) (f : Run → Run) (s : Store) → (for_run o f s).events ≡ s.events
unfolding update_run
for_run-events none f s = refl
for_run-events (some id) f s = refl

for_lease-events :
    (o : Option ℕ) (f : Lease → Lease) (s : Store) → (for_lease o f s).events ≡ s.events
unfolding update_lease
for_lease-events none f s = refl
for_lease-events (some id) f s = refl

for_lease-runs : (o : Option ℕ) (f : Lease → Lease) (s : Store) → (for_lease o f s).runs ≡ s.runs
unfolding update_lease
for_lease-runs none f s = refl
for_lease-runs (some id) f s = refl

for_run-Idles :
    (o : Option ℕ) (f : Run → Run) (s : Store)
    → ((r : Run) → IdleStep r (f r))
    → Idles s.runs (for_run o f s).runs
unfolding update_run
for_run-Idles none f s h = Idles-refl s.runs
for_run-Idles (some id) f s h = Idles-update_all _ f s.runs h

ruleset untouched = (
  for_run-leases, for_run-pools, for_lease-pools, for_run-events, for_lease-events, for_lease-runs,
)

publish_prepared-Frees :
    (send : Task → Option String) (now : ℕ) (row : OutboxRow) (p : PreparedDispatch) (s : Store)
    (t : Summary)
    → Frees s (publish_prepared send now row p s t).0
unfolding publish_prepared update_row
publish_prepared-Frees send now row p s t = by_answer (publish send row p.queue) refl
  where
    by_answer :
        (a : Sent) → publish send row p.queue ≡ a → Frees s (publish_prepared send now row p s t).0
    by_answer delivered e =
        rw (e, publish_prepared)
          (Frees-Idles s _ (for_run-Idles p.run (settle now) _ (settle-IdleStep now))
            (simp untouched) (simp untouched) (simp untouched))
    by_answer (raised m) e =
        rw (e, publish_prepared)
          (record {
            runs = simp for_lease-runs (for_run-Idles p.run _ _ (park-IdleStep _));
            events = simp untouched;
            pools = simp untouched;
            fewer = λ q h. for_lease-count p.lease now _ s.leases q (simp untouched) (h now);
          })

-- One round: the leases are those of the prepared store `m`, or fewer.
pub dispatch_row-leases :
    (send : Task → Option String) (now ttl poll fresh : ℕ) (row : OutboxRow) (s : Store)
    (t : Summary) (s' : Store) (t' : Summary)
    → dispatch_row send now ttl poll fresh row s t ≡ some (s', t')
    → (m : Store) × Grants s m × Frees m s'
unfolding dispatch_row update_row update_run
dispatch_row-leases send now ttl poll fresh row s t s' t' h =
    by_attempt (prepare_run_dispatch s row now ttl fresh) refl
  where
    by_attempt :
        (a : Attempt (PreparedDispatch × Store))
        → prepare_run_dispatch s row now ttl fresh ≡ a
        → (m : Store) × Grants s m × Frees m s'
    by_attempt invalid e = absurd (ground arith)
    by_attempt (wait r) e = (
      s,
      same refl (kept s s refl refl refl refl),
      Frees-Idles s s'
          (subst (λ x. Idles s.runs x) (ground arith)
            (Idles-update_all (λ r. r.id == row.aggregate_id) (park r) s.runs (park-IdleStep r)))
          (ground arith) (ground arith) (ground arith),
    )
    by_attempt (go (p, m)) e = (
      m,
      prepare-Grants s m row now ttl fresh p e,
      elim (Bool-cases p.skip_publish) [
        | inl skip ↦
            Frees-Idles m s' (subst (λ x. Idles m.runs x) (ground arith) (Idles-refl m.runs))
              (ground arith) (ground arith) (ground arith)
        | inr on ↦
            let done : (publish_prepared send now row p m t).0 ≡ s' = ground arith in
            rw done at (publish_prepared-Frees send now row p m t)
      ],
    )
