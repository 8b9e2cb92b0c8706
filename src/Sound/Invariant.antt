-- ===== src/Sound/Invariant.antt =====
-- What holds of the store between two operations, and what an operation has to show for it.
use top.Base.{
  ℕ, ◌≤◌, ◌≡◌, refl, true, inl, inr, some, List, [], ◌∷◌, arith, ◌==◌, All, All-map, count_where,
  first, Bool-cases,
}
use top.RunState.{allowed, is_terminal}
use top.Store.{Store, get_pool, active_of_run, active_in_pool}
use top.Store.Rows.{Run, RunEvent}
use top.Dispatch.Capacity.{IsWithinCapacity, HasOneLease}
use top.Lifecycle.Steps.{IsConsistent, RunStep, Steps, Steps-refl}
use top.Sound.Log.{IsLog, is_recovery}

-- An event of a recovery belongs to a Run that has ended.
abbrev pub Ended : List Run → RunEvent → Type 0
Ended runs e =
    (r : Run)
    → first (λ x. x.id == e.run_id) runs ≡ some r
    → is_recovery e.dedupe_key ≡ true
    → is_terminal r.status ≡ true

pub record IsSound (s : Store) : Type 0 where
  pub keyed : (id : ℕ) → count_where (λ r. r.id == id) s.runs ≤ 1
  pub runs : All IsConsistent s.runs
  pub capacity : IsWithinCapacity s
  pub one_lease : HasOneLease s
  pub log : IsLog s.events
  pub ended : All (Ended s.runs) s.events

-- What an operation other than a dispatch does.
pub record Effect (s t : Store) : Type 0 where
  pub runs : Steps s.runs t.runs
  pub pools : t.pools ≡ s.pools
  pub fewer_of_run :
      (run : ℕ)
      → count_where (active_of_run run) t.leases ≤ count_where (active_of_run run) s.leases
  pub fewer_in_pool :
      (pool : ℕ)
      → count_where (active_in_pool pool) t.leases ≤ count_where (active_in_pool pool) s.leases
  pub log : IsLog t.events
  pub ended : All (Ended t.runs) t.events

pub Steps-count :
    (id : ℕ) (rs ts : List Run)
    → Steps rs ts
    → count_where (λ r. r.id == id) ts ≡ count_where (λ r. r.id == id) rs
unfolding count_where
Steps-count id [] [] h = refl
Steps-count id (r ∷ rs) (t ∷ ts) h = ground (arith, h.0.id, Steps-count id rs ts h.1)
Steps-count id [] (t ∷ ts) h = absurd h
Steps-count id (r ∷ rs) [] h = absurd h

pub Steps-IsConsistent :
    (rs ts : List Run) → Steps rs ts → All IsConsistent rs → All IsConsistent ts
Steps-IsConsistent [] [] h c = tt
Steps-IsConsistent (r ∷ rs) (t ∷ ts) h c = (h.0.consistent c.0, Steps-IsConsistent rs ts h.1 c.1)
Steps-IsConsistent [] (t ∷ ts) h c = absurd h
Steps-IsConsistent (r ∷ rs) [] h c = absurd h

-- A Run that has ended stays ended.
terminal_stays :
    (r t : Run) → RunStep r t → is_terminal r.status ≡ true → is_terminal t.status ≡ true
unfolding allowed is_terminal
terminal_stays r t st h = ground (arith, st.moved)

Steps-terminal :
    (id : ℕ) (rs ts : List Run)
    → Steps rs ts
    → ((r : Run) → first (λ x. x.id == id) rs ≡ some r → is_terminal r.status ≡ true)
    → (t : Run) → first (λ x. x.id == id) ts ≡ some t
    → is_terminal t.status ≡ true
unfolding first
Steps-terminal id [] [] h all t e = absurd (ground arith)
Steps-terminal id (r ∷ rs) (u ∷ us) h all t e = elim (Bool-cases (r.id == id)) [
  | inl q ↦
      let k = terminal_stays r u h.0 (all r (ground arith)) in
      let same : u ≡ t = ground (arith, h.0.id) in rw same at k
  | inr q ↦ Steps-terminal id rs us h.1 (λ x p. all x (ground arith)) t (ground (arith, h.0.id))
]
Steps-terminal id [] (t ∷ ts) h all u e = absurd h
Steps-terminal id (r ∷ rs) [] h all u e = absurd h

-- Events that were fine stay fine while the Runs make steps.
pub Steps-ended :
    (rs ts : List Run) (es : List RunEvent) → Steps rs ts → All (Ended rs) es → All (Ended ts) es
Steps-ended rs ts es h all =
    All-map (Ended rs) (Ended ts) es
      (λ e k t p q. Steps-terminal e.run_id rs ts h (λ r first_r. k r first_r q) t p) all

pub Effect-IsSound : (s t : Store) → Effect s t → IsSound s → IsSound t
unfolding get_pool
Effect-IsSound s t e w = record {
  keyed = λ id. rw (Steps-count id s.runs t.runs e.runs) (w.keyed id);
  runs = Steps-IsConsistent s.runs t.runs e.runs w.runs;
  capacity = record {
    at_pool = λ id pool h.
        omega (arith, e.fewer_in_pool id, w.capacity.at_pool id pool (rw e.pools at h));
  };
  one_lease = record { at_run = λ run. omega (arith, e.fewer_of_run run, w.one_lease.at_run run) };
  log = e.log;
  ended = e.ended;
}

pub Effect-refl : (s : Store) → IsSound s → Effect s s
Effect-refl s w = record {
  runs = Steps-refl s.runs;
  pools = refl;
  fewer_of_run = λ run. omega arith;
  fewer_in_pool = λ pool. omega arith;
  log = w.log;
  ended = w.ended;
}
