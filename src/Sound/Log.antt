-- ===== src/Sound/Log.antt =====
-- The event log of a Run, as `_append_run_event` writes it.
use top.Base.{
  ℕ, suc, ◌≡◌, refl, Bool, true, false, inl, inr, none, List, [], ◌∷◌, arith, first, All,
  Option-cases,
}
use top.Store.{Store}
use top.Store.Rows.{RunEvent, DedupeKey}
use top.Lifecycle.Events.{has_key, last_sequence, NewEvent, numbered, append_run_event}

-- The log, newest first: each event has the next sequence of its Run and a new key.
abbrev pub IsLog : List RunEvent → Type 0
IsLog [] = Unit
IsLog (e ∷ es) =
    (e.sequence ≡ suc (last_sequence e.run_id es))
    × (first (has_key e.run_id e.dedupe_key) es ≡ none)
    × IsLog es

abbrev pub is_recovery : DedupeKey → Bool
is_recovery (DedupeKey.recovered r) = true
is_recovery _ = false

pub append_run_event-IsLog :
    (run : ℕ) (n : NewEvent) (s : Store)
    → IsLog s.events
    → IsLog (append_run_event run n s).0.events
unfolding append_run_event numbered
append_run_event-IsLog run n s h = elim (Option-cases (first (has_key run n.dedupe_key) s.events)) [
  | inr (e, q) ↦ rw (q, append_run_event) h
  | inl q ↦ rw (q, append_run_event) (refl, q, h)
]

-- Appending an event writes no other table.
pub append_run_event-runs :
    (run : ℕ) (n : NewEvent) (s : Store) → (append_run_event run n s).0.runs ≡ s.runs
unfolding append_run_event
append_run_event-runs run n s = ground arith

pub append_run_event-leases :
    (run : ℕ) (n : NewEvent) (s : Store) → (append_run_event run n s).0.leases ≡ s.leases
unfolding append_run_event
append_run_event-leases run n s = ground arith

pub append_run_event-pools :
    (run : ℕ) (n : NewEvent) (s : Store) → (append_run_event run n s).0.pools ≡ s.pools
unfolding append_run_event
append_run_event-pools run n s = ground arith

pub append_run_event-All {ℓ} :
    (P : RunEvent → Type ℓ) (run : ℕ) (n : NewEvent) (s : Store)
    → P (numbered run (suc (last_sequence run s.events)) n)
    → All P s.events
    → All P (append_run_event run n s).0.events
unfolding append_run_event
append_run_event-All P run n s p h =
    elim (Option-cases (first (has_key run n.dedupe_key) s.events)) [
      | inr (e, q) ↦ rw (q, append_run_event) h
      | inl q ↦ rw (q, append_run_event) (p, h)
    ]
