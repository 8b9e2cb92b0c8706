-- ===== src/Sound/Queued.antt =====
-- The creation of Runs (`_queue_snapshot_run`) and the invariant.
use mathlib.Core.Path.{subst}
use top.Base.{
  ℕ, ◌≤◌, ◌≡◌, refl, sym, true, false, inl, inr, List, [], ◌∷◌, ◌==◌, arith, All, any, count_where,
  first, Bool-cases,
}
use top.RunState.{is_terminal, is_started}
use top.Service.{ok, call_returned}
use top.Store.{Store, get_pool}
use top.Store.Rows.{Run, RunEvent, Project}
use top.Lifecycle.Events.{numbered}
use top.Lifecycle.Queue.{
  QueueRequest, new_run, created_event, write_run, collides, admit_run, enforce_execution_policy,
}
use top.Lifecycle.Admission.{write_run-runs, queue_snapshot_run-created}
use top.Lifecycle.Steps.{IsConsistent}
use top.Sound.Log.{
  IsLog, append_run_event-IsLog, append_run_event-All, append_run_event-leases,
  append_run_event-pools,
}
use top.Sound.Invariant.{Ended, IsSound}
use top.Sound.Kept.{added, Kept}

new_run-IsConsistent : (q : QueueRequest) → IsConsistent (new_run q)
unfolding new_run is_terminal is_started
new_run-IsConsistent q = record {
  finished = refl;
  watched = refl;
  begun = λ e. cc;
  result_final = λ e. cc;
}

-- A Run without a collision is not there yet.
pub free_id :
    (q : QueueRequest) (rs : List Run)
    → any (collides q) rs ≡ false
    → count_where (λ r. r.id == q.snapshot.run_id) rs ≡ 0
unfolding any collides count_where
free_id q [] h = refl
free_id q (r ∷ rs) h = elim (Bool-cases (collides q r)) [
  | inl e ↦ absurd (ground arith)
  | inr e ↦ ground (arith, free_id q rs)
]

-- The events of the other Runs are as fine as before.
Ended-added :
    (new : Run) (rs : List Run) (es : List RunEvent)
    → count_where (λ e. e.run_id == new.id) es ≡ 0
    → All (Ended rs) es
    → All (Ended (new ∷ rs)) es
unfolding count_where first
Ended-added new rs [] none_of h = tt
Ended-added new rs (e ∷ es) none_of h =
    (λ r found recovered. ground (arith, h.0 r), Ended-added new rs es (ground arith) h.1)

write_run-leases :
    (q : QueueRequest) (fresh now : ℕ) (s : Store) → (write_run q fresh now s).leases ≡ s.leases
unfolding write_run
write_run-leases q fresh now s = simp append_run_event-leases

write_run-pools :
    (q : QueueRequest) (fresh now : ℕ) (s : Store) → (write_run q fresh now s).pools ≡ s.pools
unfolding write_run
write_run-pools q fresh now s = simp append_run_event-pools

write_run-IsLog :
    (q : QueueRequest) (fresh now : ℕ) (s : Store)
    → IsSound s
    → IsLog (write_run q fresh now s).events
unfolding write_run
write_run-IsLog q fresh now s w = append_run_event-IsLog q.snapshot.run_id (created_event q) _ w.log

write_run-Ended :
    (q : QueueRequest) (fresh now : ℕ) (s : Store)
    → IsSound s
    → count_where (λ e. e.run_id == q.snapshot.run_id) s.events ≡ 0
    → All (Ended (new_run q ∷ s.runs)) (write_run q fresh now s).events
unfolding write_run new_run numbered created_event
write_run-Ended q fresh now s w new =
    append_run_event-All (Ended (new_run q ∷ s.runs)) q.snapshot.run_id (created_event q) _
      (λ r found recovered. cc) (Ended-added (new_run q) s.runs s.events new w.ended)

one_more :
    (q : QueueRequest) (rs : List Run) (id : ℕ)
    → count_where (λ r. r.id == q.snapshot.run_id) rs ≡ 0
    → count_where (λ r. r.id == id) rs ≤ 1
    → count_where (λ r. r.id == id) (new_run q ∷ rs) ≤ 1
unfolding count_where new_run
one_more q rs id free one = elim (Bool-cases (q.snapshot.run_id == id)) [
  | inl e ↦ ground arith
  | inr e ↦ ground arith
]

write_run-IsSound :
    (q : QueueRequest) (fresh now : ℕ) (s : Store)
    → IsSound s
    → count_where (λ r. r.id == q.snapshot.run_id) s.runs ≡ 0
    → count_where (λ e. e.run_id == q.snapshot.run_id) s.events ≡ 0
    → IsSound (write_run q fresh now s)
unfolding count_where get_pool
write_run-IsSound q fresh now s w free new = record {
  keyed = λ id. rw write_run-runs (one_more q s.runs id free (w.keyed id));
  runs = rw write_run-runs (new_run-IsConsistent q, w.runs);
  capacity = record {
    at_pool = λ id pool h.
        rw write_run-leases (w.capacity.at_pool id pool (rw (write_run-pools q fresh now s) at h));
  };
  one_lease = record { at_run = λ run. rw write_run-leases (w.one_lease.at_run run) };
  log = write_run-IsLog q fresh now s w;
  ended = rw write_run-runs (write_run-Ended q fresh now s w new);
}

-- A request that creates a Run keeps the invariant and the Runs. The UUID of the Run is new: no
-- event has it.
pub admit_run-Kept :
    (rs : List Run) (project : Project) (q : QueueRequest) (fresh now : ℕ) (s t : Store)
    → admit_run project q fresh now s ≡ ok (t, true)
    → count_where (λ e. e.run_id == q.snapshot.run_id) s.events ≡ 0
    → Kept rs s
    → Kept rs t
unfolding admit_run new_run
admit_run-Kept rs project q fresh now s t h new k =
    let (_, e, h1) = call_returned (enforce_execution_policy project now s) _ h in
    let (apart, done) = queue_snapshot_run-created q fresh now s t h1 in
    let free = free_id q s.runs apart in
    subst (Kept rs) (sym done) (record {
      sound = write_run-IsSound q fresh now s k.sound free new;
      chain = rw write_run-runs (added k.chain (new_run q) free);
    })
