-- ===== src/Sound/Publish.antt =====
-- The batches of the Outbox publisher (`dispatch_outbox_batch`) and the invariant.
use top.Base.{ℕ, ◌≡◌, String, Bool, Option, some}
use top.Store.{Store}
use top.Dispatch.Batch.{Task, Summary, dispatch_outbox_batch}
use top.Dispatch.Grants.{Grants, same, slot, SameTables}
use top.Dispatch.Frees.{Frees}
use top.Dispatch.Capacity.{
  Grants-IsWithinCapacity, Grants-HasOneLease, Frees-IsWithinCapacity, Frees-HasOneLease,
  batch_induction,
}
use top.Lifecycle.Steps.{Idles-Steps}
use top.Sound.Kept.{moved, Kept}
use top.Store.Rows.{Run}
use top.Base.{List}
use top.Sound.Invariant.{IsSound, Steps-count, Steps-IsConsistent, Steps-ended}

pub Grants-tables : (s t : Store) → Grants s t → SameTables s t
Grants-tables s t (same _ e) = e
Grants-tables s t (slot _ _ _ e _ _ _) = e

Grants-IsSound : (s t : Store) → Grants s t → IsSound s → IsSound t
Grants-IsSound s t g w =
    let e = Grants-tables s t g in
    record {
      keyed =
          λ id. rw (Steps-count id s.runs t.runs (Idles-Steps s.runs t.runs e.runs)) (w.keyed id);
      runs = Steps-IsConsistent s.runs t.runs (Idles-Steps s.runs t.runs e.runs) w.runs;
      capacity = Grants-IsWithinCapacity s t g w.capacity;
      one_lease = Grants-HasOneLease s t g w.one_lease;
      log = rw e.events w.log;
      ended =
          rw e.events
            (Steps-ended s.runs t.runs s.events (Idles-Steps s.runs t.runs e.runs) w.ended);
    }

Frees-IsSound : (s t : Store) → Frees s t → IsSound s → IsSound t
Frees-IsSound s t e w = record {
  keyed = λ id. rw (Steps-count id s.runs t.runs (Idles-Steps s.runs t.runs e.runs)) (w.keyed id);
  runs = Steps-IsConsistent s.runs t.runs (Idles-Steps s.runs t.runs e.runs) w.runs;
  capacity = Frees-IsWithinCapacity s t e w.capacity;
  one_lease = Frees-HasOneLease s t e w.one_lease;
  log = rw e.events w.log;
  ended =
      rw e.events (Steps-ended s.runs t.runs s.events (Idles-Steps s.runs t.runs e.runs) w.ended);
}

Grants-Kept : (rs : List Run) (s t : Store) → Grants s t → Kept rs s → Kept rs t
Grants-Kept rs s t g k = record {
  sound = Grants-IsSound s t g k.sound;
  chain = moved k.chain (Idles-Steps s.runs t.runs (Grants-tables s t g).runs);
}

Frees-Kept : (rs : List Run) (s t : Store) → Frees s t → Kept rs s → Kept rs t
Frees-Kept rs s t f k = record {
  sound = Frees-IsSound s t f k.sound;
  chain = moved k.chain (Idles-Steps s.runs t.runs f.runs);
}

-- A batch of the Outbox publisher keeps the invariant and the Runs.
pub dispatch_outbox_batch-Kept :
    (rs : List Run) (send : Task → Option String) (locked : ℕ → Bool) (fresh : ℕ → ℕ)
    (n now ttl poll : ℕ) (s s' : Store) (t : Summary)
    → dispatch_outbox_batch send locked fresh n now ttl poll s ≡ some (s', t)
    → Kept rs s
    → Kept rs s'
dispatch_outbox_batch-Kept rs = batch_induction (Kept rs) (Grants-Kept rs) (Frees-Kept rs)
