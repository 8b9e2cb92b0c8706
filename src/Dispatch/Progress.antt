-- ===== src/Dispatch/Progress.antt =====
-- The rows that a batch of the Outbox publisher takes, and its summary.
use top.Base.{
  ℕ, zero, suc, ◌+◌, ◌^◌, ◌≤◌, ◌≡◌, refl, String, inl, inr, Bool, true, false, Option, some, List,
  [], ◌∷◌, arith, ◌==◌, ◌||◌, min, any, All, All-map, update_where, length, length-limit,
  Bool-cases, Option-cases, if◌then◌else◌,
}
use top.Store.{Store, update_run, update_lease}
use top.Store.Rows.{OutboxRow}
use top.Dispatch.Prepare.{Attempt, go, wait, invalid, PreparedDispatch, prepare_run_dispatch}
use top.Dispatch.Grants.{prepare-Grants, outbox-Grants}
use top.Dispatch.Batch.{
  Task, Sent, delivered, raised, Summary, no_rounds, selected, reason_text, update_row, is_due,
  due_rows, close_row, retry_row, delay_row, backoff_seconds, publish, publish_prepared,
  dispatch_row, dispatch_rows, dispatch_outbox_batch,
}

-- The retry delay of the n-th failed attempt.
pub backoff_bounds : (n : ℕ) → (1 ≤ backoff_seconds n) × (backoff_seconds n ≤ 256)
unfolding backoff_seconds
backoff_bounds n = bounded (min n 8) (omega arith)
  where
    bounded : (k : ℕ) → k ≤ 8 → (1 ≤ min 300 (2 ^ k)) × (min 300 (2 ^ k) ≤ 256)
    bounded zero h = omega arith
    bounded (suc zero) h = omega arith
    bounded (suc (suc zero)) h = omega arith
    bounded (suc (suc (suc zero))) h = omega arith
    bounded (suc (suc (suc (suc zero)))) h = omega arith
    bounded (suc (suc (suc (suc (suc zero))))) h = omega arith
    bounded (suc (suc (suc (suc (suc (suc zero)))))) h = omega arith
    bounded (suc (suc (suc (suc (suc (suc (suc zero))))))) h = omega arith
    bounded (suc (suc (suc (suc (suc (suc (suc (suc zero)))))))) h = omega arith
    bounded (suc (suc (suc (suc (suc (suc (suc (suc (suc k))))))))) h = omega arith

-- A round counts its row once.
selected-dispatch_row :
    (send : Task → Option String) (now ttl poll fresh : ℕ) (row : OutboxRow) (s : Store)
    (t : Summary) (s' : Store) (t' : Summary)
    → dispatch_row send now ttl poll fresh row s t ≡ some (s', t')
    → selected t' ≡ suc (selected t)
unfolding dispatch_row publish_prepared
selected-dispatch_row send now ttl poll fresh row s t s' t' h = ground arith

selected-dispatch_rows :
    (send : Task → Option String) (now ttl poll : ℕ) (fresh : ℕ → ℕ) (rows : List OutboxRow)
    (s : Store) (t : Summary) (s' : Store) (t' : Summary)
    → dispatch_rows send now ttl poll fresh rows s t ≡ some (s', t')
    → selected t' ≡ selected t + length rows
unfolding dispatch_rows
selected-dispatch_rows send now ttl poll fresh [] s t s' t' h = ground arith
selected-dispatch_rows send now ttl poll fresh (row ∷ rows) s t s' t' h =
    elim (Option-cases (dispatch_row send now ttl poll (fresh row.id) row s t)) [
      | inl n ↦ absurd (ground arith)
      | inr ((m, u), e) ↦ omega (
        arith,
        selected-dispatch_row send now ttl poll (fresh row.id) row s t m u e,
        selected-dispatch_rows send now ttl poll fresh rows m u s' t' (ground arith),
      )
    ]

-- The summary counts every row that the batch took, each once, and at most `n` of them.
pub selected-dispatch_outbox_batch :
    (send : Task → Option String) (locked : ℕ → Bool) (fresh : ℕ → ℕ) (n now ttl poll : ℕ)
    (s s' : Store) (t : Summary)
    → dispatch_outbox_batch send locked fresh n now ttl poll s ≡ some (s', t)
    → (selected t ≡ length (due_rows locked now n s)) × (selected t ≤ n)
unfolding dispatch_outbox_batch due_rows
selected-dispatch_outbox_batch send locked fresh n now ttl poll s s' t h =
    let e =
      selected-dispatch_rows send now ttl poll fresh (due_rows locked now n s) s no_rounds s' t
        (ground arith) in
    omega (arith, e, length-limit {A = OutboxRow} n)

-- `f` is how a round rewrites its own row.
pub record Rewrites (now : ℕ) (row : OutboxRow) (s t : Store) : Type 0 where
  pub f : OutboxRow → OutboxRow
  pub outbox : t.outbox ≡ update_where (λ r. r.id == row.id) f s.outbox
  pub keeps_id : (r : OutboxRow) → (f r).id ≡ r.id
  pub not_due : (r : OutboxRow) → is_due now (f r) ≡ false

prepared-Rewrites :
    (send : Task → Option String) (now : ℕ) (row : OutboxRow) (p : PreparedDispatch) (s : Store)
    (t : Summary)
    → Rewrites now row s (publish_prepared send now row p s t).0
unfolding publish_prepared update_row close_row retry_row is_due update_run update_lease
prepared-Rewrites send now row p s t = by_answer (publish send row p.queue) refl
  where
    by_answer :
        (a : Sent)
        → publish send row p.queue ≡ a
        → Rewrites now row s (publish_prepared send now row p s t).0
    by_answer delivered e = record {
      f = λ r. close_row now (record r { attempts = r.attempts + 1 });
      outbox = ground arith;
      keeps_id = λ r. refl;
      not_due = λ r. refl;
    }
    by_answer (raised m) e = record {
      f = retry_row now m;
      outbox = ground arith;
      keeps_id = λ r. refl;
      not_due = λ r. ground (arith, backoff_bounds (r.attempts + 1));
    }

dispatch_row-Rewrites :
    (send : Task → Option String) (now ttl poll fresh : ℕ) (row : OutboxRow) (s : Store)
    (t : Summary) (s' : Store) (t' : Summary)
    → 1 ≤ poll
    → dispatch_row send now ttl poll fresh row s t ≡ some (s', t')
    → Rewrites now row s s'
unfolding dispatch_row update_row update_run close_row delay_row is_due
dispatch_row-Rewrites send now ttl poll fresh row s t s' t' pos h =
    by_attempt (prepare_run_dispatch s row now ttl fresh) refl
  where
    by_attempt :
        (a : Attempt (PreparedDispatch × Store))
        → prepare_run_dispatch s row now ttl fresh ≡ a
        → Rewrites now row s s'
    by_attempt invalid e = absurd (ground arith)
    by_attempt (wait r) e = record {
      f = delay_row now poll (reason_text r);
      outbox = ground arith;
      keeps_id = λ x. refl;
      not_due = λ x. ground arith;
    }
    by_attempt (go (p, m)) e =
        let kept : m.outbox ≡ s.outbox =
          outbox-Grants s m (prepare-Grants s m row now ttl fresh p e) in
        elim (Bool-cases p.skip_publish) [
          | inl skip ↦ record {
            f = close_row now;
            outbox = ground arith;
            keeps_id = λ x. refl;
            not_due = λ x. refl;
          }
          | inr on ↦
              let done : (publish_prepared send now row p m t).0 ≡ s' = ground arith in
              let r = prepared-Rewrites send now row p m t in
              record { f = r.f; outbox = cc (r.outbox); keeps_id = r.keeps_id; not_due = r.not_due }
        ]

-- The row was taken: its id is among those of `rows`.
abbrev pub among : List OutboxRow → OutboxRow → Bool
among rows r = any (λ x. x.id == r.id) rows

abbrev pub Settled : ℕ → List OutboxRow → List OutboxRow → Type 0
Settled now rows outbox = All (λ r. among rows r ≡ true → is_due now r ≡ false) outbox

settle_one :
    (now : ℕ) (rows : List OutboxRow) (row : OutboxRow) (f : OutboxRow → OutboxRow) (r : OutboxRow)
    (b : Bool)
    → (r.id == row.id) ≡ b
    → is_due now (f r) ≡ false
    → (among rows r ≡ true → is_due now r ≡ false)
    → among (row ∷ rows) (if b then f r else r) ≡ true
    → is_due now (if b then f r else r) ≡ false
unfolding any
settle_one now rows row f r true e fresh h m = fresh
settle_one now rows row f r false e fresh h m = h (ground arith)

-- A round leaves the earlier rows settled, and settles its own.
Settled-update :
    (now : ℕ) (rows : List OutboxRow) (row : OutboxRow) (f : OutboxRow → OutboxRow)
    (outbox : List OutboxRow)
    → ((r : OutboxRow) → is_due now (f r) ≡ false)
    → Settled now rows outbox
    → Settled now (row ∷ rows) (update_where (λ r. r.id == row.id) f outbox)
unfolding update_where
Settled-update now rows row f [] fresh h = tt
Settled-update now rows row f (r ∷ outbox) fresh h = (
  settle_one now rows row f r (r.id == row.id) refl (fresh r) h.0,
  Settled-update now rows row f outbox fresh h.1,
)

Settled-nil : (now : ℕ) (outbox : List OutboxRow) → Settled now [] outbox
unfolding any
Settled-nil now [] = tt
Settled-nil now (r ∷ outbox) = ((λ m. cc), Settled-nil now outbox)

reverse_onto : List OutboxRow → List OutboxRow → List OutboxRow
reverse_onto [] done = done
reverse_onto (r ∷ rs) done = reverse_onto rs (r ∷ done)

dispatch_rows-Settled :
    (send : Task → Option String) (now ttl poll : ℕ) (fresh : ℕ → ℕ) (rows done : List OutboxRow)
    (s : Store) (t : Summary) (s' : Store) (t' : Summary)
    → 1 ≤ poll
    → dispatch_rows send now ttl poll fresh rows s t ≡ some (s', t')
    → Settled now done s.outbox
    → Settled now (reverse_onto rows done) s'.outbox
unfolding dispatch_rows reverse_onto
dispatch_rows-Settled send now ttl poll fresh [] done s t s' t' pos h w =
    let e : s ≡ s' = ground arith in rw e at w
dispatch_rows-Settled send now ttl poll fresh (row ∷ rows) done s t s' t' pos h w =
    elim (Option-cases (dispatch_row send now ttl poll (fresh row.id) row s t)) [
      | inl n ↦ absurd (ground arith)
      | inr ((m, u), e) ↦
          let r = dispatch_row-Rewrites send now ttl poll (fresh row.id) row s t m u pos e in
          dispatch_rows-Settled send now ttl poll fresh rows (row ∷ done) m u s' t' pos
            (ground arith) (rw r.outbox (Settled-update now done row r.f s.outbox r.not_due w))
    ]

among-reverse_onto :
    (rows done : List OutboxRow) (r : OutboxRow)
    → (among rows r || among done r) ≡ true
    → among (reverse_onto rows done) r ≡ true
unfolding any reverse_onto
among-reverse_onto [] done r h = h
among-reverse_onto (x ∷ rows) done r h = among-reverse_onto rows (x ∷ done) r (ground arith)

-- After a batch, no row that it took is due at the same instant: each is PUBLISHED, or its next
-- attempt lies in the future.
pub dispatch_outbox_batch-Settled :
    (send : Task → Option String) (locked : ℕ → Bool) (fresh : ℕ → ℕ) (n now ttl poll : ℕ)
    (s s' : Store) (t : Summary)
    → dispatch_outbox_batch send locked fresh n now ttl poll s ≡ some (s', t)
    → Settled now (due_rows locked now n s) s'.outbox
unfolding dispatch_outbox_batch
dispatch_outbox_batch-Settled send locked fresh n now ttl poll s s' t h =
    let rows = due_rows locked now n s in
    All-map _ _ s'.outbox (λ r k m. k (among-reverse_onto rows [] r (rw m)))
      (dispatch_rows-Settled send now ttl poll fresh rows [] s no_rounds s' t (ground arith)
        (ground arith) (Settled-nil now s.outbox))
