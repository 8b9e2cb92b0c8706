-- ===== src/Store.antt =====
-- apps/api/src/testops/api/persistence.py: the rows of the control plane that Runs, dispatch and
-- recovery share, and the session as the store of all tables. A service is a function on the
-- store; one that raises gives no store, since its transaction is rolled back.
pub mod Rows
pub mod Samples
use top.Base.{
  ℕ, String, Bool, true, false, Option, none, some, List, ◌==◌, ◌&&◌, first, update_where, holds,
}
use Rows.{
  Run, RunCase, RunEvent, OutboxRow, Lease, LeaseStatus, Worker, Pool, AuditLog, ArtifactRow,
  ChangeRequest, EmailPreference, EmailDelivery,
}

pub record Store : Type 0 where
  pub runs : List Run
  pub cases : List RunCase
  pub events : List RunEvent
  pub outbox : List OutboxRow
  pub leases : List Lease
  pub workers : List Worker
  pub pools : List Pool
  pub audit : List AuditLog
  pub artifacts : List ArtifactRow
  pub changes : List ChangeRequest
  pub preferences : List EmailPreference
  pub emails : List EmailDelivery

-- `session.get(TestRunRecord, run_id)`; with the row lock, `_locked_run`.
unfoldable pub get_run : Store → ℕ → Option Run
get_run s id = first (λ r. r.id == id) s.runs

-- What the session writes back for the Run row `id`.
unfoldable pub update_run : ℕ → (Run → Run) → Store → Store
update_run id f s = record s { runs = update_where (λ r. r.id == id) f s.runs }

unfoldable pub get_pool : Store → ℕ → Option Pool
get_pool s id = first (λ p. p.id == id) s.pools

abbrev pub is_active : LeaseStatus → Bool
is_active LeaseStatus.active = true
is_active _ = false

abbrev pub active_of_run : ℕ → Lease → Bool
active_of_run run l = is_active l.status && l.run_id == run

abbrev pub active_in_pool : ℕ → Lease → Bool
active_in_pool pool l = is_active l.status && l.pool_id == pool

-- The query for the ACTIVE lease of a Run.
unfoldable pub active_lease : Store → ℕ → Option Lease
active_lease s run = first (active_of_run run) s.leases

unfoldable pub update_lease : ℕ → (Lease → Lease) → Store → Store
update_lease id f s = record s { leases = update_where (λ l. l.id == id) f s.leases }
