-- ===== src/Sound/Operations.antt =====
-- Every operation on Runs as a step of the store, and their sequences.
use top.Base.{count_where, ◌==◌, ℕ, ◌≡◌, String, Bool, true, Option, some, List}
use top.Contracts.{RunStatus, RunResult, Text}
use top.RunState.{is_terminal}
use top.RunState.Graph.{History-final}
use top.Service.{ok}
use top.Store.{Store, get_run}
use top.Store.Rows.{Run, Project}
use top.Dispatch.Batch.{Task, dispatch_outbox_batch, Summary}
use top.Lifecycle.Events.{RunnerEvent, record_run_event}
use top.Lifecycle.Callbacks.{update_run_status}
use top.Lifecycle.Results.{record_run_result, valid_result}
use top.Lifecycle.Cancel.{cancel_run, cancel_runs}
use top.Recovery.Sweep.{SweepSummary, process_run_reliability}
use top.Sound.Invariant.{IsSound}
use top.Sound.Kept.{Kept, Kept-self, Effect-Kept, Chain-Evolved}
use top.Sound.Queued.{admit_run-Kept}
use top.Lifecycle.Queue.{QueueRequest, admit_run}
use top.Sound.Publish.{dispatch_outbox_batch-Kept}
use top.Sound.Callbacks.{update_run_status-Effect}
use top.Sound.Events.{record_run_event-Effect}
use top.Sound.Results.{record_run_result-Effect}
use top.Sound.Cancel.{cancel_run-Effect, cancel_runs-Kept}
use top.Sound.Sweeps.{process_run_reliability-Kept}

-- One transaction that commits: a request of a Runner or of a user, a batch of the publisher, or a
-- sweep. The UUID that a request draws for a Run is new: no event has it.
pub data Operation (s t : Store) : Type 0 where
  run_created :
      (project : Project) (q : QueueRequest) (fresh now : ℕ)
      → admit_run project q fresh now s ≡ ok (t, true)
      → count_where (λ e. e.run_id == q.snapshot.run_id) s.events ≡ 0
      → Operation s t
  dispatched :
      (send : Task → Option String) (locked : ℕ → Bool) (fresh : ℕ → ℕ) (n now ttl poll : ℕ)
      (u : Summary)
      → dispatch_outbox_batch send locked fresh n now ttl poll s ≡ some (t, u)
      → Operation s t
  status_updated :
      (run_id : ℕ) (target : RunStatus) (key : Option String) (now : ℕ) (changed : Bool)
      → update_run_status run_id target key now s ≡ ok (t, changed)
      → Operation s t
  event_recorded :
      (run_id : ℕ) (p : RunnerEvent) (created : Bool)
      → record_run_event run_id p s ≡ ok (t, created)
      → Operation s t
  result_recorded :
      (run_id : ℕ) (digest : Text) (matches : Bool) (result : RunResult) (now : ℕ) (created : Bool)
      → valid_result result ≡ true
      → record_run_result run_id digest matches result now s ≡ ok (t, created)
      → Operation s t
  run_canceled :
      (run_id actor fresh now : ℕ) (changed : Bool)
      → cancel_run run_id actor fresh now s ≡ ok (t, changed)
      → Operation s t
  runs_canceled :
      (project : ℕ) (run_ids : List ℕ) (actor : ℕ) (fresh : ℕ → ℕ) (now changed : ℕ)
      → cancel_runs project run_ids actor fresh now s ≡ ok (t, changed)
      → Operation s t
  swept :
      (locked : ℕ → Bool) (fresh : ℕ → ℕ) (n moment ttl start_timeout : ℕ) (u : SweepSummary)
      → process_run_reliability locked fresh n moment ttl start_timeout s ≡ some (t, u)
      → Operation s t

-- Any number of operations, in any order.
pub data Reach (s : Store) : Store → Type 0 where
  none_yet : Reach s s
  then : {t u : Store} → Reach s t → Operation t u → Reach s u

Operation-Kept : (rs : List Run) (s t : Store) → Operation s t → Kept rs s → Kept rs t
Operation-Kept rs s t (run_created project q fresh now h new) k =
    admit_run-Kept rs project q fresh now s t h new k
Operation-Kept rs s t (dispatched send locked fresh n now ttl poll u h) k =
    dispatch_outbox_batch-Kept rs send locked fresh n now ttl poll s t u h k
Operation-Kept rs s t (status_updated run_id target key now changed h) k =
    Effect-Kept rs s t (update_run_status-Effect run_id target key now s t changed h k.sound) k
Operation-Kept rs s t (event_recorded run_id p created h) k =
    Effect-Kept rs s t (record_run_event-Effect run_id p s t created h k.sound) k
Operation-Kept rs s t (result_recorded run_id digest matches result now created valid h) k =
    Effect-Kept rs s t
      (record_run_result-Effect run_id digest matches result now s t created valid h k.sound) k
Operation-Kept rs s t (run_canceled run_id actor fresh now changed h) k =
    Effect-Kept rs s t (cancel_run-Effect run_id actor fresh now s t changed h k.sound) k
Operation-Kept rs s t (runs_canceled project run_ids actor fresh now changed h) k =
    cancel_runs-Kept rs project run_ids actor fresh now s t changed h k
Operation-Kept rs s t (swept locked fresh n moment ttl start_timeout u h) k =
    process_run_reliability-Kept rs locked fresh n moment ttl start_timeout s t u h k

pub Reach-Kept : {s t : Store} → Reach s t → IsSound s → Kept s.runs t
Reach-Kept {s} none_yet w = Kept-self s w
Reach-Kept {s} (then {t} {u} r op) w = Operation-Kept s.runs t u op (Reach-Kept r w)

-- Any sequence of operations, in any order, keeps the invariant of the store: one row for a Run,
-- columns that agree with the status, pools within their concurrency, at most one ACTIVE lease for
-- a Run, and an event log that is numbered without a gap and has no key twice.
pub Reach-IsSound : (s t : Store) → Reach s t → IsSound s → IsSound t
Reach-IsSound s t r w = (Reach-Kept r w).sound

-- Over any sequence of operations, a Run that has ended keeps its status.
pub Reach-terminal :
    (s t : Store) (id : ℕ) (run : Run)
    → Reach s t
    → IsSound s
    → get_run s id ≡ some run
    → is_terminal run.status ≡ true
    → (run' : Run) × (get_run t id ≡ some run') × (run'.status ≡ run.status)
unfolding get_run
Reach-terminal s t id run r w h ended =
    let (run', found, e) = Chain-Evolved id s.runs t.runs run (Reach-Kept r w).chain h in
    (run', found, History-final e.history ended)
