-- ===== src/Sound/Courses.antt =====
-- services.py, outbox.py and reliability_services.py: the course of one Run over the operations.
use top.Base.{◌∙◌, sym, ap, inl, inr, suc, ℕ, ◌≤◌, ◌≡◌, true, Option, some, is_some}
use top.Contracts.{RunStatus}
use top.RunState.{allowed}
use top.RunState.Graph.{History, start, next, History-bounded}
use top.Store.{Store, get_run}
use top.Store.Rows.{Run}
use top.Sound.Invariant.{IsSound}
use top.Sound.Kept.{Chain-Evolved}
use top.Sound.Callbacks.{update_run_status-Effect}
use top.Sound.Events.{record_run_event-Effect}
use top.Sound.Results.{record_run_result-Effect}
use top.Sound.Cancel.{cancel_run-Effect}
use mathlib.Core.Path.{subst}
use mathlib.Core.Option.{map as option_map}
use top.Sound.Follows.{
  Moves, Finishes, Stays, Finishes-Moves, Follows, Follows-weaken, Steps-Follows,
}
use top.Sound.Moved.{dispatch_outbox_batch-Follows, cancel_runs-Follows, admit_run-Follows}
use top.Sound.Finished.{process_run_reliability-Follows}
use top.Sound.Operations.{
  Operation, run_created, dispatched, status_updated, event_recorded, result_recorded, run_canceled,
  runs_canceled, swept, Reach, none_yet, then, Reach-Kept,
}

-- One operation takes a Run along one allowed transition at most.
Operation-Follows : (s t : Store) → Operation s t → IsSound s → Follows Moves s.runs t.runs
Operation-Follows s t (run_created project q fresh now h new) w =
    Follows-weaken Stays Moves s.runs t.runs (λ a b e. inl e)
      (admit_run-Follows project q fresh now s t h)
Operation-Follows s t (dispatched send locked fresh n now ttl poll u h) w =
    Follows-weaken Stays Moves s.runs t.runs (λ a b e. inl e)
      (dispatch_outbox_batch-Follows send locked fresh n now ttl poll s t u h)
Operation-Follows s t (status_updated run_id target key now changed h) w =
    Steps-Follows s.runs t.runs
      (update_run_status-Effect run_id target key now s t changed h w).runs
Operation-Follows s t (event_recorded run_id p created h) w =
    Steps-Follows s.runs t.runs (record_run_event-Effect run_id p s t created h w).runs
Operation-Follows s t (result_recorded run_id digest matches result now created valid h) w =
    Steps-Follows s.runs t.runs
      (record_run_result-Effect run_id digest matches result now s t created valid h w).runs
Operation-Follows s t (run_canceled run_id actor fresh now changed h) w =
    Steps-Follows s.runs t.runs (cancel_run-Effect run_id actor fresh now s t changed h w).runs
Operation-Follows s t (runs_canceled project run_ids actor fresh now changed h) w =
    Follows-weaken Finishes Moves s.runs t.runs Finishes-Moves
      (cancel_runs-Follows project run_ids actor fresh now s t changed h)
Operation-Follows s t (swept locked fresh n moment ttl start_timeout u h) w =
    Follows-weaken Finishes Moves s.runs t.runs Finishes-Moves
      (process_run_reliability-Follows locked fresh n moment ttl start_timeout s t u h)

abbrev pub status_of : Store → ℕ → Option RunStatus
status_of s id = option_map (λ r. r.status) (get_run s id)

-- The course of the Run `id` over a sequence of operations, from the status `a`: after each operation
-- the store has the Run, with the status that it had or with one that an allowed transition leads to.
-- The number counts the transitions.
pub data Course (id : ℕ) {s : Store} (a : RunStatus)
    : (t : Store) → Reach s t → RunStatus → ℕ → Type 0 where
  begins : status_of s id ≡ some a → Course id a s none_yet a 0
  stays :
      {t u : Store} {r : Reach s t} {op : Operation t u} {b : RunStatus} {n : ℕ}
      → Course id a t r b n
      → status_of u id ≡ some b
      → Course id a u (then r op) b n
  moves :
      {t u : Store} {r : Reach s t} {op : Operation t u} {b c : RunStatus} {n : ℕ}
      → Course id a t r b n
      → allowed b c ≡ true
      → status_of u id ≡ some c
      → Course id a u (then r op) c (suc n)

Course-History :
    {id : ℕ} {s : Store} {a : RunStatus} {t : Store} {r : Reach s t} {b : RunStatus} {n : ℕ}
    → Course id a t r b n
    → History a b n
Course-History (begins e) = start
Course-History (stays c e) = Course-History c
Course-History (moves c m e) = next (Course-History c) m

Reach-Course :
    {s t : Store} (r : Reach s t) (id : ℕ) (run : Run)
    → IsSound s
    → get_run s id ≡ some run
    → (run' : Run) × (get_run t id ≡ some run') × (n : ℕ) × Course id run.status t r run'.status n
unfolding get_run
Reach-Course none_yet id run w found =
    (run, found, 0, begins (ap (option_map (λ (x : Run). x.status)) found))
Reach-Course (then {t} {u} r op) id run w found =
    let (mid, there, n, course) = Reach-Course r id run w found in
    let (after, then_there, move) = Operation-Follows t u op (Reach-Kept r w).sound id mid there in
    let seen = ap (option_map (λ (x : Run). x.status)) then_there in
    elim move [
      | inl e ↦ (
        after,
        then_there,
        n,
        subst (λ x. Course id run.status u (then r op) x n) (sym e)
            (stays course (seen ∙ ap some e)),
      )
      | inr m ↦ (after, then_there, suc n, moves course m seen)
    ]

-- Over any sequence of operations a Run stays in the store; each operation leaves its status or takes
-- it along one transition that the table allows, and in the whole sequence there are at most three
-- transitions; and the result that it has stays what it is.
pub Reach-Evolved :
    (s t : Store) (id : ℕ) (run : Run) (r : Reach s t)
    → IsSound s
    → get_run s id ≡ some run
    → (run' : Run) × (get_run t id ≡ some run')
      × (n : ℕ) × Course id run.status t r run'.status n
      × (n ≤ 3)
      × (is_some run.result_digest ≡ true
          → (run'.result_digest ≡ run.result_digest) × (run'.result_document ≡ run.result_document))
unfolding get_run
Reach-Evolved s t id run r w h =
    let (run', found, n, course) = Reach-Course r id run w h in
    let (same_run, again, e) = Chain-Evolved id s.runs t.runs run (Reach-Kept r w).chain h in
    let same : same_run ≡ run' = cc (sym again ∙ found) in
    (
      run',
      found,
      n,
      course,
      History-bounded (Course-History course),
      subst
          (λ (x : Run).
            is_some run.result_digest ≡ true
            → (x.result_digest ≡ run.result_digest) × (x.result_document ≡ run.result_document))
          same e.immutable,
    )
