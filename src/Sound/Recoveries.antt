-- ===== src/Sound/Recoveries.antt =====
-- The recoveries of the sweep (`_recover_run`) and the invariant.
use top.Base.{
  ℕ, suc, ◌≡◌, refl, Bool, true, false, inl, inr, none, some, List, [], ◌∷◌, arith, ◌==◌, All,
  first, Option-cases, Bool-cases, update_where,
}
use mathlib.Core.Path.{subst}
use top.RunState.{allowed, is_terminal, is_started}
use top.Store.{Store, get_run, update_run, active_lease}
use top.Store.Rows.{Run, RunEvent, DedupeKey}
use top.Lifecycle.Events.{has_key, numbered, last_sequence}
use top.Lifecycle.Steps.{RunStep, Steps-update_first}
use top.Sound.Log.{is_recovery}
use top.Sound.Kept.{Kept, Effect-Kept}
use top.Sound.Invariant.{Ended, IsSound, Effect, Steps-ended}
use top.Sound.Writes.{Closes, on_lease-Closes, get_run_self}
use top.Sound.Untouched.{untouched, set_validation-leases}
use top.Recovery.Recover.{
  Verdict, recovery_event, append_reliability_event, end_run, end_cases, expire_lease,
  write_recovery, recover, recover_run,
}
use top.Recovery.Sweep.{Task, SweepSummary, counted, recover_all}
use top.Store.Rows.{Recovery}
use top.Lifecycle.Events.{same_key}

end_run-RunStep :
    (v : Verdict) (moment : ℕ) (r : Run)
    → is_terminal v.target ≡ true
    → allowed r.status v.target ≡ true
    → RunStep r (end_run v moment r)
unfolding end_run is_terminal is_started
end_run-RunStep v moment r t a = record {
  id = refl;
  moved = inr a;
  consistent = λ c. ground arith;
  immutable = λ e. (refl, refl);
}

recovered_key :
    (k : DedupeKey) (r : Recovery)
    → same_key k (DedupeKey.recovered r) ≡ true
    → is_recovery k ≡ true
unfolding same_key
recovered_key k r h = ground arith

-- A Run that has not ended has no event of a recovery.
not_recovered :
    (runs : List Run) (es : List RunEvent) (id : ℕ) (run : Run) (r : Recovery)
    → All (Ended runs) es
    → first (λ x. x.id == id) runs ≡ some run
    → is_terminal run.status ≡ false
    → first (has_key id (DedupeKey.recovered r)) es ≡ none
unfolding first
not_recovered runs [] id run r h q n = refl
not_recovered runs (e ∷ es) id run r h q n =
    elim (Bool-cases (has_key id (DedupeKey.recovered r) e)) [
      | inr k ↦ rw k (not_recovered runs es id run r h.1 q n)
      | inl k ↦ absurd (ground (arith, h.0 run, recovered_key e.dedupe_key r))
    ]

ends_first :
    (v : Verdict) (moment id : ℕ) (runs : List Run) (r : Run)
    → is_terminal v.target ≡ true
    → first (λ x. x.id == id) (update_where (λ x. x.id == id) (end_run v moment) runs) ≡ some r
    → is_terminal r.status ≡ true
unfolding first update_where end_run
ends_first v moment id [] r t h = absurd (ground arith)
ends_first v moment id (x ∷ xs) r t h = elim (Bool-cases (x.id == id)) [
  | inl e ↦ ground arith
  | inr e ↦ ends_first v moment id xs r t (ground arith)
]

expire-Closes : (run moment : ℕ) (s : Store) → Closes s.leases (expire_lease run moment s).leases
unfolding expire_lease
expire-Closes run moment s =
    on_lease-Closes (active_lease s run) _ s (λ x. (refl, refl)) (λ x e. cc)

pub write_recovery-runs :
    (run : Run) (v : Verdict) (fresh moment : ℕ) (s : Store)
    → (write_recovery run v fresh moment s).runs
      ≡ update_where (λ r. r.id == run.id) (end_run v moment) s.runs
unfolding write_recovery append_reliability_event end_cases expire_lease update_run
write_recovery-runs run v fresh moment s = simp untouched

write_recovery-events :
    (run : Run) (v : Verdict) (fresh moment : ℕ) (s : Store)
    → (write_recovery run v fresh moment s).events
      ≡ numbered run.id (suc (last_sequence run.id s.events)) (recovery_event v moment) ∷ s.events
unfolding write_recovery append_reliability_event end_cases expire_lease update_run
write_recovery-events run v fresh moment s = simp untouched

write_recovery-pools :
    (run : Run) (v : Verdict) (fresh moment : ℕ) (s : Store)
    → (write_recovery run v fresh moment s).pools ≡ s.pools
unfolding write_recovery append_reliability_event end_cases expire_lease update_run
write_recovery-pools run v fresh moment s = simp untouched

write_recovery-Closes :
    (run : Run) (v : Verdict) (fresh moment : ℕ) (s : Store)
    → Closes s.leases (write_recovery run v fresh moment s).leases
unfolding write_recovery append_reliability_event end_cases update_run
write_recovery-Closes run v fresh moment s =
    rw set_validation-leases (expire-Closes run.id moment (update_run run.id (end_run v moment) s))

write_recovery-Effect :
    (run : Run) (v : Verdict) (fresh moment : ℕ) (s : Store)
    → IsSound s
    → get_run s run.id ≡ some run
    → is_terminal run.status ≡ false
    → is_terminal v.target ≡ true
    → allowed run.status v.target ≡ true
    → Effect s (write_recovery run v fresh moment s)
unfolding get_run recovery_event numbered
write_recovery-Effect run v fresh moment s w known going ends move =
    let steps =
      Steps-update_first (λ r. r.id == run.id) (end_run v moment) s.runs run known (w.keyed run.id)
        (end_run-RunStep v moment run ends move) in
    let there = write_recovery-runs run v fresh moment s in
    let closes = write_recovery-Closes run v fresh moment s in
    let new = not_recovered s.runs s.events run.id run v.reason w.ended known going in
    record {
      runs = rw there steps;
      pools = write_recovery-pools run v fresh moment s;
      fewer_of_run = closes.fewer_of_run;
      fewer_in_pool = closes.fewer_in_pool;
      log = rw write_recovery-events (refl, new, w.log);
      ended = rw write_recovery-events (
        (λ r q k. ends_first v moment run.id s.runs r ends (rw there at q)),
        Steps-ended s.runs _ s.events (rw there steps) w.ended,
      );
    }

-- Recovering a Run keeps the invariant and the Runs.
recover-Kept :
    (rs : List Run) (run : Run) (v : Verdict) (fresh moment : ℕ) (s t : Store) (freed : Bool)
    → is_terminal v.target ≡ true
    → get_run s run.id ≡ some run
    → recover run v fresh moment s ≡ some (t, freed)
    → Kept rs s
    → Kept rs t
unfolding recover
recover-Kept rs run v fresh moment s t freed ends known h w =
    elim (Bool-cases (is_terminal run.status)) [
      | inl e ↦ subst (Kept rs) (ground arith) w
      | inr e ↦ elim (Bool-cases (allowed run.status v.target)) [
        | inr n ↦ absurd (ground arith)
        | inl y ↦ subst (Kept rs) (ground arith) (
            Effect-Kept rs s _ (write_recovery-Effect run v fresh moment s w.sound known e ends y)
              w)
      ]
    ]

pub recover_run-Kept :
    (rs : List Run) (id : ℕ) (v : Verdict) (fresh moment : ℕ) (s t : Store) (freed : Bool)
    → is_terminal v.target ≡ true
    → recover_run id v fresh moment s ≡ some (t, freed)
    → Kept rs s
    → Kept rs t
unfolding recover_run
recover_run-Kept rs id v fresh moment s t freed ends h w = elim (Option-cases (get_run s id)) [
  | inl n ↦ subst (Kept rs) (ground arith) w
  | inr (run, q) ↦
      recover-Kept rs run v fresh moment s t freed ends (get_run_self s id run q) (ground arith) w
]

-- Each task ends its Run.
abbrev pub Ends : Task → Type 0
Ends (id, v) = is_terminal v.target ≡ true

pub recover_all-Kept :
    (rs : List Run) (tasks : List Task) (fresh : ℕ → ℕ) (moment : ℕ) (s t : Store)
    (u u' : SweepSummary)
    → All Ends tasks
    → recover_all tasks fresh moment s u ≡ some (t, u')
    → Kept rs s
    → Kept rs t
unfolding recover_all
recover_all-Kept rs [] fresh moment s t u u' ends h w = subst (Kept rs) (ground arith) w
recover_all-Kept rs ((id, v) ∷ tasks) fresh moment s t u u' ends h w =
    elim (Option-cases (recover_run id v (fresh id) moment s)) [
      | inl n ↦ absurd (ground arith)
      | inr ((m, freed), e) ↦
          recover_all-Kept rs tasks fresh moment m t (counted v.reason freed u) u' ends.1
            (ground arith) (recover_run-Kept rs id v (fresh id) moment s m freed ends.0 e w)
    ]
