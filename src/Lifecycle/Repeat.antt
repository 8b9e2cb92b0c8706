-- ===== src/Lifecycle/Repeat.antt =====
-- Results that are sent twice. A Runner that got no answer sends its call again.
use mathlib.Core.Path.{subst}
use top.Base.{
  ℕ, ap, ◌≡◌, ◌∙◌, refl, Bool, true, false, inl, inr, some, List, [], ◌∷◌, arith, ◌==◌, is_some,
  first-update_where, Option-cases,
}
use top.Contracts.{RunResult, Text, text_eq}
use top.Service.{
  ServiceError, ok, raise, ◌>>=◌, check, or_raise, call_returned, check-eq-ok, or_raise-eq-ok,
}
use top.Store.{Store, get_run, update_run}
use top.Store.Rows.{Run, RunCase}
use top.Lifecycle.Results.{
  finish, write_result, accept_result, record_for, record_run_result, release_runner_slot,
}
use top.Lifecycle.Emails.{enqueue_run_result_email}
use top.Sound.Untouched.{untouched}
use top.Sound.Writes.{get_run-id, get_run_self}

pub text_eq_refl : (a : Text) → text_eq a a ≡ true
unfolding text_eq
text_eq_refl [] = refl
text_eq_refl (c ∷ a) = ground (arith, text_eq_refl a)

pub text_eq-eq : (a b : Text) → text_eq a b ≡ true → a ≡ b
unfolding text_eq
text_eq-eq [] [] h = refl
text_eq-eq (c ∷ a) (d ∷ b) h = ground (arith, text_eq-eq a b)
text_eq-eq [] (d ∷ b) h = absurd (ground arith)
text_eq-eq (c ∷ a) [] h = absurd (ground arith)

pub get_run-write_result :
    (run : Run) (digest : Text) (result : RunResult) (now : ℕ) (rows : List RunCase) (s : Store)
    → get_run s run.id ≡ some run
    → get_run (write_result run digest result now rows s) run.id ≡ some (finish digest result run)
unfolding write_result enqueue_run_result_email update_run release_runner_slot get_run finish
get_run-write_result run digest result now rows s known = simp untouched (
    first-update_where (λ x. x.id == run.id) (λ x. x.id == run.id) (finish digest result) s.runs run
      (λ x. refl) known (ground arith))

-- A store where the Run has the result `digest`.
record HasResult (id : ℕ) (digest : Text) (s : Store) : Type 0 where
  row : Run
  known : get_run s id ≡ some row
  digest_is : row.result_digest ≡ some digest

recorded-HasResult :
    (run : Run) (digest : Text) (matches : Bool) (result : RunResult) (now : ℕ) (s t : Store)
    (created : Bool)
    → get_run s run.id ≡ some run
    → record_for run digest matches result now s ≡ ok (t, created)
    → HasResult run.id digest t
unfolding record_for
recorded-HasResult run digest matches result now s t created known h =
    elim (Option-cases run.result_digest) [
      | inr (d, q) ↦
          let same : d ≡ digest = text_eq-eq d digest (ground arith) in
          let done : s ≡ t = ground arith in
          subst (HasResult run.id digest) done
            (record { row = run; known = known; digest_is = q ∙ ap (λ x. some x) same })
      | inl n ↦
          let q : is_some run.result_digest ≡ false = ground arith in
          let h' : (accept_result run result s >>= λ rows.
          ok (write_result run digest result now rows s, true))
              ≡ ok (t, created) =
            rw q at h in
          let (rows, e, k) = call_returned (accept_result run result s) _ h' in
          subst (HasResult run.id digest) (ground arith) (record {
            row = finish digest result run;
            known = get_run-write_result run digest result now rows s known;
            digest_is = unfold finish in refl;
          })
    ]

-- After a result is recorded, recording the same document again changes nothing and says so, and
-- any result with another digest for the Run is a conflict.
pub record_run_result-repeat :
    (run_id : ℕ) (digest : Text) (matches : Bool) (result : RunResult) (now : ℕ) (s t : Store)
    (created : Bool)
    → record_run_result run_id digest matches result now s ≡ ok (t, created)
    → (later : ℕ)
    → (record_run_result run_id digest true result later t ≡ ok (t, false))
      × ((other : RunResult) (digest' : Text) (matches' : Bool)
          → other.run_id ≡ run_id
          → text_eq digest digest' ≡ false
          → record_run_result run_id digest' matches' other later t ≡ raise ServiceError.conflict)
unfolding record_run_result record_for
record_run_result-repeat run_id digest matches result now s t created h later =
    let (_, e1, h1) = call_returned (check (result.run_id == run_id) _) _ h in
    let (run, e2, h2) = call_returned (or_raise (get_run s run_id) _) _ h1 in
    let found = or_raise-eq-ok _ _ e2 in
    let has =
      recorded-HasResult run digest matches result now s t created (get_run_self s run_id run found)
        h2 in
    let known : get_run t run_id ≡ some has.row =
      subst (λ n. get_run t n ≡ some has.row) (get_run-id s run_id run found) has.known in
    (
      ground (arith, text_eq_refl digest, known, has.digest_is, check-eq-ok _ _ e1),
      λ other digest' matches' same apart. ground (arith, known, has.digest_is),
    )
