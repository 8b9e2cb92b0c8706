-- ===== src/Mail/Queued.antt =====
-- run_email_services.py: the e-mails that are queued are chosen by the preference of their owner.
use top.Base.{
  ℕ, ◌≡◌, refl, sym, Bool, true, not, ◌&&◌, ◌+◌, Option, none, some, List, [], ◌∷◌, ◌++◌, All,
  All-map, any, first, map, Bool-cases, Option-cases, inl, inr, arith,
}
use mathlib.Core.Path.{subst}
use top.Contracts.{Text, text_eq, same_status}
use top.Service.{ok, call_returned, check}
use top.Store.{Store}
use top.Store.Rows.{Run, EmailPreference, EmailDelivery}
use top.Lifecycle.Emails.{selected_preference_emails, result_deliveries, delivery_to}
use top.Lifecycle.Repeat.{text_eq_refl}
use top.Mail.Preferences.{
  MailStore, MailDelivery, of_user, is_empty, selected_of, test_delivery, test_deliveries,
  enqueue_run_email_test, queued_row, queue_result,
}
use top.Mail.Addressed.{IsAddressed, AreAddressed, addressed_by, ok-injective}

abbrev includes : List Text → Text → Bool
includes listed address = any (λ a. text_eq a address) listed

includes_more : (a b : Text) (ls : List Text) → includes ls a ≡ true → includes (b ∷ ls) a ≡ true
unfolding any
includes_more a b ls h = ground arith

all-includes : (ls : List Text) → All (λ a. includes ls a ≡ true) ls
unfolding any
all-includes [] = tt
all-includes (a ∷ ls) = (
  ground (arith, text_eq_refl a),
  All-map (λ b. includes ls b ≡ true) (λ b. includes (a ∷ ls) b ≡ true) ls
      (λ b h. includes_more b a ls h) (all-includes ls),
)

All-joined :
    (P : MailDelivery → Type 0) (xs ys : List MailDelivery) → All P xs → All P ys → All P (xs ++ ys)
All-joined P [] ys left right = right
All-joined P (x ∷ xs) ys (px, left) right = (px, All-joined P xs ys left right)

module _ (rows : List EmailPreference) (p : EmailPreference) where
  tests-IsAddressed :
      (fresh : ℕ → ℕ) (moment user_id place : ℕ) (recipients : List Text)
      → first (of_user user_id) rows ≡ some p
      → All (λ a. includes (selected_preference_emails p) a ≡ true) recipients
      → All (IsAddressed rows) (test_deliveries fresh moment user_id place recipients)
  unfolding test_deliveries test_delivery
  tests-IsAddressed fresh moment user_id place [] found listed = tt
  tests-IsAddressed fresh moment user_id place (a ∷ recipients) found (here, listed) = (
    λ pending.
        subst (λ o. addressed_by o (test_delivery fresh moment user_id place a) ≡ true) (sym found)
          (ground arith),
    tests-IsAddressed fresh moment user_id (place + 1) recipients found listed,
  )

  results-IsAddressed :
      (fresh : EmailDelivery → ℕ) (run : Run) (moment : ℕ) (recipients : List Text)
      → first (of_user run.created_by) rows ≡ some p
      → p.enabled ≡ true
      → All (λ a. includes (selected_preference_emails p) a ≡ true) recipients
      → All (IsAddressed rows) (map (queued_row fresh) (map (delivery_to run moment) recipients))
  unfolding queued_row delivery_to
  results-IsAddressed fresh run moment [] found enabled listed = tt
  results-IsAddressed fresh run moment (a ∷ recipients) found enabled (here, listed) = (
    λ pending.
        subst (λ o. addressed_by o (queued_row fresh (delivery_to run moment a)) ≡ true) (sym found)
          (ground arith),
    results-IsAddressed fresh run moment recipients found enabled listed,
  )

test_found-IsAddressed :
    (rows : List EmailPreference) (found : Option EmailPreference) (fresh : ℕ → ℕ)
    (moment user_id : ℕ)
    → first (of_user user_id) rows ≡ found
    → All (IsAddressed rows) (test_deliveries fresh moment user_id 0 (selected_of found))
unfolding test_deliveries
test_found-IsAddressed rows none fresh moment user_id same = tt
test_found-IsAddressed rows (some p) fresh moment user_id same =
    tests-IsAddressed rows p fresh moment user_id 0 (selected_preference_emails p) same
      (all-includes (selected_preference_emails p))

-- The queue of a test e-mail, where it returns.
pub test-AreAddressed :
    (smtp_configured : Bool) (fresh : ℕ → ℕ) (moment user_id : ℕ) (s t : MailStore)
    → AreAddressed s
    → enqueue_run_email_test smtp_configured fresh moment user_id s ≡ ok t
    → AreAddressed t
unfolding enqueue_run_email_test
test-AreAddressed smtp_configured fresh moment user_id s t was returned =
    let found = first (of_user user_id) s.preferences in
    let (u, enabled, next) = call_returned (check smtp_configured _) _ returned in
    let (v, known, last) = call_returned (check (not (is_empty (selected_of found))) _) _ next in
    subst AreAddressed (ok-injective last) (
      All-joined (IsAddressed s.preferences)
        (test_deliveries fresh moment user_id 0 (selected_of found)) s.deliveries
        (test_found-IsAddressed s.preferences found fresh moment user_id refl) was)

result_rows-IsAddressed :
    (base : Store) (fresh : EmailDelivery → ℕ) (run : Run) (moment : ℕ)
    → All
        (IsAddressed base.preferences)
        (map (queued_row fresh) (result_deliveries base run moment))
unfolding result_deliveries
result_rows-IsAddressed base fresh run moment =
    elim (Option-cases (first (of_user run.created_by) base.preferences)) [
      | inl missing ↦ rw (missing, result_deliveries) tt
      | inr (p, found) ↦
          elim (Bool-cases
            (p.enabled && any (λ status. same_status status run.status) p.statuses)) [
              | inr other ↦ rw (found, other, result_deliveries) tt
              | inl chosen ↦
                  rw (found, chosen, result_deliveries)
                    (results-IsAddressed base.preferences p fresh run moment
                      (selected_preference_emails p) found (ground (arith, chosen))
                      (all-includes (selected_preference_emails p)))
            ]
    ]

-- The end of a Run.
pub result-AreAddressed :
    (base : Store) (fresh : EmailDelivery → ℕ) (run : Run) (moment : ℕ) (s : MailStore)
    → AreAddressed s
    → AreAddressed (queue_result base fresh run moment s)
unfolding queue_result
result-AreAddressed base fresh run moment s was =
    All-joined (IsAddressed s.preferences) _ s.deliveries
      (result_rows-IsAddressed (record base { preferences = s.preferences }) fresh run moment) was
