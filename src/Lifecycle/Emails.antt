-- ===== src/Lifecycle/Emails.antt =====
-- apps/api/src/testops/api/run_email_services.py: `_preference_emails`, `_selected_preference_emails`
-- and `enqueue_run_result_email`. Addresses are ASCII, on which `str.casefold` is `lower`; the
-- project of a Run exists, by its foreign key; the payload of a delivery is left
-- out. Selected addresses differ up to case, as the preference service demands, so that no two
-- deliveries have one dedupe key.
use top.Base.{
  ℕ, none, some, List, [], ◌∷◌, ◌++◌, ◌&&◌, ◌==◌, if◌then◌else◌, first, any, select, map,
}
use top.Contracts.{Text, same_status, lower, text_eq}
use top.Store.{Store}
use top.Store.Rows.{Run, EmailPreference, EmailDelivery}

unfoldable pub preference_emails : EmailPreference → List Text
preference_emails p = elim p.emails [
  | [] ↦ elim p.email [ none ↦ [] | some e ↦ e ∷ [] ]
  | e ∷ es ↦ e ∷ es
]

unfoldable pub selected_preference_emails : EmailPreference → List Text
unfolding preference_emails
selected_preference_emails p = elim p.selected_emails [
  | none ↦ preference_emails p
  | some chosen ↦
      select (λ item. any (λ c. text_eq (lower c) (lower item)) (preference_emails p)) chosen
]

unfoldable pub delivery_to : Run → ℕ → Text → EmailDelivery
delivery_to run now recipient = record {
  user_id = run.created_by;
  run_id = run.id;
  recipient_email = recipient;
  run_status = run.status;
  attempts = 0;
  available_at = now;
}

-- The deliveries for the terminal Run, none where its creator has no matching preference.
unfoldable pub result_deliveries : Store → Run → ℕ → List EmailDelivery
unfolding selected_preference_emails delivery_to
result_deliveries s run now = elim (first (λ p. p.user_id == run.created_by) s.preferences) [
  | none ↦ []
  | some p ↦
      if p.enabled && any (λ status. same_status status run.status) p.statuses
      then map (delivery_to run now) (selected_preference_emails p)
      else []
]

unfoldable pub enqueue_run_result_email : Run → ℕ → Store → Store
enqueue_run_result_email run now s = record s { emails = result_deliveries s run now ++ s.emails }
