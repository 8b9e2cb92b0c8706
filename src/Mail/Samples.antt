-- ===== src/Mail/Samples.antt =====
-- A user whose e-mails are queued, attempted and then canceled by a change of the preference.
use top.Base.{
  ℕ, ◌≡◌, refl, ◌+◌, true, false, Option, none, some, List, [], ◌∷◌, map, select, order_by, first,
  update_where, any,
}
use top.Contracts.{RunStatus, text_eq, lower, seconds}
use top.Service.{Served, ok, raise, ServiceError}
use top.Store.Rows.{EmailPreference}
use top.Lifecycle.Emails.{selected_preference_emails}
use top.Mail.Preferences.{
  MailStore, MailDelivery, MailKind, MailStatus, PreferenceUpdate, update_run_email_preference,
  enqueue_run_email_test,
}
use top.Mail.Delivery.{crashed, EmailSummary, dispatch_run_email_batch}
use top.Mail.Addressed.{AreAddressed}
use top.Mail.Steps.{updated, tested, dispatched, Reach, start, next, Reach-AreAddressed}

abbrev preference : EmailPreference
preference = record {
  user_id = 3;
  email = some (b'a' ∷ []);
  emails = (b'a' ∷ []) ∷ (b'b' ∷ []) ∷ [];
  selected_emails = some ((b'B' ∷ []) ∷ []);
  enabled = true;
  statuses = RunStatus.failed ∷ [];
}

abbrev on_result : MailDelivery
on_result = record {
  id = 50;
  user_id = 3;
  kind = MailKind.run_result RunStatus.failed;
  recipient_email = b'B' ∷ [];
  status = MailStatus.pending;
  attempts = 0;
  available_at = seconds 5;
  created_at = seconds 5;
  last_error = none;
  delivered_at = none;
}

abbrev before : MailStore
before = record {
  users = 3 ∷ [];
  preferences = preference ∷ [];
  deliveries = on_result ∷ [];
  audits = [];
}

abbrev returned_store : Served MailStore → MailStore
returned_store (ok s) = s
returned_store (raise e) = before

abbrev fresh : ℕ → ℕ
fresh place = 60 + place

abbrev with_test : Served MailStore
with_test = enqueue_run_email_test true fresh (seconds 9) 3 before

abbrev attempt_first : Option (List MailDelivery × EmailSummary)
attempt_first =
    dispatch_run_email_batch (λ d. crashed) (λ id. false) 1 5 (seconds 10)
      (returned_store with_test).deliveries

abbrev rows_of : Option (List MailDelivery × EmailSummary) → List MailDelivery × EmailSummary
rows_of none = ([], record { selected = 0; delivered = 0; retrying = 0; failed = 0 })
rows_of (some result) = result

abbrev attempted : MailStore
attempted = record (returned_store with_test) { deliveries = (rows_of attempt_first).0 }

abbrev other_address : PreferenceUpdate
other_address = record {
  emails = some ((b'a' ∷ []) ∷ (b'b' ∷ []) ∷ []);
  selected_emails = some ((b'a' ∷ []) ∷ []);
  enabled = true;
  statuses = RunStatus.failed ∷ [];
}

abbrev changed : Served MailStore
changed = update_run_email_preference true 3 other_address attempted

attempts : map (λ d. d.attempts) attempted.deliveries ≡ 0 ∷ 1 ∷ []
unfolding enqueue_run_email_test first selected_preference_emails select any text_eq lower
    dispatch_run_email_batch order_by update_where
attempts = refl

canceled :
    map (λ d. d.status) (returned_store changed).deliveries
    ≡ MailStatus.canceled ∷ MailStatus.canceled ∷ []
unfolding update_run_email_preference any enqueue_run_email_test first selected_preference_emails
    select text_eq lower update_where dispatch_run_email_batch order_by
canceled = refl

not_configured :
    update_run_email_preference false 3 other_address before ≡ raise ServiceError.conflict
unfolding update_run_email_preference
not_configured = refl

-- A preference that only drops the status of a queued e-mail leaves the e-mail PENDING.
abbrev other_status : PreferenceUpdate
other_status = record {
  emails = some preference.emails;
  selected_emails = preference.selected_emails;
  enabled = true;
  statuses = RunStatus.timed_out ∷ [];
}

still_pending :
    (returned_store (update_run_email_preference true 3 other_status before)).deliveries
    ≡ on_result ∷ []
unfolding update_run_email_preference any first selected_preference_emails select text_eq lower
    update_where
still_pending = refl

before-AreAddressed : AreAddressed before
unfolding first any selected_preference_emails select text_eq lower
before-AreAddressed = ((λ pending. refl), tt)

steps : Reach before (returned_store changed)
unfolding enqueue_run_email_test first selected_preference_emails select any text_eq lower
    dispatch_run_email_batch update_run_email_preference
steps =
    next
      (next (next start (tested true fresh (seconds 9) 3 (returned_store with_test) refl)) (
        dispatched (λ d. crashed) (λ id. false) 1 5 (seconds 10) (rows_of attempt_first).0
          (rows_of attempt_first).1 refl))
      (updated true 3 other_address (returned_store changed) refl)

Reach-AreAddressed_example : AreAddressed (returned_store changed)
Reach-AreAddressed_example =
    Reach-AreAddressed before (returned_store changed) before-AreAddressed steps
