-- ===== src/Mail/Preferences.antt =====
-- run_email_services.py: `update_run_email_preference` and `enqueue_run_email_test`, and the rows that
-- `enqueue_run_result_email` adds. A RunEmailDeliveryRecord is here what its owner and the dispatcher
-- see of it.
use top.Base.{
  ℕ, Bool, true, false, not, ◌&&◌, ◌||◌, ◌==◌, Option, none, some, List, [], ◌∷◌, ◌++◌, ◌+◌,
  if◌then◌else◌, first, any, map, update_where, length,
}
use top.Contracts.{Text, text_eq, RunStatus}
use top.Service.{ServiceError, Served, ok, check, ◌>>◌}
use top.Store.{Store}
use top.Store.Rows.{Run, EmailPreference, EmailDelivery}
use top.Lifecycle.Emails.{preference_emails, selected_preference_emails, result_deliveries}

pub data MailStatus : Type 0 where
  pending delivered failed canceled : MailStatus

-- `event_type`: run.result, with the status of the Run that the payload has, or run.email.test.
pub data MailKind : Type 0 where
  run_result : RunStatus → MailKind
  run_email_test : MailKind

-- `last_error`, by the text that is written.
pub data MailError : Type 0 where
  preference_changed unexpected : MailError
  not_delivered : Text → MailError

pub record MailDelivery : Type 0 where
  pub id : ℕ
  pub user_id : ℕ
  pub kind : MailKind
  pub recipient_email : Text
  pub status : MailStatus
  pub attempts : ℕ
  pub available_at : ℕ
  pub created_at : ℕ
  pub last_error : Option MailError
  pub delivered_at : Option ℕ

pub record PreferenceCounts : Type 0 where
  pub enabled : Bool
  pub recipient_count : ℕ
  pub selected_recipient_count : ℕ

-- The audit records of the two services, by their action and details; the masked addresses of a test
-- are left out.
pub data MailAction : Type 0 where
  preference_updated : PreferenceCounts → PreferenceCounts → List RunStatus → MailAction
  test_queued : ℕ → MailAction

pub record MailStore : Type 0 where
  pub users : List ℕ
  pub preferences : List EmailPreference
  pub deliveries : List MailDelivery
  pub audits : List (ℕ × MailAction)

pub record PreferenceUpdate : Type 0 where
  pub emails : Option (List Text)
  pub selected_emails : Option (List Text)
  pub enabled : Bool
  pub statuses : List RunStatus

abbrev pub is_pending : MailStatus → Bool
is_pending MailStatus.pending = true
is_pending _ = false

abbrev pub of_user : ℕ → EmailPreference → Bool
of_user user_id p = p.user_id == user_id

unfoldable pub texts_eq : List Text → List Text → Bool
texts_eq [] [] = true
texts_eq (a ∷ xs) (b ∷ ys) = let rest = texts_eq xs ys in if text_eq a b then rest else false
texts_eq _ _ = false

-- The two helpers where there is no preference.
abbrev pub emails_of : Option EmailPreference → List Text
emails_of none = []
emails_of (some p) = preference_emails p

abbrev pub selected_of : Option EmailPreference → List Text
selected_of none = []
selected_of (some p) = selected_preference_emails p

abbrev pub enabled_of : Option EmailPreference → Bool
enabled_of none = false
enabled_of (some p) = p.enabled

-- `value or ()`.
abbrev pub or_empty : Option (List Text) → List Text
or_empty none = []
or_empty (some values) = values

abbrev pub first_of : List Text → Option Text
first_of [] = none
first_of (e ∷ es) = some e

unfoldable pub edited_preference : ℕ → PreferenceUpdate → EmailPreference
edited_preference user_id payload = record {
  user_id = user_id;
  email = first_of (or_empty payload.emails);
  emails = or_empty payload.emails;
  selected_emails = some (or_empty payload.selected_emails);
  enabled = payload.enabled;
  statuses = payload.statuses;
}

-- The row is added where the user has none.
unfoldable pub put_preference :
    Option EmailPreference → ℕ → EmailPreference → List EmailPreference → List EmailPreference
put_preference none user_id new rows = new ∷ rows
put_preference (some p) user_id new rows = update_where (of_user user_id) (λ _. new) rows

unfoldable pub changes_recipients : Option EmailPreference → PreferenceUpdate → Bool
unfolding texts_eq
changes_recipients found payload =
    not payload.enabled
    || not (texts_eq (emails_of found) (or_empty payload.emails))
    || not (texts_eq (selected_of found) (or_empty payload.selected_emails))

abbrev pub cancel : MailDelivery → MailDelivery
cancel d = record d { status = MailStatus.canceled; last_error = some MailError.preference_changed }

unfoldable pub cancel_pending : ℕ → List MailDelivery → List MailDelivery
cancel_pending user_id rows =
    update_where (λ d. (d.user_id == user_id) && is_pending d.status) cancel rows

unfoldable pub write_preference :
    Option EmailPreference → ℕ → PreferenceUpdate → MailStore → MailStore
unfolding put_preference changes_recipients cancel_pending edited_preference
write_preference found user_id payload s = record s {
  preferences = put_preference found user_id (edited_preference user_id payload) s.preferences;
  deliveries =
      if changes_recipients found payload
      then cancel_pending user_id s.deliveries
      else s.deliveries;
  audits =
      (
        user_id,
        MailAction.preference_updated
            (record {
              enabled = enabled_of found;
              recipient_count = length (emails_of found);
              selected_recipient_count = length (selected_of found);
            })
            (record {
              enabled = payload.enabled;
              recipient_count = length (or_empty payload.emails);
              selected_recipient_count = length (or_empty payload.selected_emails);
            })
            payload.statuses,
      )
      ∷ s.audits;
}

unfoldable pub update_run_email_preference :
    Bool → ℕ → PreferenceUpdate → MailStore → Served MailStore
unfolding write_preference
update_run_email_preference smtp_configured user_id payload s =
    check (not payload.enabled || smtp_configured) ServiceError.conflict
    >> (check (any (λ u. u == user_id) s.users) ServiceError.not_found
        >> ok (write_preference (first (of_user user_id) s.preferences) user_id payload s))

unfoldable pub test_delivery : (ℕ → ℕ) → ℕ → ℕ → ℕ → Text → MailDelivery
test_delivery fresh moment user_id place recipient = record {
  id = fresh place;
  user_id = user_id;
  kind = MailKind.run_email_test;
  recipient_email = recipient;
  status = MailStatus.pending;
  attempts = 0;
  available_at = moment;
  created_at = moment;
  last_error = none;
  delivered_at = none;
}

unfoldable pub test_deliveries : (ℕ → ℕ) → ℕ → ℕ → ℕ → List Text → List MailDelivery
unfolding test_delivery
test_deliveries fresh moment user_id place [] = []
test_deliveries fresh moment user_id place (recipient ∷ recipients) =
    test_delivery fresh moment user_id place recipient
    ∷ test_deliveries fresh moment user_id (place + 1) recipients

abbrev pub is_empty : List Text → Bool
is_empty [] = true
is_empty (e ∷ es) = false

-- `fresh` gives the ids, by the place of the recipient.
unfoldable pub enqueue_run_email_test : Bool → (ℕ → ℕ) → ℕ → ℕ → MailStore → Served MailStore
unfolding test_deliveries
enqueue_run_email_test smtp_configured fresh moment user_id s =
    let recipients = selected_of (first (of_user user_id) s.preferences) in
    check smtp_configured ServiceError.conflict
    >> (check (not (is_empty recipients)) ServiceError.conflict
        >> ok (record s {
          deliveries = test_deliveries fresh moment user_id 0 recipients ++ s.deliveries;
          audits = (user_id, MailAction.test_queued (length recipients)) ∷ s.audits;
        }))

-- The row of a delivery that the end of a Run queues.
unfoldable pub queued_row : (EmailDelivery → ℕ) → EmailDelivery → MailDelivery
queued_row fresh d = record {
  id = fresh d;
  user_id = d.user_id;
  kind = MailKind.run_result d.run_status;
  recipient_email = d.recipient_email;
  status = MailStatus.pending;
  attempts = d.attempts;
  available_at = d.available_at;
  created_at = d.available_at;
  last_error = none;
  delivered_at = none;
}

-- `enqueue_run_result_email` on these tables; `base` has the others.
unfoldable pub queue_result : Store → (EmailDelivery → ℕ) → Run → ℕ → MailStore → MailStore
unfolding queued_row
queue_result base fresh run moment s = record s {
  deliveries =
      map (queued_row fresh)
        (result_deliveries (record base { preferences = s.preferences }) run moment)
      ++ s.deliveries;
}
