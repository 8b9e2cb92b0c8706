-- ===== src/Mail/Delivery.antt =====
-- run_emails.py: `dispatch_run_email_batch`. The sender is an argument; `none` is the ValueError.
use top.Base.{
  ℕ, Bool, not, ◌&&◌, ◌+◌, ◌^◌, ◌==◌, leb, min, Option, none, some, List, [], ◌∷◌, if◌then◌else◌,
  select, order_by, limit, update_where,
}
use top.Contracts.{Text, seconds}
use top.Mail.Preferences.{MailDelivery, MailStatus, MailError, is_pending}

-- A call of `sender.send`: it returned, or raised a RunEmailDeliveryError, with the first 500
-- characters of its text, or another exception.
pub data Sent : Type 0 where
  returned crashed : Sent
  refused : Text → Sent

unfoldable pub email_retry_at : ℕ → ℕ → ℕ
email_retry_at moment attempts = moment + seconds (min 300 (2 ^ min attempts 8))

unfoldable pub email_failed : ℕ → ℕ → MailError → MailDelivery → MailDelivery
unfolding email_retry_at
email_failed max_attempts moment e d =
    if leb max_attempts d.attempts
    then record d { last_error = some e; status = MailStatus.failed }
    else record d { last_error = some e; available_at = email_retry_at moment d.attempts }

unfoldable pub settle_email : ℕ → ℕ → Sent → MailDelivery → MailDelivery
unfolding email_failed
settle_email max_attempts moment (refused e) d =
    email_failed max_attempts moment (MailError.not_delivered e) d
settle_email max_attempts moment crashed d = email_failed max_attempts moment MailError.unexpected d
settle_email max_attempts moment returned d = record d {
  status = MailStatus.delivered;
  delivered_at = some moment;
  last_error = none;
}

-- The body of the loop.
unfoldable pub attempt_email : (MailDelivery → Sent) → ℕ → ℕ → MailDelivery → MailDelivery
unfolding settle_email
attempt_email send max_attempts moment d =
    let counted : MailDelivery = record d { attempts = d.attempts + 1 } in
    settle_email max_attempts moment (send counted) counted

pub record EmailSummary : Type 0 where
  pub selected : ℕ
  pub delivered : ℕ
  pub retrying : ℕ
  pub failed : ℕ

-- The counter of what became of a delivery; a batch cancels none.
unfoldable pub count_email : MailStatus → EmailSummary → EmailSummary
count_email MailStatus.delivered u = record u {
  selected = u.selected + 1;
  delivered = u.delivered + 1;
}
count_email MailStatus.pending u = record u { selected = u.selected + 1; retrying = u.retrying + 1 }
count_email MailStatus.failed u = record u { selected = u.selected + 1; failed = u.failed + 1 }
count_email MailStatus.canceled u = u

abbrev pub queued_before : MailDelivery → MailDelivery → Bool
queued_before a b = leb a.created_at b.created_at

unfoldable pub due_emails : (ℕ → Bool) → ℕ → ℕ → List MailDelivery → List MailDelivery
due_emails locked moment n rows = limit n (
    order_by queued_before
      (select (λ d. is_pending d.status && leb d.available_at moment && not (locked d.id)) rows))

module _ (send : MailDelivery → Sent) (max_attempts moment : ℕ) where
  unfoldable pub attempt_emails :
      List MailDelivery → List MailDelivery → EmailSummary → List MailDelivery × EmailSummary
  unfolding attempt_email count_email
  attempt_emails [] rows u = (rows, u)
  attempt_emails (d ∷ ds) rows u =
      let after = attempt_email send max_attempts moment d in
      attempt_emails ds (update_where (λ x. x.id == d.id) (λ _. after) rows)
        (count_email after.status u)

unfoldable pub dispatch_run_email_batch :
    (MailDelivery → Sent)
    → (ℕ → Bool)
    → ℕ
    → ℕ
    → ℕ
    → List MailDelivery
    → Option (List MailDelivery × EmailSummary)
unfolding due_emails attempt_emails
dispatch_run_email_batch send locked n max_attempts moment rows =
    let start : EmailSummary = record { selected = 0; delivered = 0; retrying = 0; failed = 0 } in
    if not (leb 1 n && leb n 500)
    then none
    else if not (leb 1 max_attempts && leb max_attempts 20)
    then none
    else some (attempt_emails send max_attempts moment (due_emails locked moment n rows) rows start)
