-- ===== src/Mail/Steps.antt =====
-- run_email_services.py and run_emails.py: the operations on the e-mails as steps of their tables.
use top.Base.{ℕ, ◌≡◌, Bool, some, List}
use top.Service.{ok}
use top.Store.{Store}
use top.Store.Rows.{Run, EmailDelivery}
use top.Mail.Preferences.{
  MailStore, MailDelivery, PreferenceUpdate, update_run_email_preference, enqueue_run_email_test,
  queue_result,
}
use top.Mail.Delivery.{Sent, EmailSummary, dispatch_run_email_batch}
use top.Mail.Addressed.{AreAddressed, update-AreAddressed}
use top.Mail.Queued.{test-AreAddressed, result-AreAddressed}
use top.Mail.Attempts.{dispatch-AreAddressed}

-- A transaction that commits.
pub data Step (s : MailStore) : MailStore → Type 0 where
  updated :
      (smtp_configured : Bool) (user_id : ℕ) (payload : PreferenceUpdate) (t : MailStore)
      → update_run_email_preference smtp_configured user_id payload s ≡ ok t
      → Step s t
  tested :
      (smtp_configured : Bool) (fresh : ℕ → ℕ) (moment user_id : ℕ) (t : MailStore)
      → enqueue_run_email_test smtp_configured fresh moment user_id s ≡ ok t
      → Step s t
  concluded :
      (base : Store) (fresh : EmailDelivery → ℕ) (run : Run) (moment : ℕ)
      → Step s (queue_result base fresh run moment s)
  dispatched :
      (send : MailDelivery → Sent) (locked : ℕ → Bool) (n max_attempts moment : ℕ)
      (rows : List MailDelivery) (u : EmailSummary)
      → dispatch_run_email_batch send locked n max_attempts moment s.deliveries ≡ some (rows, u)
      → Step s (record s { deliveries = rows })

-- Transactions one after the other.
pub data Reach (s : MailStore) : MailStore → Type 0 where
  start : Reach s s
  next : {t u : MailStore} → Reach s t → Step t u → Reach s u

Step-AreAddressed : (s t : MailStore) → Step s t → AreAddressed s → AreAddressed t
Step-AreAddressed s t (updated smtp user payload _ went) was =
    update-AreAddressed smtp user payload s t was went
Step-AreAddressed s t (tested smtp fresh moment user _ went) was =
    test-AreAddressed smtp fresh moment user s t was went
Step-AreAddressed s _ (concluded base fresh run moment) was =
    result-AreAddressed base fresh run moment s was
Step-AreAddressed s _ (dispatched send locked n max_attempts moment rows u went) was =
    dispatch-AreAddressed send locked n max_attempts moment s rows u was went

-- Over any sequence of changes of preferences, test e-mails, ends of Runs and dispatch batches, each
-- PENDING e-mail goes to an address that the preference which its owner has then selects, and if it is
-- on a result that preference is enabled. The statuses that a preference names are no part of this.
pub Reach-AreAddressed : (s t : MailStore) → AreAddressed s → Reach s t → AreAddressed t
Reach-AreAddressed s t was start = was
Reach-AreAddressed s t was (next {t = between} before step) =
    Step-AreAddressed between t step (Reach-AreAddressed s between was before)
