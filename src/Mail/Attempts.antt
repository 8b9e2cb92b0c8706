-- ===== src/Mail/Attempts.antt =====
-- run_emails.py: a batch attempts the PENDING e-mails of their owners and adds none.
use top.Base.{
  ℕ, ◌≡◌, refl, ◌∙◌, Bool, true, false, not, ◌&&◌, ◌==◌, ◌+◌, leb, some, List, [], ◌∷◌, All,
  All-map, All-limit, All-order_by, All-select_of, All-update_where, first, Bool-cases, inl, inr,
  arith, if◌then◌else◌, update_where,
}
use mathlib.Core.Path.{subst}
use top.Store.Rows.{EmailPreference}
use top.Mail.Preferences.{MailStore, MailDelivery, is_pending, of_user}
use top.Mail.Delivery.{
  Sent, returned, crashed, refused, email_failed, settle_email, attempt_email, EmailSummary,
  count_email, queued_before, due_emails, attempt_emails, dispatch_run_email_batch,
}
use top.Mail.Addressed.{IsAddressed, AreAddressed, addressed_by}

module _ (preferences : List EmailPreference) where
  abbrev is_addressed : MailDelivery → Bool
  is_addressed d = addressed_by (first (of_user d.user_id) preferences) d

  if-addressed :
      (test : Bool) (x y d : MailDelivery)
      → is_addressed x ≡ is_addressed d
      → is_addressed y ≡ is_addressed d
      → is_addressed (if test then x else y) ≡ is_addressed d
  if-addressed true x y d left right = left
  if-addressed false x y d left right = right

  -- An attempt keeps whose e-mail it is and whom it goes to.
  settle_email-addressed :
      (max_attempts moment : ℕ) (sent : Sent) (d : MailDelivery)
      → is_addressed (settle_email max_attempts moment sent d) ≡ is_addressed d
  unfolding settle_email email_failed
  settle_email-addressed max_attempts moment returned d = refl
  settle_email-addressed max_attempts moment crashed d =
      if-addressed (leb max_attempts d.attempts) _ _ d refl refl
  settle_email-addressed max_attempts moment (refused e) d =
      if-addressed (leb max_attempts d.attempts) _ _ d refl refl

  module _ (send : MailDelivery → Sent) (max_attempts moment : ℕ) where
    attempt_email-IsAddressed :
        (d : MailDelivery)
        → is_addressed d ≡ true
        → IsAddressed preferences (attempt_email send max_attempts moment d)
    unfolding attempt_email
    attempt_email-IsAddressed d addressed pending =
        let counted : MailDelivery = record d { attempts = d.attempts + 1 } in
        settle_email-addressed max_attempts moment (send counted) counted ∙ addressed

    attempt_emails-IsAddressed :
        (ds rows : List MailDelivery) (u : EmailSummary)
        → All (λ d. is_addressed d ≡ true) ds
        → All (IsAddressed preferences) rows
        → All (IsAddressed preferences) (attempt_emails send max_attempts moment ds rows u).0
    unfolding attempt_emails
    attempt_emails-IsAddressed [] rows u addressed was = was
    attempt_emails-IsAddressed (d ∷ ds) rows u (here, addressed) was =
        let after = attempt_email send max_attempts moment d in
        attempt_emails-IsAddressed ds (update_where (λ x. x.id == d.id) (λ _. after) rows)
          (count_email after.status u) addressed
          (All-update_where (IsAddressed preferences) (λ x. x.id == d.id) (λ _. after) rows
            (λ x before. attempt_email-IsAddressed d here) was)

  due_emails-addressed :
      (locked : ℕ → Bool) (moment n : ℕ) (rows : List MailDelivery)
      → All (IsAddressed preferences) rows
      → All (λ d. is_addressed d ≡ true) (due_emails locked moment n rows)
  unfolding due_emails
  due_emails-addressed locked moment n rows was =
      All-limit (λ d. is_addressed d ≡ true) n _
        (All-order_by (λ d. is_addressed d ≡ true) queued_before _
          (All-map
            (λ d.
              IsAddressed preferences d
              × ((is_pending d.status && leb d.available_at moment && not (locked d.id)) ≡ true))
            (λ d. is_addressed d ≡ true) _ (λ d (before, ready). before (ground (arith, ready)))
            (All-select_of (IsAddressed preferences) _ rows was)))

-- A batch of the dispatcher.
pub dispatch-AreAddressed :
    (send : MailDelivery → Sent) (locked : ℕ → Bool) (n max_attempts moment : ℕ) (s : MailStore)
    (rows : List MailDelivery) (u : EmailSummary)
    → AreAddressed s
    → dispatch_run_email_batch send locked n max_attempts moment s.deliveries ≡ some (rows, u)
    → AreAddressed (record s { deliveries = rows })
unfolding dispatch_run_email_batch
dispatch-AreAddressed send locked n max_attempts moment s rows u was done =
    let start : EmailSummary = record { selected = 0; delivered = 0; retrying = 0; failed = 0 } in
    let due = due_emails locked moment n s.deliveries in
    let kept =
      attempt_emails-IsAddressed s.preferences send max_attempts moment due s.deliveries start
        (due_emails-addressed s.preferences locked moment n s.deliveries was) was in
    elim (Bool-cases (leb 1 n && leb n 500)) [
      | inr other ↦ cc (rw other at done)
      | inl limited ↦ elim (Bool-cases (leb 1 max_attempts && leb max_attempts 20)) [
        | inr other ↦ cc (rw (limited, other) at done)
        | inl possible ↦
            let same : attempt_emails send max_attempts moment due s.deliveries start ≡ (rows, u) =
              cc (rw (limited, possible) at done) in
            subst (λ x. All (IsAddressed s.preferences) x.0) same kept
      ]
    ]
