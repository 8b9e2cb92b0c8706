-- ===== src/Mail/Addressed.antt =====
-- run_email_services.py: the PENDING e-mails go to addresses that the preferences select now.
use top.Base.{
  ℕ, ◌≡◌, refl, sym, ap, Bool, true, false, not, ◌&&◌, ◌||◌, ◌==◌, Option, none, some, List, [],
  ◌∷◌, All, All-map, any, first, update_where, Bool-cases, inl, inr, arith, if◌then◌else◌,
}
use mathlib.Core.Path.{subst}
use top.Contracts.{Text, text_eq}
use top.Service.{ok, call_returned, check}
use top.Store.Rows.{EmailPreference}
use top.Lifecycle.Emails.{selected_preference_emails}
use top.Mail.Preferences.{
  MailStore, MailDelivery, MailKind, PreferenceUpdate, is_pending, edited_preference,
  changes_recipients, put_preference, of_user, cancel, cancel_pending, write_preference,
  update_run_email_preference,
}
use top.Mail.Chosen.{edited-selected, first-update_same, first-update_other}

abbrev pub is_test : MailKind → Bool
is_test MailKind.run_email_test = true
is_test (MailKind.run_result status) = false

-- A preference selects the recipient of an e-mail, and is enabled for one on a result. Its statuses do
-- not count: a change of them alone leaves the queued e-mails, as Samples shows.
abbrev pub chosen_by : Option EmailPreference → Text → MailKind → Bool
chosen_by none address kind = false
chosen_by (some p) address kind =
    any (λ a. text_eq a address) (selected_preference_emails p) && (is_test kind || p.enabled)

abbrev pub addressed_by : Option EmailPreference → MailDelivery → Bool
addressed_by found d = chosen_by found d.recipient_email d.kind

-- While an e-mail is PENDING, the preference that its owner has now selects its recipient.
abbrev pub IsAddressed : List EmailPreference → MailDelivery → Type 0
IsAddressed preferences d =
    is_pending d.status ≡ true → addressed_by (first (of_user d.user_id) preferences) d ≡ true

abbrev pub AreAddressed : MailStore → Type 0
AreAddressed s = All (IsAddressed s.preferences) s.deliveries

addressed-edited :
    (p new : EmailPreference) (d : MailDelivery)
    → selected_preference_emails new ≡ selected_preference_emails p
    → new.enabled ≡ true
    → addressed_by (some p) d ≡ true
    → addressed_by (some new) d ≡ true
addressed-edited p new d same enabled addressed =
    let chosen : any (λ a. text_eq a d.recipient_email) (selected_preference_emails new)
        ≡ any (λ a. text_eq a d.recipient_email) (selected_preference_emails p) =
      ap (any (λ a. text_eq a d.recipient_email)) same in
    ground arith

module _ (rows : List EmailPreference) (user_id : ℕ) (payload : PreferenceUpdate) where
  abbrev after : List EmailPreference
  after =
      put_preference (first (of_user user_id) rows) user_id (edited_preference user_id payload) rows

  other-first :
      (other : ℕ) (found : Option EmailPreference) (new : EmailPreference)
      → new.user_id ≡ user_id
      → (user_id == other) ≡ false
      → first (of_user other) (put_preference found user_id new rows) ≡ first (of_user other) rows
  unfolding put_preference first
  other-first other none new met apart = ground arith
  other-first other (some p) new met apart = first-update_other user_id other new rows met apart

  -- The e-mails of another user are chosen as before.
  other-IsAddressed :
      (d : MailDelivery) → (user_id == d.user_id) ≡ false → IsAddressed rows d → IsAddressed after d
  unfolding edited_preference
  other-IsAddressed d apart was pending =
      subst (λ o. addressed_by o d ≡ true)
        (sym (
          other-first d.user_id (first (of_user user_id) rows) (edited_preference user_id payload)
            refl apart))
        (was pending)

  own-IsAddressed :
      (d : MailDelivery) (found : Option EmailPreference)
      → first (of_user user_id) rows ≡ found
      → changes_recipients found payload ≡ false
      → addressed_by found d ≡ true
      → addressed_by
          (first
            (of_user user_id)
            (put_preference found user_id (edited_preference user_id payload) rows))
          d
        ≡ true
  unfolding put_preference edited_preference
  own-IsAddressed d none same unchanged addressed = cc
  own-IsAddressed d (some p) same unchanged addressed =
      let new = edited_preference user_id payload in
      let (chosen, enabled) = edited-selected user_id p payload unchanged in
      let mine : of_user user_id new ≡ true = ground arith in
      subst (λ o. addressed_by o d ≡ true)
        (sym (first-update_same user_id new rows {p = p} mine same))
        (addressed-edited p new d chosen enabled addressed)

  unchanged-IsAddressed :
      (d : MailDelivery)
      → changes_recipients (first (of_user user_id) rows) payload ≡ false
      → IsAddressed rows d
      → IsAddressed after d
  unchanged-IsAddressed d unchanged was = elim (Bool-cases (user_id == d.user_id)) [
    | inr apart ↦ other-IsAddressed d apart was
    | inl e ↦
        let same : user_id ≡ d.user_id = ground (arith, e) in
        λ pending.
          subst (λ u. addressed_by (first (of_user u) after) d ≡ true) same
            (own-IsAddressed d (first (of_user user_id) rows) refl unchanged (
              subst (λ u. addressed_by (first (of_user u) rows) d ≡ true) (sym same) (was pending)))
  ]

  canceled_row-IsAddressed :
      (d : MailDelivery) (canceled : Bool)
      → canceled ≡ ((d.user_id == user_id) && is_pending d.status)
      → IsAddressed rows d
      → IsAddressed after (if canceled then cancel d else d)
  canceled_row-IsAddressed d true test was = λ pending. cc
  canceled_row-IsAddressed d false test was = elim (Bool-cases (user_id == d.user_id)) [
    | inr apart ↦ other-IsAddressed d apart was
    | inl e ↦ λ pending. absurd (ground arith)
  ]

  canceled-IsAddressed :
      (ds : List MailDelivery)
      → All (IsAddressed rows) ds
      → All (IsAddressed after) (cancel_pending user_id ds)
  unfolding cancel_pending update_where
  canceled-IsAddressed [] was = tt
  canceled-IsAddressed (d ∷ ds) (here, was) =
      (canceled_row-IsAddressed d _ refl here, canceled-IsAddressed ds was)

written-AreAddressed :
    (user_id : ℕ) (payload : PreferenceUpdate) (s : MailStore)
    → AreAddressed s
    → AreAddressed (write_preference (first (of_user user_id) s.preferences) user_id payload s)
unfolding write_preference
written-AreAddressed user_id payload s was =
    elim (Bool-cases (changes_recipients (first (of_user user_id) s.preferences) payload)) [
      | inl e ↦
          subst
            (λ b.
              All (IsAddressed (after s.preferences user_id payload))
                (if b then cancel_pending user_id s.deliveries else s.deliveries))
            (sym e) (canceled-IsAddressed s.preferences user_id payload s.deliveries was)
      | inr e ↦
          subst
            (λ b.
              All (IsAddressed (after s.preferences user_id payload))
                (if b then cancel_pending user_id s.deliveries else s.deliveries))
            (sym e)
            (All-map (IsAddressed s.preferences) (IsAddressed (after s.preferences user_id payload))
              s.deliveries (λ d here. unchanged-IsAddressed s.preferences user_id payload d e here)
              was)
    ]

pub ok-injective : {A : Type 0} {a b : A} → ok a ≡ ok b → a ≡ b
ok-injective same = cc

-- The change of a preference, where it returns.
pub update-AreAddressed :
    (smtp_configured : Bool) (user_id : ℕ) (payload : PreferenceUpdate) (s t : MailStore)
    → AreAddressed s
    → update_run_email_preference smtp_configured user_id payload s ≡ ok t
    → AreAddressed t
unfolding update_run_email_preference
update-AreAddressed smtp_configured user_id payload s t was returned =
    let (u, enabled, next) =
      call_returned (check (not payload.enabled || smtp_configured) _) _ returned in
    let (v, known, last) = call_returned (check (any (λ x. x == user_id) s.users) _) _ next in
    subst AreAddressed (ok-injective last) (written-AreAddressed user_id payload s was)
