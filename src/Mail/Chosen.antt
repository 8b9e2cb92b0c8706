-- ===== src/Mail/Chosen.antt =====
-- run_email_services.py: the addresses that a preference chooses, over a change of it.
use top.Base.{
  ℕ, ◌≡◌, refl, ◌∙◌, sym, ap, Bool, true, false, ◌==◌, some, List, [], ◌∷◌, All, select, first,
  update_where, Bool-cases, inl, inr, arith,
}
use top.Contracts.{Text, text_eq}
use top.Store.Rows.{EmailPreference}
use top.Lifecycle.Emails.{preference_emails, selected_preference_emails}
use top.Lifecycle.Recipients.{is_listed, selected-listed}
use top.Lifecycle.Repeat.{text_eq-eq}
use top.Mail.Preferences.{
  PreferenceUpdate, texts_eq, or_empty, first_of, edited_preference, changes_recipients, of_user,
}

texts_eq-eq : (xs ys : List Text) → texts_eq xs ys ≡ true → xs ≡ ys
unfolding texts_eq
texts_eq-eq [] [] same = refl
texts_eq-eq (a ∷ xs) (b ∷ ys) same = elim (Bool-cases (text_eq a b)) [
  | inl e ↦ let head = text_eq-eq a b e in let rest = texts_eq-eq xs ys (rw e at same) in cc
  | inr e ↦ cc (rw e at same)
]
texts_eq-eq [] (b ∷ ys) same = cc
texts_eq-eq (a ∷ xs) [] same = cc

select-all : (p : Text → Bool) (xs : List Text) → All (λ x. p x ≡ true) xs → select p xs ≡ xs
unfolding select
select-all p [] all = refl
select-all p (x ∷ xs) (px, all) = rw px (ap (λ rest. x ∷ rest) (select-all p xs all))

first_of-emails :
    (es : List Text) (user_id : ℕ) (p : EmailPreference)
    → p.emails ≡ es
    → p.email ≡ first_of es
    → preference_emails p ≡ es
unfolding preference_emails
first_of-emails [] user_id p many one = rw (many, one, preference_emails) refl
first_of-emails (e ∷ es) user_id p many one = rw (many, preference_emails) refl

chosen-selected :
    (q : EmailPreference) (chosen : List Text)
    → q.selected_emails ≡ some chosen
    → selected_preference_emails q ≡ select (is_listed (preference_emails q)) chosen
unfolding selected_preference_emails
chosen-selected q chosen same = rw (same, selected_preference_emails) refl

-- A preference that names the addresses that another one chooses, of the same configured ones,
-- chooses them too.
selected_same :
    (p q : EmailPreference)
    → preference_emails q ≡ preference_emails p
    → q.selected_emails ≡ some (selected_preference_emails p)
    → selected_preference_emails q ≡ selected_preference_emails p
selected_same p q configured chosen =
    let listed = selected_preference_emails p in
    chosen-selected q listed chosen
    ∙ ap (λ es. select (is_listed es) listed) configured
    ∙ select-all (is_listed (preference_emails p)) listed (selected-listed p)

-- A change that leaves the recipients leaves what is chosen.
pub edited-selected :
    (user_id : ℕ) (p : EmailPreference) (payload : PreferenceUpdate)
    → changes_recipients (some p) payload ≡ false
    → (selected_preference_emails (edited_preference user_id payload)
        ≡ selected_preference_emails p)
      × (payload.enabled ≡ true)
unfolding changes_recipients edited_preference
edited-selected user_id p payload unchanged =
    let emails : preference_emails p ≡ or_empty payload.emails =
      texts_eq-eq _ _ (ground (arith, unchanged)) in
    let chosen : selected_preference_emails p ≡ or_empty payload.selected_emails =
      texts_eq-eq _ _ (ground (arith, unchanged)) in
    (
      selected_same p (edited_preference user_id payload)
          (first_of-emails _ user_id (edited_preference user_id payload) refl refl ∙ sym emails)
          (ap some (sym chosen)),
      ground (arith, unchanged),
    )

-- The row of a user after it was written, and the row of another.
pub first-update_same :
    (user_id : ℕ) (new : EmailPreference) (rows : List EmailPreference) {p : EmailPreference}
    → of_user user_id new ≡ true
    → first (of_user user_id) rows ≡ some p
    → first (of_user user_id) (update_where (of_user user_id) (λ _. new) rows) ≡ some new
unfolding first update_where
first-update_same user_id new [] met found = cc
first-update_same user_id new (x ∷ rows) {p} met found = elim (Bool-cases (of_user user_id x)) [
  | inl e ↦ rw (e, met) refl
  | inr e ↦ rw (e, e) (first-update_same user_id new rows {p = p} met (rw e at found))
]

pub first-update_other :
    (user_id other : ℕ) (new : EmailPreference) (rows : List EmailPreference)
    → new.user_id ≡ user_id
    → (user_id == other) ≡ false
    → first (of_user other) (update_where (of_user user_id) (λ _. new) rows)
      ≡ first (of_user other) rows
unfolding first update_where
first-update_other user_id other new [] met apart = refl
first-update_other user_id other new (x ∷ rows) met apart =
    let rest = first-update_other user_id other new rows met apart in
    elim (Bool-cases (of_user user_id x)) [ inl e ↦ ground arith | inr e ↦ ground arith ]
