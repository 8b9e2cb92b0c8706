-- ===== src/Lifecycle/Recipients.antt =====
-- Whom the notification of a terminal Run goes to.
use top.Base.{
  ℕ, ◌≡◌, refl, Bool, true, inl, inr, some, List, [], ◌∷◌, arith, ◌==◌, ◌&&◌, All, All-map,
  All-select, ◌⊎◌, any, first, first-some, map, Bool-cases, Option-cases,
}
use top.Contracts.{Text, lower, text_eq, same_status}
use top.Store.{Store}
use top.Store.Rows.{Run, EmailPreference, EmailDelivery}
use top.Lifecycle.Emails.{
  preference_emails, selected_preference_emails, delivery_to, result_deliveries,
}
use top.Lifecycle.Repeat.{text_eq_refl}

-- `address` is one of the addresses, up to case.
abbrev pub is_listed : List Text → Text → Bool
is_listed listed address = any (λ c. text_eq (lower c) (lower address)) listed

listed-more :
    (a : Text) (b : Text) (ls : List Text) → is_listed ls a ≡ true → is_listed (b ∷ ls) a ≡ true
unfolding any
listed-more a b ls h = ground arith

all-listed : (ls : List Text) → All (λ a. is_listed ls a ≡ true) ls
unfolding any
all-listed [] = tt
all-listed (a ∷ ls) = (
  ground (arith, text_eq_refl (lower a)),
  All-map _ _ ls (λ b h. listed-more b a ls h) (all-listed ls),
)

pub selected-listed :
    (p : EmailPreference)
    → All (λ a. is_listed (preference_emails p) a ≡ true) (selected_preference_emails p)
unfolding selected_preference_emails
selected-listed p = elim (Option-cases p.selected_emails) [
  | inl n ↦ rw (n, selected_preference_emails) (all-listed (preference_emails p))
  | inr (chosen, q) ↦
      rw (q, selected_preference_emails)
        (All-select (λ a. is_listed (preference_emails p) a) chosen)
]

-- A delivery that the preference `p` of the Run's creator asked for.
pub record Consented (run : Run) (p : EmailPreference) (d : EmailDelivery) : Type 0 where
  pub owner : p.user_id ≡ run.created_by
  pub enabled : p.enabled ≡ true
  pub chosen : any (λ status. same_status status run.status) p.statuses ≡ true
  pub listed : is_listed (preference_emails p) d.recipient_email ≡ true
  pub about : (d.user_id ≡ run.created_by) × (d.run_id ≡ run.id) × (d.run_status ≡ run.status)

deliver_all :
    (run : Run) (now : ℕ) (p : EmailPreference) (as' : List Text)
    → p.user_id ≡ run.created_by
    → p.enabled ≡ true
    → any (λ status. same_status status run.status) p.statuses ≡ true
    → All (λ a. is_listed (preference_emails p) a ≡ true) as'
    → All (Consented run p) (map (delivery_to run now) as')
unfolding delivery_to
deliver_all run now p [] o e c all = tt
deliver_all run now p (a ∷ as') o e c all = (
  record { owner = o; enabled = e; chosen = c; listed = all.0; about = (refl, refl, refl) },
  deliver_all run now p as' o e c all.1,
)

-- Where a terminal Run is notified at all, its creator has an enabled preference that names the
-- Run's status, and every delivery is about the Run, to one of the addresses of that preference.
pub result_deliveries-Consented :
    (s : Store) (run : Run) (now : ℕ)
    → (result_deliveries s run now ≡ [])
      ⊎ ((p : EmailPreference) × (first (λ x. x.user_id == run.created_by) s.preferences ≡ some p)
          × All (Consented run p) (result_deliveries s run now))
unfolding result_deliveries
result_deliveries-Consented s run now =
    elim (Option-cases (first (λ x. x.user_id == run.created_by) s.preferences)) [
      | inl n ↦ inl (ground arith)
      | inr (p, q) ↦
          elim (Bool-cases
            (p.enabled && any (λ status. same_status status run.status) p.statuses)) [
              | inr n ↦ inl (ground arith)
              | inl y ↦
                  let owner =
                    first-some (λ x. x.user_id == run.created_by) s.preferences {x = p} q in
                  inr (
                    p,
                    q,
                    rw (q, result_deliveries)
                        (rw y (
                          deliver_all run now p (selected_preference_emails p) (ground arith)
                            (ground arith) (ground arith) (selected-listed p))),
                  )
            ]
    ]
