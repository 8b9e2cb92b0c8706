-- ===== src/Lifecycle/Freed.antt =====
-- The leases of a Run of which one is closed, as `_release_runner_slot` and `_recover_run` do.
use top.Base.{
  ℕ, ◌≤◌, ◌≡◌, refl, Bool, true, false, inl, inr, some, List, [], ◌∷◌, arith, ◌==◌, first,
  update_where, count_where, first-none→count, Bool-cases, Option-cases,
}
use top.Store.{Store, active_lease, active_of_run, update_lease}
use top.Store.Rows.{Lease}
use top.Lifecycle.Results.{release_runner_slot, on_lease}

module _ {ℓ} {A : Type ℓ} (p q : A → Bool) (f : A → A) (closes : (y : A) → p (f y) ≡ false) where
  closed_stay : (xs : List A) → count_where p xs ≡ 0 → count_where p (update_where q f xs) ≡ 0
  unfolding count_where update_where
  closed_stay [] h = refl
  closed_stay (x ∷ xs) h = ground (arith, closes x, closed_stay xs)

  -- Closing the only row that a query finds.
  close_only :
      (xs : List A) (x : A)
      → first p xs ≡ some x
      → count_where p xs ≤ 1
      → q x ≡ true
      → count_where p (update_where q f xs) ≡ 0
  unfolding first count_where update_where
  close_only [] x h one met = absurd (ground arith)
  close_only (y ∷ ys) x h one met = elim (Bool-cases (p y)) [
    | inl e ↦ ground (arith, closes y, closed_stay ys)
    | inr e ↦ ground (arith, closes y, close_only ys x)
  ]

-- A lease that is closed was the Run's only one.
pub close-leases :
    (run : ℕ) (f : Lease → Lease) (s : Store)
    → ((l : Lease) → active_of_run run (f l) ≡ false)
    → count_where (active_of_run run) s.leases ≤ 1
    → count_where (active_of_run run) (on_lease (active_lease s run) f s).leases ≡ 0
unfolding active_lease update_lease
close-leases run f s closes one = elim (Option-cases (first (active_of_run run) s.leases)) [
  | inl n ↦ rw (n, on_lease) (first-none→count (active_of_run run) s.leases n)
  | inr (l, q) ↦
      rw (q, on_lease)
        (close_only (active_of_run run) (λ x. x.id == l.id) f closes s.leases l q one
          (ground arith))
]

pub release-leases :
    (run now : ℕ) (s : Store)
    → count_where (active_of_run run) s.leases ≤ 1
    → count_where (active_of_run run) (release_runner_slot run now s).leases ≡ 0
unfolding release_runner_slot
release-leases run now s one = close-leases run _ s (λ l. refl) one
