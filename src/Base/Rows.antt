-- ===== src/Base/Rows.antt =====
-- Tables are lists of rows. `select` is a WHERE clause, `update_where` an UPDATE, `first` the
-- scalar of a query, `limit` its LIMIT, `count_where` and `sum_where` its aggregates.
use Prim.Native.Nat.{ℕ, zero, suc, ◌+◌, ◌≤◌}
use mathlib.Core.Path.{◌≡◌, refl, subst}
use mathlib.Core.Logic.{inl, inr}
use mathlib.Core.Bool.{Bool, true, false}
use mathlib.Core.Option.{Option, none, some}
use mathlib.Core.List.{List, [], ◌∷◌, ◌++◌}
use native.Mathlib.Omega.{arith}
use top.Base.Tests.{is_some, if◌then◌else◌, Bool-cases}

module _ {ℓ} {A : Type ℓ} where
  abbrev pub length : List A → ℕ
  length [] = 0
  length (x ∷ xs) = suc (length xs)

  unfoldable pub select : (A → Bool) → List A → List A
  select p [] = []
  select p (x ∷ xs) = let rest = select p xs in if p x then x ∷ rest else rest

  unfoldable pub first : (A → Bool) → List A → Option A
  first p [] = none
  first p (x ∷ xs) = let rest = first p xs in if p x then some x else rest

  unfoldable pub update_where : (A → Bool) → (A → A) → List A → List A
  update_where p f [] = []
  update_where p f (x ∷ xs) = (if p x then f x else x) ∷ update_where p f xs

  insert_by : (A → A → Bool) → A → List A → List A
  insert_by before x [] = x ∷ []
  insert_by before x (y ∷ ys) =
      let rest = y ∷ ys in if before x y then x ∷ rest else y ∷ insert_by before x ys

  -- ORDER BY: `before x y` says that `x` may stand before `y`.
  unfoldable pub order_by : (A → A → Bool) → List A → List A
  unfolding insert_by
  order_by before [] = []
  order_by before (x ∷ xs) = insert_by before x (order_by before xs)

  abbrev pub limit : ℕ → List A → List A
  limit zero xs = []
  limit (suc n) [] = []
  limit (suc n) (x ∷ xs) = x ∷ limit n xs

  unfoldable pub count_where : (A → Bool) → List A → ℕ
  count_where p [] = 0
  count_where p (x ∷ xs) = (if p x then 1 else 0) + count_where p xs

  unfoldable pub sum_where : (A → Bool) → (A → ℕ) → List A → ℕ
  sum_where p f [] = 0
  sum_where p f (x ∷ xs) = (if p x then f x else 0) + sum_where p f xs

  unfoldable pub any : (A → Bool) → List A → Bool
  any p [] = false
  any p (x ∷ xs) = let rest = any p xs in if p x then true else rest

  -- Every row has the property.
  abbrev pub All {κ} : (A → Type κ) → List A → Type κ
  All P [] = Unit
  All P (x ∷ xs) = P x × All P xs

  pub length-limit : (n : ℕ) (xs : List A) → length (limit n xs) ≤ n
  length-limit zero xs = omega arith
  length-limit (suc n) [] = omega arith
  length-limit (suc n) (x ∷ xs) = omega (arith, length-limit n xs)

  pub first-some : (p : A → Bool) (xs : List A) {x : A} → first p xs ≡ some x → p x ≡ true
  unfolding first
  first-some p [] h = cc
  first-some p (y ∷ ys) {x} h = ground (arith, first-some p ys {x = x})

  pub first-none→count : (p : A → Bool) (xs : List A) → first p xs ≡ none → count_where p xs ≡ 0
  unfolding first count_where
  first-none→count p [] h = refl
  first-none→count p (y ∷ ys) h = ground (arith, first-none→count p ys)

  pub count_where-append :
      (p : A → Bool) (xs ys : List A)
      → count_where p (xs ++ ys) ≡ count_where p xs + count_where p ys
  unfolding count_where
  count_where-append p [] ys = omega arith
  count_where-append p (x ∷ xs) ys = omega (arith, count_where-append p xs ys)

  -- An update that never makes a row satisfy `p` cannot raise the count.
  pub count_where-update_le :
      (p q : A → Bool) (f : A → A) (xs : List A)
      → ((x : A) → p (f x) ≡ true → p x ≡ true)
      → count_where p (update_where q f xs) ≤ count_where p xs
  unfolding count_where update_where
  count_where-update_le p q f [] h = omega arith
  count_where-update_le p q f (x ∷ xs) h = ground (arith, h x, count_where-update_le p q f xs h)

  pub select-append :
      (p : A → Bool) (xs ys : List A) → select p (xs ++ ys) ≡ select p xs ++ select p ys
  unfolding select
  select-append p [] ys = refl
  select-append p (x ∷ xs) ys = ground (arith, select-append p xs ys)

  pub All-select : (p : A → Bool) (xs : List A) → All (λ x. p x ≡ true) (select p xs)
  unfolding select
  All-select p [] = tt
  All-select p (x ∷ xs) = elim (Bool-cases (p x)) [
    | inl e ↦ rw e (e, All-select p xs)
    | inr e ↦ rw e (All-select p xs)
  ]

  pub All-limit {κ} : (P : A → Type κ) (n : ℕ) (xs : List A) → All P xs → All P (limit n xs)
  All-limit P zero xs h = tt
  All-limit P (suc n) [] h = tt
  All-limit P (suc n) (x ∷ xs) h = (h.0, All-limit P n xs h.1)

  All-insert_by {κ} :
      (P : A → Type κ) (before : A → A → Bool) (x : A) (ys : List A)
      → P x
      → All P ys
      → All P (insert_by before x ys)
  unfolding insert_by
  All-insert_by P before x [] px pys = (px, tt)
  All-insert_by P before x (y ∷ ys) px (py, pys) = elim (Bool-cases (before x y)) [
    | inl e ↦ rw e (px, (py, pys))
    | inr e ↦ rw e (py, All-insert_by P before x ys px pys)
  ]

  pub All-order_by {κ} :
      (P : A → Type κ) (before : A → A → Bool) (xs : List A) → All P xs → All P (order_by before xs)
  unfolding order_by
  All-order_by P before [] pxs = tt
  All-order_by P before (x ∷ xs) (px, pxs) =
      All-insert_by P before x (order_by before xs) px (All-order_by P before xs pxs)

  -- What holds of every row holds of the selected ones.
  pub All-kept {κ} : (P : A → Type κ) (p : A → Bool) (xs : List A) → All P xs → All P (select p xs)
  unfolding select
  All-kept P p [] pxs = tt
  All-kept P p (x ∷ xs) (px, pxs) = elim (Bool-cases (p x)) [
    | inl e ↦ rw e (px, All-kept P p xs pxs)
    | inr e ↦ rw e (All-kept P p xs pxs)
  ]

  -- And the selected ones pass the test.
  pub All-select_of {κ} :
      (P : A → Type κ) (p : A → Bool) (xs : List A)
      → All P xs
      → All (λ x. P x × (p x ≡ true)) (select p xs)
  unfolding select
  All-select_of P p [] h = tt
  All-select_of P p (x ∷ xs) h = elim (Bool-cases (p x)) [
    | inl e ↦ rw e ((h.0, e), All-select_of P p xs h.1)
    | inr e ↦ rw e (All-select_of P p xs h.1)
  ]

  pub All-first {κ} :
      (P : A → Type κ) (p : A → Bool) (xs : List A) {x : A} → All P xs → first p xs ≡ some x → P x
  unfolding first
  All-first P p [] all found = cc
  All-first P p (y ∷ ys) {x} (py, pys) found = elim (Bool-cases (p y)) [
    | inl e ↦ let same : y ≡ x = cc (rw e at found) in subst P same py
    | inr e ↦ All-first P p ys pys (rw e at found)
  ]

  pub All-map {κ ι} :
      (P : A → Type κ) (Q : A → Type ι) (xs : List A) → ((x : A) → P x → Q x) → All P xs → All Q xs
  All-map P Q [] f h = tt
  All-map P Q (x ∷ xs) f h = (f x h.0, All-map P Q xs f h.1)

  pub All-update_where {κ} :
      (P : A → Type κ) (q : A → Bool) (f : A → A) (xs : List A)
      → ((x : A) → P x → P (f x))
      → All P xs
      → All P (update_where q f xs)
  unfolding update_where
  All-update_where P q f [] k h = tt
  All-update_where P q f (x ∷ xs) k h = elim (Bool-cases (q x)) [
    | inl e ↦ rw e (k x h.0, All-update_where P q f xs k h.1)
    | inr e ↦ rw e (h.0, All-update_where P q f xs k h.1)
  ]

-- The row that a query finds, after an update that meets it and keeps the query's test.
pub first-update_where {ℓ} :
    {A : Type ℓ} (p q : A → Bool) (f : A → A) (xs : List A) (x : A)
    → ((y : A) → p (f y) ≡ p y)
    → first p xs ≡ some x
    → q x ≡ true
    → first p (update_where q f xs) ≡ some (f x)
unfolding first update_where
first-update_where p q f [] x keeps h met = absurd (ground arith)
first-update_where p q f (y ∷ ys) x keeps h met = elim (Bool-cases (p y)) [
  | inl e ↦ ground (arith, keeps y)
  | inr e ↦ ground (arith, keeps y, first-update_where p q f ys x keeps)
]

-- The row that a query finds, after it has been replaced by one that the query finds too.
pub first-put {ℓ} :
    {A : Type ℓ} (p : A → Bool) (new : A) (xs : List A)
    → p new ≡ true
    → is_some (first p xs) ≡ true
    → first p (update_where p (λ _. new) xs) ≡ some new
unfolding first update_where
first-put p new [] met found = cc
first-put p new (x ∷ xs) met found = elim (Bool-cases (p x)) [
  | inl e ↦ rw (e, met) refl
  | inr e ↦ rw (e, e) (first-put p new xs met (rw e at found))
]
