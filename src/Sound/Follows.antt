-- ===== src/Sound/Follows.antt =====
-- What one transaction does to the statuses of the Runs that are there before it.
use top.Base.{
  ℕ, ◌≡◌, refl, ◌∙◌, sym, ap, ◌⊎◌, inl, inr, true, false, some, List, [], ◌∷◌, ◌==◌, arith, first,
  update_where, Bool-cases, first-update_where, first-some, if◌then◌else◌,
}
use mathlib.Core.Path.{subst}
use top.Contracts.{RunStatus}
use top.RunState.{allowed, is_terminal}
use top.Store.Rows.{Run}
use top.Lifecycle.Steps.{Steps, Idles}
use top.Sound.Kept.{Steps-first}

-- The status stays, or takes one allowed transition.
abbrev pub Moves : RunStatus → RunStatus → Type 0
Moves a b = (b ≡ a) ⊎ (allowed a b ≡ true)

-- The status stays, or takes one allowed transition to a terminal status.
abbrev pub Finishes : RunStatus → RunStatus → Type 0
Finishes a b = (b ≡ a) ⊎ ((allowed a b ≡ true) × (is_terminal b ≡ true))

abbrev pub Stays : RunStatus → RunStatus → Type 0
Stays a b = b ≡ a

-- Nothing follows a terminal status, so a loop of such steps is one of them.
pub Finishes-trans : (a b c : RunStatus) → Finishes a b → Finishes b c → Finishes a c
unfolding allowed is_terminal
Finishes-trans a b c (inl e) second = subst (λ x. Finishes x c) e second
Finishes-trans a b c first_step (inl e) = subst (λ x. Finishes a x) (sym e) first_step
Finishes-trans a b c (inr (m, ended)) (inr (again, last)) = absurd (ground arith)

pub Finishes-Moves : (a b : RunStatus) → Finishes a b → Moves a b
Finishes-Moves a b (inl e) = inl e
Finishes-Moves a b (inr (m, ended)) = inr m

-- Each Run of `rs` is there in `ts`, with a status that is related to the one before.
abbrev pub Follows : (RunStatus → RunStatus → Type 0) → List Run → List Run → Type 0
Follows R rs ts =
    (id : ℕ) (r : Run)
    → first (λ x. x.id == id) rs ≡ some r
    → (t : Run) × (first (λ x. x.id == id) ts ≡ some t) × R r.status t.status

pub Follows-trans :
    (R : RunStatus → RunStatus → Type 0) (rs ts us : List Run)
    → ((a b c : RunStatus) → R a b → R b c → R a c)
    → Follows R rs ts
    → Follows R ts us
    → Follows R rs us
Follows-trans R rs ts us trans one two id r found =
    let (t, there, step) = one id r found in
    let (u, then_there, next) = two id t there in
    (u, then_there, trans r.status t.status u.status step next)

pub Follows-weaken :
    (R Q : RunStatus → RunStatus → Type 0) (rs ts : List Run)
    → ((a b : RunStatus) → R a b → Q a b)
    → Follows R rs ts
    → Follows Q rs ts
Follows-weaken R Q rs ts weaken one id r found =
    let (t, there, step) = one id r found in (t, there, weaken r.status t.status step)

pub Follows-same :
    (R : RunStatus → RunStatus → Type 0) (rs ts : List Run)
    → ((a : RunStatus) → R a a)
    → ts ≡ rs
    → Follows R rs ts
Follows-same R rs ts stay same id r found =
    (r, ap (first (λ x. x.id == id)) same ∙ found, stay r.status)

pub Steps-Follows : (rs ts : List Run) → Steps rs ts → Follows Moves rs ts
Steps-Follows rs ts steps id r found =
    let (t, there, step) = Steps-first id rs ts r steps found in (t, there, step.moved)

pub Idles-Follows : (rs ts : List Run) → Idles rs ts → Follows Stays rs ts
unfolding first
Idles-Follows [] ts idles id r found = absurd (ground arith)
Idles-Follows (x ∷ xs) [] idles id r found = absurd idles
Idles-Follows (x ∷ xs) (y ∷ ys) (idle, idles) id r found = elim (Bool-cases (x.id == id)) [
  | inl q ↦
      let same : x ≡ r = ground arith in
      (y, ground (arith, idle.step.id), idle.still ∙ ap (λ z. z.status) same)
  | inr q ↦
      let (t, there, still) = Idles-Follows xs ys idles id r (ground arith) in
      (t, ground (arith, idle.step.id), still)
]

-- An update of one Run leaves the others.
first-update_apart :
    (k id : ℕ) (f : Run → Run) (rs : List Run)
    → ((x : Run) → (f x).id ≡ x.id)
    → (k == id) ≡ false
    → first (λ x. x.id == id) (update_where (λ x. x.id == k) f rs) ≡ first (λ x. x.id == id) rs
unfolding first update_where
first-update_apart k id f [] keeps apart = refl
first-update_apart k id f (x ∷ rs) keeps apart =
    let rest = first-update_apart k id f rs keeps apart in
    let same = keeps x in
    elim (Bool-cases (x.id == k)) [
      | inl e ↦ ground arith
      | inr e ↦ rw e (ap (λ o. if x.id == id then some x else o) rest)
    ]

-- An update of a Run that steps the row that was read.
pub update-Follows :
    (R : RunStatus → RunStatus → Type 0) (k : ℕ) (f : Run → Run) (rs : List Run)
    → ((a : RunStatus) → R a a)
    → ((x : Run) → (f x).id ≡ x.id)
    → ((r : Run) → first (λ x. x.id == k) rs ≡ some r → R r.status (f r).status)
    → Follows R rs (update_where (λ x. x.id == k) f rs)
update-Follows R k f rs stay keeps step id r found = elim (Bool-cases (k == id)) [
  | inr apart ↦ (r, first-update_apart k id f rs keeps apart ∙ found, stay r.status)
  | inl e ↦
      let same : id ≡ k = ground arith in
      let read : first (λ x. x.id == k) rs ≡ some r =
        subst (λ i. first (λ x. x.id == i) rs ≡ some r) same found in
      let met : (r.id == k) ≡ true = first-some (λ x. x.id == k) rs {x = r} read in
      (
        f r,
        subst (λ i. first (λ x. x.id == i) (update_where (λ x. x.id == k) f rs) ≡ some (f r))
            (sym same)
            (first-update_where (λ x. x.id == k) (λ x. x.id == k) f rs r
              (λ y. ap (λ i. i == k) (keeps y)) read met),
        step r read,
      )
]
