-- ===== src/Cron/Collect.antt =====
-- cron.py: the members of the candidates that the nested loops of a day collect, and their minimum.
use top.Base.{
  ℕ, ◌≡◌, refl, ◌∙◌, sym, ap, true, ◌||◌, List, [], ◌∷◌, ◌++◌, ◌≤◌, ◌==◌, ltb, any, Bool-cases, inl,
  inr, arith, eq→==, ==_refl,
}
use mathlib.Core.Path.{subst}
use top.Cron.Parse.{mem}
use top.Cron.Next.{collect, min_of}

mem-append : (v : ℕ) (xs ys : List ℕ) → mem v (xs ++ ys) ≡ mem v xs || mem v ys
unfolding any
mem-append v [] ys = refl
mem-append v (x ∷ xs) ys = ground (arith, mem-append v xs ys)

pub collect_inverts :
    (body : ℕ → List ℕ) (v : ℕ) (xs : List ℕ)
    → mem v (collect body xs) ≡ true
    → (x : ℕ) × (mem x xs ≡ true) × (mem v (body x) ≡ true)
unfolding collect any
collect_inverts body v [] member = cc
collect_inverts body v (x ∷ xs) member = elim (Bool-cases (mem v (body x))) [
  | inl here ↦ (x, rw (==_refl x) refl, here)
  | inr other ↦
      let joined : mem v (body x) || mem v (collect body xs) ≡ true =
        sym (mem-append v (body x) (collect body xs)) ∙ member in
      let rest : mem v (collect body xs) ≡ true = rw other at joined in
      let (y, deeper, found) = collect_inverts body v xs rest in (y, ground (arith, deeper), found)
]

pub collect_complete :
    (body : ℕ → List ℕ) (v x : ℕ) (xs : List ℕ)
    → mem x xs ≡ true
    → mem v (body x) ≡ true
    → mem v (collect body xs) ≡ true
unfolding collect any
collect_complete body v x [] member found = cc
collect_complete body v x (y ∷ xs) member found =
    mem-append v (body y) (collect body xs) ∙ (elim (Bool-cases (y == x)) [
      | inl here ↦
          let same : y ≡ x = eq→== y x here in
          let head : mem v (body y) ≡ true = ap (λ z. mem v (body z)) same ∙ found in rw head refl
      | inr other ↦
          let rest = collect_complete body v x xs (rw other at member) found in ground (arith, rest)
    ])

mem_later : (v c : ℕ) (ds : List ℕ) → mem v ds ≡ true → mem v (c ∷ ds) ≡ true
unfolding any
mem_later v c ds member = ground (arith, member)

mem_past : (v c d : ℕ) (ds : List ℕ) → mem v (c ∷ ds) ≡ true → mem v (c ∷ d ∷ ds) ≡ true
unfolding any
mem_past v c d ds member = ground (arith, member)

mem_self : (v : ℕ) (ds : List ℕ) → mem v (v ∷ ds) ≡ true
unfolding any
mem_self v ds = rw (==_refl v) refl

pub min_of-mem : (c : ℕ) (ds : List ℕ) → mem (min_of c ds) (c ∷ ds) ≡ true
unfolding min_of
min_of-mem c [] = mem_self c []
min_of-mem c (d ∷ ds) = elim (Bool-cases (ltb d c)) [
  | inl less ↦
      let smaller : min_of c (d ∷ ds) ≡ min_of d ds = rw less refl in
      subst (λ v. mem v (c ∷ d ∷ ds) ≡ true) (sym smaller)
        (mem_later _ c (d ∷ ds) (min_of-mem d ds))
  | inr more ↦
      let kept : min_of c (d ∷ ds) ≡ min_of c ds = rw more refl in
      subst (λ v. mem v (c ∷ d ∷ ds) ≡ true) (sym kept) (mem_past _ c d ds (min_of-mem c ds))
]

pub min_of_least : (c v : ℕ) (ds : List ℕ) → mem v (c ∷ ds) ≡ true → min_of c ds ≤ v
unfolding min_of any
min_of_least c v [] member = ground arith
min_of_least c v (d ∷ ds) member = elim (Bool-cases (ltb d c)) [
  | inl less ↦ rw less (
      let first = min_of_least d d ds in
      let rest = min_of_least d v ds in ground (arith, first, rest))
  | inr more ↦ rw more (
      let first = min_of_least c c ds in
      let rest = min_of_least c v ds in ground (arith, first, rest))
]
