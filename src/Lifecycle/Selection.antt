-- ===== src/Lifecycle/Selection.antt =====
-- services.py: `_select_cases`. The case codes of a baseline are distinct by its validator, so that
-- the dictionary `cases_by_code` holds the first case of a code.
use top.Base.{
  ◌≡◌, sym, refl, inl, inr, String, Bool, true, false, not, none, some, List, [], ◌∷◌, ◌&&◌, arith,
  All, select, first, any, map, str_eq, eq_iff, Bool-cases,
}
use mathlib.Core.Path.{subst}
use top.Contracts.{CaseDefinition}
use top.Service.{ServiceError, Served, ok, ◌>>◌, check, call_returned, check-eq-ok}
use top.Lifecycle.Results.{all}

abbrev pub mem_code : List String → String → Bool
mem_code codes code = any (λ x. str_eq x code) codes

unfoldable pub distinct_codes : List String → Bool
distinct_codes [] = true
distinct_codes (x ∷ xs) = not (mem_code xs x) && distinct_codes xs

abbrev pub has_code : String → CaseDefinition → Bool
has_code code c = str_eq c.case_code code

-- `cases_by_code[code].enabled`, false for a code that is not there.
unfoldable pub enabled_code : List CaseDefinition → String → Bool
enabled_code cases code = elim (first (has_code code) cases) [ none ↦ false | some c ↦ c.enabled ]

unfoldable pub select_requested : List CaseDefinition → List String → Served (List CaseDefinition)
select_requested cases codes = do
  check (all (λ code. any (has_code code) cases) codes) ServiceError.invalid
  check (all (enabled_code cases) codes) ServiceError.invalid
  ok (select (λ c. mem_code codes c.case_code) cases)

unfoldable pub select_cases : List CaseDefinition → List String → Served (List CaseDefinition)
select_cases cases codes = do
  check (distinct_codes codes) ServiceError.invalid
  elim codes [ [] ↦ ok (select (λ c. c.enabled) cases) | x ∷ xs ↦ select_requested cases (x ∷ xs) ]

all-mem :
    (p : String → Bool) (codes : List String) (code : String)
    → all p codes ≡ true
    → mem_code codes code ≡ true
    → p code ≡ true
unfolding all any
all-mem p [] code h m = absurd (ground arith)
all-mem p (x ∷ xs) code h m = elim (Bool-cases (str_eq x code)) [
  | inl e ↦ subst (λ y. p y ≡ true) ((eq_iff x code).0 e) (ground arith)
  | inr e ↦ all-mem p xs code (ground arith) (ground arith)
]

-- A case is enabled where its code is.
abbrev Honest : List CaseDefinition → CaseDefinition → Type 0
Honest cases c = enabled_code cases c.case_code ≡ true → c.enabled ≡ true

abbrev codes_of : List CaseDefinition → List String
codes_of cases = map (λ (c : CaseDefinition). c.case_code) cases

str_eq_flip : (a b : String) → str_eq a b ≡ false → str_eq b a ≡ false
str_eq_flip a b h = elim (Bool-cases (str_eq b a)) [
  | inl e ↦
      let same : b ≡ a = (eq_iff b a).0 e in absurd (ground (arith, (eq_iff a b).1 (sym same)))
  | inr e ↦ e
]

Honest-more :
    (c : CaseDefinition) (cs ds : List CaseDefinition)
    → mem_code (codes_of ds) c.case_code ≡ false
    → All (Honest cs) ds
    → All (Honest (c ∷ cs)) ds
unfolding any enabled_code first
Honest-more c cs [] m h = tt
Honest-more c cs (d ∷ ds) m h = (
  λ e. ground (arith, h.0, str_eq_flip d.case_code c.case_code),
  Honest-more c cs ds (ground arith) h.1,
)

all-Honest :
    (cases : List CaseDefinition)
    → distinct_codes (codes_of cases) ≡ true
    → All (Honest cases) cases
unfolding distinct_codes enabled_code first
all-Honest [] d = tt
all-Honest (c ∷ cs) d = (
  λ e. ground (arith, (eq_iff c.case_code c.case_code).1 refl),
  Honest-more c cs cs (ground arith) (all-Honest cs (ground arith)),
)

select_enabled :
    (cases cs : List CaseDefinition) (codes : List String)
    → all (enabled_code cases) codes ≡ true
    → All (Honest cases) cs
    → All
        (λ c. (c.enabled ≡ true) × (mem_code codes c.case_code ≡ true))
        (select (λ c. mem_code codes c.case_code) cs)
unfolding select
select_enabled cases [] codes h honest = tt
select_enabled cases (c ∷ cs) codes h honest = elim (Bool-cases (mem_code codes c.case_code)) [
  | inl e ↦ rw e (
    ((honest.0 (all-mem (enabled_code cases) codes c.case_code h e)), e),
    select_enabled cases cs codes h honest.1,
  )
  | inr e ↦ rw e (select_enabled cases cs codes h honest.1)
]

select_complete :
    (cs : List CaseDefinition) (codes : List String) (code : String)
    → mem_code codes code ≡ true
    → any (has_code code) cs ≡ true
    → any (has_code code) (select (λ c. mem_code codes c.case_code) cs) ≡ true
unfolding select any
select_complete [] codes code m h = h
select_complete (c ∷ cs) codes code m h = elim (Bool-cases (str_eq c.case_code code)) [
  | inl e ↦
      let there : mem_code codes c.case_code ≡ true =
        subst (λ x. mem_code codes x ≡ true) (sym ((eq_iff c.case_code code).0 e)) m in
      rw there (ground arith)
  | inr e ↦ ground (arith, select_complete cs codes code m)
]

-- A request that names cases of a baseline runs enabled cases only, none but those that it names,
-- and every one that it names.
pub select_requested_complete :
    (cases chosen : List CaseDefinition) (codes : List String)
    → distinct_codes (codes_of cases) ≡ true
    → select_requested cases codes ≡ ok chosen
    → All (λ c. (c.enabled ≡ true) × (mem_code codes c.case_code ≡ true)) chosen
      × ((code : String) → mem_code codes code ≡ true → any (has_code code) chosen ≡ true)
unfolding select_requested
select_requested_complete cases chosen codes d h =
    let (_, e1, h1) =
      call_returned (check (all (λ code. any (has_code code) cases) codes) ServiceError.invalid) _
        h in
    let (_, e2, h2) =
      call_returned (check (all (enabled_code cases) codes) ServiceError.invalid) _ h1 in
    let same : select (λ c. mem_code codes c.case_code) cases ≡ chosen = ground arith in
    (
      subst (λ x. All (λ c. (c.enabled ≡ true) × (mem_code codes c.case_code ≡ true)) x) same
          (select_enabled cases cases codes (check-eq-ok _ _ e2) (all-Honest cases d)),
      λ code m.
          subst (λ x. any (has_code code) x ≡ true) same
            (select_complete cases codes code m
              (all-mem (λ x. any (has_code x) cases) codes code (check-eq-ok _ _ e1) m)),
    )
