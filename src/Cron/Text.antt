-- ===== src/Cron/Text.antt =====
-- The calls of `str` and `int` that apps/api/src/testops/api/cron.py makes, on texts as lists of
-- code points: `split`, `join`, `partition` and `int`. A decimal digit is one of ASCII, and `int`
-- is called on texts of at most 4,300 characters (Python refuses longer ones).
use top.Base.{
  ℕ, zero, suc, Bool, true, false, not, ◌&&◌, ◌||◌, Option, none, some, List, [], ◌∷◌, ◌++◌, ◌+◌,
  ◌-◌, ◌*◌, ◌==◌, leb, if◌then◌else◌, select,
}
use mathlib.Core.Option.{map as option_map}
use top.Contracts.{Text}

pub data ℤ : Type 0 where
  pos negsuc : ℕ → ℤ

abbrev pub is_empty {ℓ} : {A : Type ℓ} → List A → Bool
is_empty [] = true
is_empty (x ∷ xs) = false

-- What `str.split()` takes for white space.
unfoldable pub is_space : ℕ → Bool
is_space c =
    (leb 9 c && leb c 13)
    || (leb 28 c && leb c 32)
    || (c == 133)
    || (c == 160)
    || (c == 5760)
    || (leb 8192 c && leb c 8202)
    || (c == 8232)
    || (c == 8233)
    || (c == 8239)
    || (c == 8287)
    || (c == 12288)

unfoldable pub onto_first : ℕ → List Text → List Text
onto_first c [] = (c ∷ []) ∷ []
onto_first c (piece ∷ pieces) = (c ∷ piece) ∷ pieces

-- The texts between the characters that the test holds of.
unfoldable pub pieces : (ℕ → Bool) → Text → List Text
unfolding onto_first
pieces is_separator [] = [] ∷ []
pieces is_separator (c ∷ s) =
    let rest = pieces is_separator s in if is_separator c then [] ∷ rest else onto_first c rest

-- `s.split(c)`.
unfoldable pub split : ℕ → Text → List Text
unfolding pieces
split c s = pieces (λ d. d == c) s

-- `s.split()`.
unfoldable pub words : Text → List Text
unfolding pieces is_space
words s = select (λ w. not (is_empty w)) (pieces is_space s)

-- `" ".join(words)`.
unfoldable pub join_words : List Text → Text
join_words [] = []
join_words (w ∷ []) = w
join_words (w ∷ v ∷ ws) = w ++ b' ' ∷ join_words (v ∷ ws)

-- `s.partition(c)`: the text after the separator is none where there is no separator.
unfoldable pub partition : ℕ → Text → Text × Option Text
partition c [] = ([], none)
partition c (d ∷ s) =
    let rest = partition c s in if d == c then ([], some s) else (d ∷ rest.0, rest.1)

abbrev pub is_digit : ℕ → Bool
is_digit c = leb b'0' c && leb c b'9'

-- Digits, with single underscores between them; `after_digit` is of the character before.
unfoldable pub digits : ℕ → Bool → Text → Option ℕ
digits n after_digit [] = if after_digit then some n else none
digits n after_digit (c ∷ s) =
    let rest = digits (if is_digit c then n * 10 + (c - b'0') else n) (is_digit c) s in
    if is_digit c || ((c == b'_') && after_digit) then rest else none

unfoldable pub negated : ℕ → ℤ
negated zero = ℤ.pos zero
negated (suc n) = ℤ.negsuc n

-- `int(s)` where `s` holds no white space.
unfoldable pub int : Text → Option ℤ
unfolding digits negated
int [] = none
int (c ∷ s) =
    if c == b'-'
    then option_map negated (digits 0 false s)
    else if c == b'+'
    then option_map ℤ.pos (digits 0 false s)
    else option_map ℤ.pos (digits 0 false (c ∷ s))
