-- ===== src/Cron/Normal.antt =====
-- cron.py: the normal form of an expression, its fields joined by single spaces, which the schedules
-- store and parse again.
use top.Base.{
  ℕ, ◌≡◌, ◌∙◌, refl, ap, Bool, true, false, not, List, [], ◌∷◌, ◌++◌, any, All, select, Bool-cases,
  inl, inr, arith,
}
use top.Contracts.{Text}
use top.Cron.Fields.{parse_parts-Fields}
use top.Cron.Text.{is_empty, is_space, onto_first, pieces, split, words, join_words}
use top.Cron.Parse.{
  CronExpression, Parsed, parsed, ◌>>=◌, parse, parse_parts, normalize_cron_expression,
}

onto_first_lack :
    (p : ℕ → Bool) (c : ℕ) (texts : List Text)
    → p c ≡ false
    → All (λ w. any p w ≡ false) texts
    → All (λ w. any p w ≡ false) (onto_first c texts)
unfolding onto_first any
onto_first_lack p c [] inner lack = (rw inner refl, tt)
onto_first_lack p c (w ∷ ws) inner (lacks, lack) = (ground (arith), lack)

pieces_lack : (p : ℕ → Bool) (s : Text) → All (λ w. any p w ≡ false) (pieces p s)
unfolding pieces any onto_first
pieces_lack p [] = (refl, tt)
pieces_lack p (c ∷ s) = elim (Bool-cases (p c)) [
  | inl separator ↦ rw separator (refl, pieces_lack p s)
  | inr inner ↦ rw inner (onto_first_lack p c (pieces p s) inner (pieces_lack p s))
]

pieces_self : (p : ℕ → Bool) (w : Text) → any p w ≡ false → pieces p w ≡ w ∷ []
unfolding pieces any onto_first
pieces_self p [] lacks = refl
pieces_self p (c ∷ w) lacks = ground (arith, pieces_self p w)

pieces-append :
    (p : ℕ → Bool) (w : Text) (c : ℕ) (s : Text)
    → any p w ≡ false
    → p c ≡ true
    → pieces p (w ++ c ∷ s) ≡ w ∷ pieces p s
unfolding pieces any onto_first
pieces-append p [] c s lacks separator = rw separator refl
pieces-append p (d ∷ w) c s lacks separator = ground (arith, pieces-append p w c s)

IsWord : Text → Type 0
IsWord w = (is_empty w ≡ false) × (any is_space w ≡ false)

words_of_pieces :
    (texts : List Text)
    → All (λ w. any is_space w ≡ false) texts
    → All IsWord (select (λ w. not (is_empty w)) texts)
unfolding select IsWord
words_of_pieces [] lack = tt
words_of_pieces ([] ∷ ws) (lacks, lack) = words_of_pieces ws lack
words_of_pieces ((c ∷ w) ∷ ws) (lacks, lack) = ((refl, lacks), words_of_pieces ws lack)

words-IsWord : (s : Text) → All IsWord (words s)
unfolding words
words-IsWord s = words_of_pieces (pieces is_space s) (pieces_lack is_space s)

kept_word :
    (w : Text) (ws : List Text)
    → IsWord w
    → select (λ v. not (is_empty v)) (w ∷ ws) ≡ w ∷ select (λ v. not (is_empty v)) ws
unfolding IsWord select
kept_word [] ws (full, lacks) = cc
kept_word (c ∷ w) ws word = refl

words-join : (ws : List Text) → All IsWord ws → words (join_words ws) ≡ ws
unfolding words join_words pieces select
words-join [] word = refl
words-join (w ∷ []) (word, _) =
    rw (pieces_self is_space w (unfold IsWord in word.1)) (kept_word w [] word)
words-join (w ∷ v ∷ ws) (word, rest) =
    rw
      (pieces-append is_space w b' ' (join_words (v ∷ ws)) (unfold IsWord in word.1)
        (unfold is_space in refl))
      (kept_word w (pieces is_space (join_words (v ∷ ws))) word
        ∙ ap (λ vs. w ∷ vs) (words-join (v ∷ ws) rest))

join-words_idem : (s : Text) → join_words (words (join_words (words s))) ≡ join_words (words s)
join-words_idem s = ap join_words (words-join (words s) (words-IsWord s))

-- `parse` at a text that is in normal form.
parse_normal : Text → Parsed CronExpression
unfolding parse_parts split
parse_normal text = parse_parts text (split b' ' text)

-- An expression that parses and its stored form parse to the same minutes, hours, days, months and
-- weekdays, and the stored form is its own normal form.
pub parse-normalize :
    (expression : Text) (e : CronExpression)
    → parse expression ≡ parsed e
    → (parse e.expression ≡ parsed e)
      × (normalize_cron_expression e.expression ≡ parsed e.expression)
unfolding parse parse_normal normalize_cron_expression
parse-normalize expression e parses =
    let normalized = join_words (words expression) in
    let form = (parse_parts-Fields normalized (split b' ' normalized) e parses).keeps_text in
    let idem : join_words (words e.expression) ≡ e.expression =
      rw form (join-words_idem expression) in
    let again : parse e.expression ≡ parsed e = ap parse_normal (idem ∙ form) ∙ parses in
    (again, ap (λ r. r >>= λ x. parsed x.expression) again)
