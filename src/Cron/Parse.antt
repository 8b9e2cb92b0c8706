-- ===== src/Cron/Parse.antt =====
-- cron.py: `_parse_number`, `_parse_field` and `CronExpression.parse`. A frozenset of numbers is the
-- increasing list of its members, so that `sorted` gives the list itself.
use top.Base.{
  ℕ, zero, suc, ◌≡◌, refl, ◌⊎◌, inl, inr, Bool, ◌&&◌, ◌||◌, Option, none, some, List, [], ◌∷◌, ◌+◌,
  ◌-◌, ◌==◌, leb, ltb, if◌then◌else◌, any, count_where, map, is_some,
}
use top.Contracts.{Text, text_eq}
use top.Cron.Text.{ℤ, is_empty, split, words, join_words, partition, int}

-- Each `raise CronValidationError`.
pub data CronError : Type 0 where
  non_numeric out_of_range empty_field invalid_segment step_not_numeric step_not_positive
        reversed_range no_values not_five_fields no_occurrence unknown_timezone :
      CronError

pub data Parsed (A : Type 0) : Type 0 where
  parsed : A → Parsed A
  error : CronError → Parsed A

infixl 5 ◌>>=◌
abbrev pub ◌>>=◌ : {A B : Type 0} → Parsed A → (A → Parsed B) → Parsed B
error e >>= rest = error e
parsed a >>= rest = rest a

pub parsed-injective : {A : Type 0} {a b : A} → parsed a ≡ parsed b → a ≡ b
parsed-injective same = cc

pub Parsed-cases :
    {A : Type 0} (call : Parsed A)
    → ((value : A) × (call ≡ parsed value)) ⊎ ((e : CronError) × (call ≡ error e))
Parsed-cases (parsed value) = inl (value, refl)
Parsed-cases (error e) = inr (e, refl)

-- A parser that ends without an error goes through each of its calls.
pub call_parsed :
    {A B : Type 0} (call : Parsed A) (rest : A → Parsed B) {result : B}
    → (call >>= rest) ≡ parsed result
    → (value : A) × (call ≡ parsed value) × (rest value ≡ parsed result)
call_parsed (error e) rest failed = cc
call_parsed (parsed value) rest went = (value, refl, went)

pub record CronField : Type 0 where
  pub values : List ℕ
  pub wildcard : Bool

-- `v in values`.
abbrev pub mem : ℕ → List ℕ → Bool
mem v values = any (λ w. w == v) values

unfoldable pub insert_value : ℕ → List ℕ → List ℕ
insert_value v [] = v ∷ []
insert_value v (w ∷ ws) =
    let rest = insert_value v ws in
    if v == w then w ∷ ws else if ltb v w then v ∷ w ∷ ws else w ∷ rest

-- `values.update(more)`.
unfoldable pub update : List ℕ → List ℕ → List ℕ
update values [] = values
update values (v ∷ more) = update (insert_value v values) more

-- `range(start, stop, step)` for a positive step; the first argument bounds the rounds.
unfoldable pub range : ℕ → ℕ → ℕ → ℕ → List ℕ
range zero start stop step = []
range (suc rounds) start stop step =
    let rest = range rounds (start + step) stop step in if ltb start stop then start ∷ rest else []

unfoldable pub parse_number : ℕ → ℕ → Text → Parsed ℕ
parse_number minimum maximum value = elim (int value) [
  | none ↦ error CronError.non_numeric
  | some (ℤ.negsuc n) ↦ error CronError.out_of_range
  | some (ℤ.pos n) ↦
      if leb minimum n && leb n maximum then parsed n else error CronError.out_of_range
]

unfoldable pub parse_step : Option Text → Parsed ℕ
parse_step none = parsed 1
parse_step (some raw_step) = elim (int raw_step) [
  | none ↦ error CronError.step_not_numeric
  | some (ℤ.negsuc n) ↦ error CronError.step_not_positive
  | some (ℤ.pos zero) ↦ error CronError.step_not_positive
  | some (ℤ.pos (suc n)) ↦ parsed (suc n)
]

-- The `start` and `end` of a segment; `has_step` says that it holds a slash.
unfoldable pub parse_bounds : ℕ → ℕ → Text → Bool → Parsed (ℕ × ℕ)
unfolding parse_number
parse_bounds minimum maximum base has_step =
    let number = parse_number minimum maximum in
    if text_eq base (b'*' ∷ [])
    then parsed (minimum, maximum)
    else let parts = partition b'-' base in
      elim parts.1 [
        | some raw_end ↦ do
          start ← number parts.0
          end ← number raw_end
          if leb start end then parsed (start, end) else error CronError.reversed_range
        | none ↦ do start ← number base; parsed (start, if has_step then maximum else start)
      ]

-- What a segment denotes: every `step`-th number from `start` to `end`.
pub record Segment : Type 0 where
  pub start : ℕ
  pub end : ℕ
  pub step : ℕ

unfoldable pub parse_segment : ℕ → ℕ → Text → Parsed Segment
unfolding parse_step parse_bounds
parse_segment minimum maximum item =
    let parts = partition b'/' item in
    if is_empty item || ltb 1 (count_where (λ c. c == b'/') item)
    then error CronError.invalid_segment
    else do
      step ← parse_step parts.1
      bounds ← parse_bounds minimum maximum parts.0 (is_some parts.1)
      parsed (record { start = bounds.0; end = bounds.1; step = step })

abbrev pub values_of : Segment → List ℕ
values_of g = range (g.end + 1 - g.start) g.start (g.end + 1) g.step

-- The loop over `raw.split(",")`.
unfoldable pub parse_items : ℕ → ℕ → List ℕ → List Text → Parsed (List ℕ)
unfolding parse_segment range update
parse_items minimum maximum values [] = parsed values
parse_items minimum maximum values (item ∷ items) = do
  segment ← parse_segment minimum maximum item
  parse_items minimum maximum (update values (values_of segment)) items

unfoldable pub field_of : Text → List ℕ → Parsed CronField
field_of raw values =
    if is_empty values
    then error CronError.no_values
    else parsed (record { values = values; wildcard = text_eq raw (b'*' ∷ []) })

unfoldable pub parse_field : ℕ → ℕ → Text → Parsed CronField
unfolding parse_items split field_of
parse_field minimum maximum raw =
    if is_empty raw
    then error CronError.empty_field
    else parse_items minimum maximum [] (split b',' raw) >>= field_of raw

pub record CronExpression : Type 0 where
  pub expression : Text
  pub minute : CronField
  pub hour : CronField
  pub day_of_month : CronField
  pub month : CronField
  pub day_of_week : CronField

-- `frozenset(0 if value == 7 else value for value in raw_weekday.values)`.
unfoldable pub weekday_field : CronField → CronField
unfolding update
weekday_field raw = record {
  values = update [] (map (λ v. if v == 7 then 0 else v) raw.values);
  wildcard = raw.wildcard;
}

abbrev pub expression_of :
    Text → CronField → CronField → CronField → CronField → CronField → CronExpression
expression_of normalized minute hour day_of_month month raw_weekday = record {
  expression = normalized;
  minute = minute;
  hour = hour;
  day_of_month = day_of_month;
  month = month;
  day_of_week = weekday_field raw_weekday;
}

unfoldable pub parse_parts : Text → List Text → Parsed CronExpression
unfolding parse_field weekday_field
parse_parts normalized (p0 ∷ p1 ∷ p2 ∷ p3 ∷ p4 ∷ []) = do
  minute ← parse_field 0 59 p0
  hour ← parse_field 0 23 p1
  day_of_month ← parse_field 1 31 p2
  month ← parse_field 1 12 p3
  raw_weekday ← parse_field 0 7 p4
  parsed (expression_of normalized minute hour day_of_month month raw_weekday)
parse_parts normalized _ = error CronError.not_five_fields

-- `CronExpression.parse`.
unfoldable pub parse : Text → Parsed CronExpression
unfolding parse_parts words join_words split
parse expression =
    let normalized = join_words (words expression) in parse_parts normalized (split b' ' normalized)

unfoldable pub normalize_cron_expression : Text → Parsed Text
unfolding parse
normalize_cron_expression expression = parse expression >>= λ e. parsed e.expression
