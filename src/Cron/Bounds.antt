-- ===== src/Cron/Bounds.antt =====
-- cron.py: the ranges of the fields of a parsed expression.
use top.Base.{
  ==_refl, eq→==, ℕ, ◌≡◌, refl, ◌∙◌, sym, ap, true, false, ◌&&◌, List, [], ◌∷◌, ◌≤◌, ◌==◌,
  if◌then◌else◌, any, map, Bool-cases, inl, inr, arith,
}
use mathlib.Core.Path.{subst}
use top.Contracts.{Text}
use top.Cron.Text.{is_empty, split, words, join_words}
use top.Cron.Parse.{
  CronField, CronExpression, parsed, mem, parse, parse_field, parse_segment, weekday_field,
  field_of, parse_items, parsed-injective, Parsed-cases, Segment, call_parsed, update, insert_value,
}
use top.Cron.Selects.{selects, IsFieldOf, IsSegment, parse_segment-IsSegment, parse_field-mem}
use top.Cron.Fields.{FromRange, parse_parts-Fields}
use top.Cron.Range.{selected_by, mem-update}

selected_range :
    (lo hi v : ℕ) (g : Segment) → IsSegment lo hi g → selected_by g v ≡ true → (lo ≤ v) × (v ≤ hi)
selected_range lo hi v g valid chosen =
    let above = valid.bounds.above in let below = valid.bounds.below in ground arith

selects_range :
    (lo hi v : ℕ) (item : Text) → lo ≤ hi → selects lo hi v item ≡ true → (lo ≤ v) × (v ≤ hi)
unfolding selects
selects_range lo hi v item wide chosen = elim (Parsed-cases (parse_segment lo hi item)) [
  | inl (g, segment) ↦
      selected_range lo hi v g (parse_segment-IsSegment lo hi item wide segment)
        (rw (segment, selects) at chosen)
  | inr (e, failed) ↦ cc (rw (failed, selects) at chosen)
]

any-selects_range :
    (lo hi v : ℕ) (items : List Text)
    → lo ≤ hi
    → any (selects lo hi v) items ≡ true
    → (lo ≤ v) × (v ≤ hi)
unfolding any
any-selects_range lo hi v [] wide some_item = cc
any-selects_range lo hi v (item ∷ items) wide some_item = elim (Bool-cases (selects lo hi v item)) [
  | inl chosen ↦ selects_range lo hi v item wide chosen
  | inr other ↦ any-selects_range lo hi v items wide (rw other at some_item)
]

field_full :
    (raw : Text) (values : List ℕ) (field : CronField)
    → field_of raw values ≡ parsed field
    → is_empty field.values ≡ false
unfolding field_of
field_full raw [] field made = cc
field_full raw (v ∷ values) field made = ap (λ f. is_empty f.values) (sym (parsed-injective made))

parse_field-IsFieldOf :
    (lo hi : ℕ) (raw : Text) (field : CronField)
    → lo ≤ hi
    → parse_field lo hi raw ≡ parsed field
    → IsFieldOf lo hi field
unfolding IsFieldOf parse_field
parse_field-IsFieldOf lo hi raw field wide parses = elim (Bool-cases (is_empty raw)) [
  | inl missing ↦ absurd (ground (arith, rw missing at parses))
  | inr full ↦
      let (values, at_items, last) =
        call_parsed (parse_items lo hi [] (split b',' raw)) _ (rw full at parses) in
      (
        λ v member.
            any-selects_range lo hi v _ wide
              (sym (parse_field-mem lo hi v raw field wide parses) ∙ member),
        field_full raw values field last,
      )
]

mem-map :
    (f : ℕ → ℕ) (v : ℕ) (ws : List ℕ)
    → mem v (map f ws) ≡ true
    → (w : ℕ) × (mem w ws ≡ true) × (f w ≡ v)
unfolding any
mem-map f v [] member = cc
mem-map f v (w ∷ ws) member = elim (Bool-cases (f w == v)) [
  | inl here ↦ (w, rw (==_refl w) refl, eq→== (f w) v here)
  | inr other ↦
      let (u, deeper, image) = mem-map f v ws (rw other at member) in
      (u, ground (arith, deeper), image)
]

update_full :
    (values more : List ℕ) → is_empty (update values more) ≡ is_empty values && is_empty more
unfolding update insert_value
update_full [] [] = refl
update_full (w ∷ values) [] = refl
update_full [] (v ∷ more) = update_full (v ∷ []) more
update_full (w ∷ values) (v ∷ more) = ground (arith, update_full (insert_value v (w ∷ values)) more)

map_full : (f : ℕ → ℕ) (ws : List ℕ) → is_empty (map f ws) ≡ is_empty ws
map_full f [] = refl
map_full f (w ∷ ws) = refl

weekday_field-IsFieldOf : (raw : CronField) → IsFieldOf 0 7 raw → IsFieldOf 0 6 (weekday_field raw)
unfolding IsFieldOf weekday_field any
weekday_field-IsFieldOf raw (within, full) =
    let fold7 : ℕ → ℕ = λ v. if v == 7 then 0 else v in
    (
      λ v member.
          let (w, of_raw, image) =
            mem-map fold7 v raw.values (sym (mem-update v [] (map fold7 raw.values)) ∙ member) in
          let below = (within w of_raw).1 in ground arith,
      update_full [] (map fold7 raw.values) ∙ map_full fold7 raw.values ∙ full,
    )

FromRange-IsFieldOf :
    (lo hi : ℕ) (field : CronField) → lo ≤ hi → FromRange lo hi field → IsFieldOf lo hi field
unfolding FromRange
FromRange-IsFieldOf lo hi field wide (raw, parses) =
    parse_field-IsFieldOf lo hi raw field wide parses

-- The ranges of the five fields.
pub record InRange (e : CronExpression) : Type 0 where
  pub minute : IsFieldOf 0 59 e.minute
  pub hour : IsFieldOf 0 23 e.hour
  pub day_of_month : IsFieldOf 1 31 e.day_of_month
  pub month : IsFieldOf 1 12 e.month
  pub day_of_week : IsFieldOf 0 6 e.day_of_week

-- The fields of an expression that parses are not empty and hold numbers of their ranges only: minutes
-- up to 59, hours up to 23, days from 1 to 31, months from 1 to 12 and weekdays up to 6.
pub parse-InRange :
    (expression : Text) (e : CronExpression) → parse expression ≡ parsed e → InRange e
unfolding parse
parse-InRange expression e parses =
    let normalized = join_words (words expression) in
    let fields = parse_parts-Fields normalized (split b' ' normalized) e parses in
    let (raw, folded, from) = fields.day_of_week in
    record {
      minute = FromRange-IsFieldOf 0 59 e.minute (omega arith) fields.minute;
      hour = FromRange-IsFieldOf 0 23 e.hour (omega arith) fields.hour;
      day_of_month = FromRange-IsFieldOf 1 31 e.day_of_month (omega arith) fields.day_of_month;
      month = FromRange-IsFieldOf 1 12 e.month (omega arith) fields.month;
      day_of_week =
          subst (λ f. IsFieldOf 0 6 f) (sym folded)
            (weekday_field-IsFieldOf raw (FromRange-IsFieldOf 0 7 raw (omega arith) from));
    }
