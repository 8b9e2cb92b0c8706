-- ===== src/Cron/Fields.antt =====
-- cron.py: the five fields of a parsed expression.
use top.Base.{ℕ, ◌≡◌, refl, List, [], ◌∷◌}
use mathlib.Core.Path.{subst}
use top.Contracts.{Text}
use top.Cron.Parse.{
  CronExpression, CronField, parsed, call_parsed, parse_parts, parse_field, weekday_field,
  expression_of,
}

unfoldable pub FromRange : ℕ → ℕ → CronField → Type 0
FromRange minimum maximum field = (raw : Text) × (parse_field minimum maximum raw ≡ parsed field)

pub record Fields (normalized : Text) (e : CronExpression) : Type 0 where
  pub keeps_text : e.expression ≡ normalized
  pub minute : FromRange 0 59 e.minute
  pub hour : FromRange 0 23 e.hour
  pub day_of_month : FromRange 1 31 e.day_of_month
  pub month : FromRange 1 12 e.month
  pub day_of_week : (raw : CronField) × (e.day_of_week ≡ weekday_field raw) × FromRange 0 7 raw

pub parse_parts-Fields :
    (normalized : Text) (parts : List Text) (e : CronExpression)
    → parse_parts normalized parts ≡ parsed e
    → Fields normalized e
unfolding parse_parts FromRange weekday_field
parse_parts-Fields n [] e parses = cc
parse_parts-Fields n (p0 ∷ []) e parses = cc
parse_parts-Fields n (p0 ∷ p1 ∷ []) e parses = cc
parse_parts-Fields n (p0 ∷ p1 ∷ p2 ∷ []) e parses = cc
parse_parts-Fields n (p0 ∷ p1 ∷ p2 ∷ p3 ∷ []) e parses = cc
parse_parts-Fields n (p0 ∷ p1 ∷ p2 ∷ p3 ∷ p4 ∷ p5 ∷ ps) e parses = cc
parse_parts-Fields n (p0 ∷ p1 ∷ p2 ∷ p3 ∷ p4 ∷ []) e parses =
    let (minute, at_minute, rest0) = call_parsed (parse_field 0 59 p0) _ parses in
    let (hour, at_hour, rest1) = call_parsed (parse_field 0 23 p1) _ rest0 in
    let (day, at_day, rest2) = call_parsed (parse_field 1 31 p2) _ rest1 in
    let (month, at_month, rest3) = call_parsed (parse_field 1 12 p3) _ rest2 in
    let (raw, at_weekday, last) = call_parsed (parse_field 0 7 p4) _ rest3 in
    let same : expression_of n minute hour day month raw ≡ e = cc last in
    subst (λ x. Fields n x) same
      (record {
        keeps_text = refl;
        minute = (p0, at_minute);
        hour = (p1, at_hour);
        day_of_month = (p2, at_day);
        month = (p3, at_month);
        day_of_week = (raw, refl, (p4, at_weekday));
      })
