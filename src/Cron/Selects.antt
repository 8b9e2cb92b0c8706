-- ===== src/Cron/Selects.antt =====
-- cron.py: what a field selects, described by its segments, and the range of its values.
use top.Base.{
  ℕ, ◌≡◌, refl, ◌∙◌, sym, ap, Bool, true, false, ◌||◌, List, [], ◌∷◌, ◌+◌, ◌-◌, ◌==◌, ◌≤◌, ◌<◌, leb,
  ltb, Option, some, none, is_some, if◌then◌else◌, any, Bool-cases, Option-cases, inl, inr, arith,
  count_where,
}
use mathlib.Core.Path.{subst}
use mathlib.Core.Bool.{or-false}
use top.Contracts.{Text, text_eq}
use top.Cron.Text.{split, is_empty, partition}
use top.Cron.Parse.{
  CronError, mem, update, Segment, parsed, error, call_parsed, parsed-injective, parse_number,
  parse_step, parse_bounds, parse_segment, parse_items, parse_field, field_of, values_of, CronField,
}
use top.Cron.Range.{selected_by, mem-update, mem-range}

pub record InBounds (minimum maximum start end : ℕ) : Type 0 where
  pub above : minimum ≤ start
  pub ordered : start ≤ end
  pub below : end ≤ maximum

parse_number_range :
    (lo hi : ℕ) (value : Text) {n : ℕ} → parse_number lo hi value ≡ parsed n → (lo ≤ n) × (n ≤ hi)
unfolding parse_number
parse_number_range lo hi value parses = ground arith

parse_step_positive : (raw : Option Text) {n : ℕ} → parse_step raw ≡ parsed n → 0 < n
unfolding parse_step
parse_step_positive none parses = ground arith
parse_step_positive (some raw) parses = ground arith

ordered_InBounds :
    (lo hi start end : ℕ) {b : ℕ × ℕ}
    → lo ≤ start
    → end ≤ hi
    → (if leb start end then parsed (start, end) else error CronError.reversed_range) ≡ parsed b
    → InBounds lo hi b.0 b.1
ordered_InBounds lo hi start end above below orders = ground arith

single_InBounds :
    (lo hi start : ℕ) (has_step : Bool) {b : ℕ × ℕ}
    → (lo ≤ start) × (start ≤ hi)
    → parsed (start, if has_step then hi else start) ≡ parsed b
    → InBounds lo hi b.0 b.1
single_InBounds lo hi start true (above, below) same = ground arith
single_InBounds lo hi start false (above, below) same = ground arith

bounds_InBounds :
    (lo hi : ℕ) (base : Text) (has_step : Bool) {b : ℕ × ℕ}
    → lo ≤ hi
    → parse_bounds lo hi base has_step ≡ parsed b
    → InBounds lo hi b.0 b.1
unfolding parse_bounds
bounds_InBounds lo hi base has_step {b} wide parses = elim (Bool-cases (text_eq base (b'*' ∷ []))) [
  | inl star ↦
      let same : (lo, hi) ≡ b = cc (rw star at parses) in
      subst (λ c. InBounds lo hi c.0 c.1) same
        (record { above = omega arith; ordered = wide; below = omega arith })
  | inr number ↦ elim (Option-cases (partition b'-' base).1) [
    | inl single ↦
        let (start, first, last) =
          call_parsed (parse_number lo hi base) _ (rw (number, single) at parses) in
        single_InBounds lo hi start has_step (parse_number_range lo hi base first) last
    | inr (raw_end, dash) ↦
        let (start, first, rest) =
          call_parsed (parse_number lo hi (partition b'-' base).0) _
            (rw (number, dash) at parses) in
        let (end, second, last) = call_parsed (parse_number lo hi raw_end) _ rest in
        ordered_InBounds lo hi start end (parse_number_range lo hi _ first).0
          (parse_number_range lo hi _ second).1 last
  ]
]

pub record IsSegment (lo hi : ℕ) (g : Segment) : Type 0 where
  pub bounds : InBounds lo hi g.start g.end
  pub positive : 0 < g.step

pub parse_segment-IsSegment :
    (lo hi : ℕ) (item : Text) {g : Segment}
    → lo ≤ hi
    → parse_segment lo hi item ≡ parsed g
    → IsSegment lo hi g
unfolding parse_segment
parse_segment-IsSegment lo hi item {g} wide parses =
    let bad = is_empty item || ltb 1 (count_where (λ c. c == b'/') item) in
    let parts = partition b'/' item in
    elim (Bool-cases bad) [
      | inl refused ↦ absurd (ground (arith, rw refused at parses))
      | inr allowed ↦
          let (step, at_step, rest) = call_parsed (parse_step parts.1) _ (rw allowed at parses) in
          let (b, at_bounds, last) =
            call_parsed (parse_bounds lo hi parts.0 (is_some parts.1)) _ rest in
          let made : Segment = record { start = b.0; end = b.1; step = step } in
          let same : made ≡ g = cc last in
          subst (λ x. IsSegment lo hi x) same
            (record {
              bounds = bounds_InBounds lo hi parts.0 (is_some parts.1) wide at_bounds;
              positive = parse_step_positive parts.1 at_step;
            })
    ]

-- The segment `item` selects `v`.
unfoldable pub selects : ℕ → ℕ → ℕ → Text → Bool
selects lo hi v item = elim (parse_segment lo hi item) [
  | parsed g ↦ selected_by g v
  | error e ↦ false
]

mem-values_of :
    (lo hi v : ℕ) (g : Segment) → IsSegment lo hi g → mem v (values_of g) ≡ selected_by g v
mem-values_of lo hi v g valid =
    let counted =
      mem-range (g.end + 1 - g.start) g.start (g.end + 1) g.step v valid.positive (omega arith) in
    counted ∙ ground arith

selects_parsed :
    (lo hi v : ℕ) (item : Text) {g : Segment}
    → parse_segment lo hi item ≡ parsed g
    → selects lo hi v item ≡ selected_by g v
unfolding selects
selects_parsed lo hi v item segment = rw (segment, selects) refl

any_first : (a b c : Bool) → (a || b) || c ≡ a || (if b then true else c)
any_first true b c = refl
any_first false true c = refl
any_first false false c = refl

parse_items-mem :
    (lo hi v : ℕ) (values : List ℕ) (items : List Text) {result : List ℕ}
    → lo ≤ hi
    → parse_items lo hi values items ≡ parsed result
    → mem v result ≡ mem v values || any (selects lo hi v) items
unfolding parse_items any
parse_items-mem lo hi v values [] wide parses =
    ap (mem v) (cc parses) ∙ sym (or-false (mem v values))
parse_items-mem lo hi v values (item ∷ items) {result} wide parses =
    let (g, segment, rest) = call_parsed (parse_segment lo hi item) _ parses in
    let valid = parse_segment-IsSegment lo hi item wide segment in
    let later = parse_items-mem lo hi v (update values (values_of g)) items wide rest in
    let both = mem-update v values (values_of g) in
    let one = mem-values_of lo hi v g valid ∙ sym (selects_parsed lo hi v item segment) in
    later
    ∙ ap (λ b. b || any (selects lo hi v) items) (both ∙ ap (λ b. mem v values || b) one)
    ∙ any_first (mem v values) (selects lo hi v item) (any (selects lo hi v) items)

field_values :
    (raw : Text) (values : List ℕ) (field : CronField)
    → field_of raw values ≡ parsed field
    → values ≡ field.values
unfolding field_of
field_values raw [] field made = cc
field_values raw (v ∷ values) field made = ap (λ f. f.values) (parsed-injective made)

-- A field selects exactly the numbers that one of its segments selects: those of the segment's range
-- that are a whole number of steps from its start.
pub parse_field-mem :
    (lo hi v : ℕ) (raw : Text) (field : CronField)
    → lo ≤ hi
    → parse_field lo hi raw ≡ parsed field
    → mem v field.values ≡ any (selects lo hi v) (split b',' raw)
unfolding parse_field any
parse_field-mem lo hi v raw field wide parses = elim (Bool-cases (is_empty raw)) [
  | inl missing ↦ absurd (ground (arith, rw missing at parses))
  | inr full ↦
      let (values, at_items, last) =
        call_parsed (parse_items lo hi [] (split b',' raw)) _ (rw full at parses) in
      ap (mem v) (sym (field_values raw values field last))
      ∙ parse_items-mem lo hi v [] (split b',' raw) wide at_items
]

-- The numbers of a field are in its range, and there is one.
unfoldable pub IsFieldOf : ℕ → ℕ → CronField → Type 0
IsFieldOf lo hi field =
    ((v : ℕ) → mem v field.values ≡ true → (lo ≤ v) × (v ≤ hi)) × (is_empty field.values ≡ false)
