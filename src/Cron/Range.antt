-- ===== src/Cron/Range.antt =====
-- cron.py: what a segment of a field selects, without the loop of `range`, and what a field selects.
use top.Base.{
  ℕ, zero, suc, ◌≡◌, Bool, ◌&&◌, ◌||◌, List, [], ◌∷◌, ◌+◌, ◌-◌, ◌%◌, ◌==◌, ◌≤◌, ◌<◌, leb, ltb,
  if◌then◌else◌, any, Bool-cases, inl, inr, arith,
}
use native.Mathlib.Nat.{mod-eq_of_lt, mod-eq-sub-mod}
use top.Cron.Parse.{mem, insert_value, update, range, Segment}

-- `start`, `start + step`, `start + 2 * step` and so on, up to `end`.
abbrev pub selected_by : Segment → ℕ → Bool
selected_by g v = leb g.start v && leb v g.end && ((v - g.start) % g.step == 0)

mem-insert_value : (v w : ℕ) (ws : List ℕ) → mem v (insert_value w ws) ≡ (w == v) || mem v ws
unfolding insert_value any
mem-insert_value v w [] = ground arith
mem-insert_value v w (x ∷ ws) = ground (arith, mem-insert_value v w ws)

pub mem-update :
    (v : ℕ) (values more : List ℕ) → mem v (update values more) ≡ mem v values || mem v more
unfolding update any
mem-update v values [] = ground arith
mem-update v values (w ∷ more) =
    ground (arith, mem-update v (insert_value w values) more, mem-insert_value v w values)

mod_step :
    (n step : ℕ)
    → 0 < step
    → (n % step == 0) ≡ (if ltb n step then n == 0 else ((n - step) % step == 0))
mod_step n step pos = elim (Bool-cases (ltb n step)) [
  | inl short ↦ let small : n % step ≡ n = mod-eq_of_lt (ground arith) in ground (arith, small)
  | inr long ↦
      let back : n % step ≡ (n - step) % step = mod-eq-sub-mod (ground arith) in
      ground (arith, back)
]

-- Enough rounds.
pub mem-range :
    (rounds start stop step v : ℕ)
    → 0 < step
    → stop ≤ start + rounds
    → mem v (range rounds start stop step)
      ≡ (leb start v && ltb v stop && ((v - start) % step == 0))
unfolding range any
mem-range zero start stop step v positive enough = ground arith
mem-range (suc rounds) start stop step v positive enough =
    let later = mem-range rounds (start + step) stop step v positive (omega arith) in
    let turn = mod_step (v - start) step positive in
    let same : v - (start + step) ≡ v - start - step = omega arith in
    ground (arith, later, rw (← same) at turn)
