-- ===== src/Schedules/Kept.antt =====
-- schedule_services.py: what every operation on the schedules keeps.
use top.Base.{
  ℕ, ◌≡◌, refl, ◌∙◌, sym, ap, Bool, true, false, not, ◌||◌, Option, none, some, is_some,
  if◌then◌else◌,
}
use mathlib.Core.Path.{subst}
use top.Cron.Parse.{Parsed, parsed, error}
use top.Schedules.Rows.{Schedule}
use top.Schedules.Answer.{Managed, done, refused, cron_failed, integrity_error, ◌>>=◌, of_cron}
use top.Schedules.Manage.{is_active, plan_if}
use top.Schedules.Update.{replan}

-- A schedule has a next time exactly while it is ACTIVE.
abbrev pub IsPlanned : Schedule → Type 0
IsPlanned r = is_active r.status ≡ is_some r.next_fire_at

pub call_managed :
    {A B : Type 0} (call : Managed A) (rest : A → Managed B) {result : B}
    → (call >>= rest) ≡ done result
    → (value : A) × (call ≡ done value) × (rest value ≡ done result)
call_managed (done value) rest went = (value, refl, went)
call_managed (refused e) rest went = cc
call_managed (cron_failed e) rest went = cc
call_managed integrity_error rest went = cc

pub done-injective : {A : Type 0} {a b : A} → done a ≡ done b → a ≡ b
done-injective same = cc

pub plan_if-next :
    (active : Bool) (fires : Parsed ℕ) (next : Option ℕ)
    → plan_if active fires ≡ done next
    → active ≡ is_some next
unfolding plan_if
plan_if-next true (parsed at) next plans = ap is_some (done-injective plans)
plan_if-next true (error e) next plans = cc
plan_if-next false fires next plans = ap is_some (done-injective plans)

replan_active :
    (active has sets : Bool) (fires : Parsed ℕ) (r : Schedule) (new : Schedule)
    → is_active r.status ≡ active
    → is_some r.next_fire_at ≡ has
    → (if active
        then (if not has || sets
            then of_cron fires >>= (λ at. done (record r { next_fire_at = some at }))
            else done r)
        else done (record r { next_fire_at = none }))
      ≡ done new
    → IsPlanned new
replan_active false has sets fires r new active some_next plans =
    subst IsPlanned (done-injective plans) active
replan_active true false sets (parsed at) r new active some_next plans =
    subst IsPlanned (done-injective plans) active
replan_active true false sets (error e) r new active some_next plans = cc
replan_active true true true (parsed at) r new active some_next plans =
    subst IsPlanned (done-injective plans) active
replan_active true true true (error e) r new active some_next plans = cc
replan_active true true false fires r new active some_next plans =
    subst IsPlanned (done-injective plans) (active ∙ sym some_next)

pub replan-IsPlanned :
    (sets : Bool) (fires : Parsed ℕ) (r : Schedule) (new : Schedule)
    → replan sets fires r ≡ done new
    → IsPlanned new
unfolding replan
replan-IsPlanned sets fires r new plans =
    replan_active (is_active r.status) (is_some r.next_fire_at) sets fires r new refl refl plans
