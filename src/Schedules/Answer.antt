-- ===== src/Schedules/Answer.antt =====
-- schedule_services.py: how the operations of the users end, and the fields of their requests.
use top.Base.{Bool, true, false, Option, none, some}
use top.Service.{ServiceError, Served, ok, raise}
use top.Cron.Parse.{Parsed, parsed, error, CronError}

pub data Managed (A : Type 0) : Type 0 where
  done : A → Managed A
  refused : ServiceError → Managed A
  cron_failed : CronError → Managed A
  integrity_error : Managed A

infixl 5 ◌>>=◌
abbrev pub ◌>>=◌ : {A B : Type 0} → Managed A → (A → Managed B) → Managed B
done a >>= rest = rest a
refused e >>= rest = refused e
cron_failed e >>= rest = cron_failed e
integrity_error >>= rest = integrity_error

infixl 5 ◌>>◌
abbrev pub ◌>>◌ : {B : Type 0} → Managed (Unit {0}) → Managed B → Managed B
call >> rest = call >>= λ u. rest

abbrev pub of_service : {A : Type 0} → Served A → Managed A
of_service (ok a) = done a
of_service (raise e) = refused e

abbrev pub of_cron : {A : Type 0} → Parsed A → Managed A
of_cron (parsed a) = done a
of_cron (error e) = cron_failed e

-- A field of a request that may be missing, null or a value.
pub data Sent (A : Type 0) : Type 0 where
  absent null : Sent A
  value : A → Sent A

module _ {A : Type 0} where
  abbrev pub is_sent : Sent A → Bool
  is_sent absent = false
  is_sent _ = true

  abbrev pub value_of : Sent A → Option A
  value_of (value a) = some a
  value_of _ = none
