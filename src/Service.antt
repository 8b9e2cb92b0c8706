-- ===== src/Service.antt =====
-- apps/api/src/testops/api/services.py: the errors that the services raise, and the chain of calls
-- in one transaction. A service that raises changes nothing: its session is closed without a commit.
use top.Base.{◌≡◌, ap, ◌⊎◌, inl, inr, refl, Bool, true, false, Option, none, some}

-- `ResourceNotFound`, `ResourceConflict` and `InvalidRequest`, by their HTTP status.
pub data ServiceError : Type 0 where
  not_found conflict invalid : ServiceError

pub data Served (A : Type 0) : Type 0 where
  ok : A → Served A
  raise : ServiceError → Served A

-- The rest of a service runs on what its call returned.
infixl 5 ◌>>=◌
abbrev pub ◌>>=◌ : {A B : Type 0} → Served A → (A → Served B) → Served B
raise error >>= rest = raise error
ok value >>= rest = rest value

infixl 5 ◌>>◌
abbrev pub ◌>>◌ : {B : Type 0} → Served (Unit {0}) → Served B → Served B
call >> rest = call >>= λ done. rest

-- `if not test: raise error`.
abbrev pub check : Bool → ServiceError → Served (Unit {0})
check false error = raise error
check true error = ok tt

abbrev pub or_raise : {A : Type 0} → Option A → ServiceError → Served A
or_raise none e = raise e
or_raise (some a) e = ok a

-- A service that returned went through its call.
pub call_returned :
    {A B : Type 0} (call : Served A) (rest : A → Served B) {result : B}
    → (call >>= rest) ≡ ok result
    → (value : A) × (call ≡ ok value) × (rest value ≡ ok result)
call_returned (raise error) rest stopped = cc
call_returned (ok value) rest returned = (value, refl, returned)

raise-injective : {A : Type 0} {e f : ServiceError} → ◌≡◌ {A = Served A} (raise e) (raise f) → e ≡ f
raise-injective same = cc

-- A chain that raised did so in its call or in the rest.
pub call_raised :
    {A B : Type 0} (call : Served A) (rest : (value : A) → Served B) {error : ServiceError}
    → (call >>= rest) ≡ raise error
    → (call ≡ raise error) ⊎ ((value : A) × (call ≡ ok value) × (rest value ≡ raise error))
call_raised (raise failure) rest stopped = inl (ap raise (raise-injective stopped))
call_raised (ok value) rest stopped = inr (value, refl, stopped)

pub check-eq-ok : (b : Bool) (e : ServiceError) {u : Unit {0}} → check b e ≡ ok u → b ≡ true
check-eq-ok true e h = refl
check-eq-ok false e h = cc

pub or_raise-eq-ok :
    {A : Type 0} (o : Option A) (e : ServiceError) {a : A} → or_raise o e ≡ ok a → o ≡ some a
or_raise-eq-ok none e h = cc
or_raise-eq-ok (some a) e h = cc
