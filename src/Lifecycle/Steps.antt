-- ===== src/Lifecycle/Steps.antt =====
-- How the services may rewrite a Run row, and the consistency of its columns.
use top.Base.{
  ℕ, ◌≤◌, ◌≡◌, refl, ◌⊎◌, inl, inr, Bool, true, false, some, List, [], ◌∷◌, arith, is_some, first,
  update_where, count_where, Bool-cases,
}
use top.Contracts.{RunStatus, RunResult, Text}
use top.RunState.{allowed, is_terminal, is_started}
use top.Store.Rows.{Run, WaitReason}
use top.Dispatch.Prepare.{settle}
use top.Dispatch.Batch.{park}
use top.Lifecycle.Callbacks.{enter}
use top.Lifecycle.Results.{finish}
use top.Lifecycle.Cancel.{mark_canceled}

-- The columns of a Run agree with its status: a terminal Run, and no other, has its end; a Run on a
-- Runner, and no other, has a deadline; a running Run has its start; a result ends the Run.
pub record IsConsistent (r : Run) : Type 0 where
  pub finished : is_some r.finished_at ≡ is_terminal r.status
  pub watched : is_some r.timeout_at ≡ is_started r.status
  pub begun : r.status ≡ RunStatus.running → is_some r.started_at ≡ true
  pub result_final : is_some r.result_digest ≡ true → is_terminal r.status ≡ true

-- One write to a Run: the status stays or takes an allowed transition, consistency is kept, and a
-- recorded result is immutable.
pub record RunStep (r r' : Run) : Type 0 where
  pub id : r'.id ≡ r.id
  pub moved : (r'.status ≡ r.status) ⊎ (allowed r.status r'.status ≡ true)
  pub consistent : IsConsistent r → IsConsistent r'
  pub immutable :
      is_some r.result_digest ≡ true
      → (r'.result_digest ≡ r.result_digest) × (r'.result_document ≡ r.result_document)

pub RunStep-refl : (r : Run) → RunStep r r
RunStep-refl r = record {
  id = refl;
  moved = inl refl;
  consistent = λ h. h;
  immutable = λ h. (refl, refl);
}

pub enter-RunStep :
    (target : RunStatus) (now : ℕ) (r : Run)
    → is_started target ≡ true
    → allowed r.status target ≡ true
    → RunStep r (enter target now r)
unfolding enter is_started allowed is_terminal
enter-RunStep target now r h a = record {
  id = refl;
  moved = inr a;
  consistent = λ c. ground (arith, c.result_final, c.begun);
  immutable = λ e. (refl, refl);
}

pub finish-RunStep :
    (digest : Text) (result : RunResult) (r : Run)
    → is_terminal result.status ≡ true
    → allowed r.status result.status ≡ true
    → is_some r.result_digest ≡ false
    → RunStep r (finish digest result r)
unfolding finish is_started is_terminal
finish-RunStep digest result r t a n = record {
  id = refl;
  moved = inr a;
  consistent = λ c. ground arith;
  immutable = λ e. absurd (ground arith);
}

pub mark_canceled-RunStep : (now : ℕ) (r : Run) → RunStep r (mark_canceled now r)
unfolding mark_canceled is_started is_terminal allowed
mark_canceled-RunStep now r = record {
  id = ground arith;
  moved = ground arith;
  consistent = λ c. ground (arith, c.result_final, c.begun);
  immutable = λ e. ground arith;
}

pub settle-RunStep : (now : ℕ) (r : Run) → RunStep r (settle now r)
unfolding settle
settle-RunStep now r = record {
  id = refl;
  moved = inl refl;
  consistent = λ c. record {
    finished = c.finished;
    watched = c.watched;
    begun = c.begun;
    result_final = c.result_final;
  };
  immutable = λ e. (refl, refl);
}

pub park-RunStep : (reason : WaitReason) (r : Run) → RunStep r (park reason r)
unfolding park
park-RunStep reason r = record {
  id = refl;
  moved = inl refl;
  consistent = λ c. record {
    finished = c.finished;
    watched = c.watched;
    begun = c.begun;
    result_final = c.result_final;
  };
  immutable = λ e. (refl, refl);
}

-- The rows of `ts` come from those of `rs`, one after the other.
abbrev pub Rows : (Run → Run → Type 0) → List Run → List Run → Type 0
Rows R [] [] = Unit
Rows R (r ∷ rs) (t ∷ ts) = R r t × Rows R rs ts
Rows R _ _ = ⊥

pub Rows-map :
    (R Q : Run → Run → Type 0) (rs ts : List Run)
    → ((r t : Run) → R r t → Q r t)
    → Rows R rs ts
    → Rows Q rs ts
Rows-map R Q [] [] f h = tt
Rows-map R Q (r ∷ rs) (t ∷ ts) f h = (f r t h.0, Rows-map R Q rs ts f h.1)
Rows-map R Q [] (t ∷ ts) f h = absurd h
Rows-map R Q (r ∷ rs) [] f h = absurd h

-- One step for each row.
abbrev pub Steps : List Run → List Run → Type 0
Steps rs ts = Rows RunStep rs ts

pub Steps-refl : (rs : List Run) → Steps rs rs
Steps-refl [] = tt
Steps-refl (r ∷ rs) = (RunStep-refl r, Steps-refl rs)

-- A step that leaves the status.
pub record IdleStep (r t : Run) : Type 0 where
  pub step : RunStep r t
  pub still : t.status ≡ r.status

abbrev pub Idles : List Run → List Run → Type 0
Idles rs ts = Rows IdleStep rs ts

pub Idles-Steps : (rs ts : List Run) → Idles rs ts → Steps rs ts
Idles-Steps rs ts h = Rows-map IdleStep RunStep rs ts (λ r t idle. idle.step) h

pub Idles-refl : (rs : List Run) → Idles rs rs
Idles-refl [] = tt
Idles-refl (r ∷ rs) = (record { step = RunStep-refl r; still = refl }, Idles-refl rs)

pub settle-IdleStep : (now : ℕ) (r : Run) → IdleStep r (settle now r)
unfolding settle
settle-IdleStep now r = record { step = settle-RunStep now r; still = refl }

pub park-IdleStep : (reason : WaitReason) (r : Run) → IdleStep r (park reason r)
unfolding park
park-IdleStep reason r = record { step = park-RunStep reason r; still = refl }

pub Idles-update_all :
    (p : Run → Bool) (f : Run → Run) (rs : List Run)
    → ((r : Run) → IdleStep r (f r))
    → Idles rs (update_where p f rs)
unfolding update_where
Idles-update_all p f [] h = tt
Idles-update_all p f (r ∷ rs) h = elim (Bool-cases (p r)) [
  | inl e ↦ rw e (h r, Idles-update_all p f rs h)
  | inr e ↦ rw e (record { step = RunStep-refl r; still = refl }, Idles-update_all p f rs h)
]

-- An update that steps every row that it meets.
pub Steps-update_all :
    (p : Run → Bool) (f : Run → Run) (rs : List Run)
    → ((r : Run) → RunStep r (f r))
    → Steps rs (update_where p f rs)
unfolding update_where
Steps-update_all p f [] h = tt
Steps-update_all p f (r ∷ rs) h = elim (Bool-cases (p r)) [
  | inl e ↦ rw e (h r, Steps-update_all p f rs h)
  | inr e ↦ rw e (RunStep-refl r, Steps-update_all p f rs h)
]

Steps-update_none :
    (p : Run → Bool) (f : Run → Run) (rs : List Run)
    → count_where p rs ≡ 0
    → Steps rs (update_where p f rs)
unfolding update_where count_where
Steps-update_none p f [] h = tt
Steps-update_none p f (r ∷ rs) h = elim (Bool-cases (p r)) [
  | inl e ↦ absurd (ground arith)
  | inr e ↦ rw e (RunStep-refl r, Steps-update_none p f rs (ground arith))
]

-- An update of the row that was read, where the primary key makes it the only one.
pub Steps-update_first :
    (p : Run → Bool) (f : Run → Run) (rs : List Run) (r : Run)
    → first p rs ≡ some r
    → count_where p rs ≤ 1
    → RunStep r (f r)
    → Steps rs (update_where p f rs)
unfolding update_where count_where first
Steps-update_first p f [] r h k st = tt
Steps-update_first p f (x ∷ rs) r h k st = elim (Bool-cases (p x)) [
  | inl e ↦
      let same : r ≡ x = ground arith in
      rw e (rw same at st, Steps-update_none p f rs (ground arith))
  | inr e ↦ rw e (RunStep-refl x, Steps-update_first p f rs r (ground arith) (ground arith) st)
]
