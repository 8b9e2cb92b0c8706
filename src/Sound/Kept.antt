-- ===== src/Sound/Kept.antt =====
-- Sequences of writes to the Runs.
use mathlib.Core.Path.{subst}
use top.Base.{
  ℕ, suc, ◌≡◌, ◌∙◌, refl, ◌⊎◌, inl, inr, true, some, List, [], ◌∷◌, arith, ◌==◌, count_where, first,
  is_some, Bool-cases,
}
use top.RunState.{allowed}
use top.RunState.Graph.{History, start, next}
use top.Store.{Store}
use top.Store.Rows.{Run}
use top.Lifecycle.Steps.{RunStep, Steps}
use top.Sound.Invariant.{IsSound, Effect, Effect-IsSound}

-- Steps of all the Runs and Runs that are added, one after the other.
pub data Chain (rs : List Run) : List Run → Type 0 where
  unmoved : Chain rs rs
  moved : {ts us : List Run} → Chain rs ts → Steps ts us → Chain rs us
  added :
      {ts : List Run}
      → Chain rs ts
      → (r : Run) → count_where (λ x. x.id == r.id) ts ≡ 0
      → Chain rs (r ∷ ts)

pub record Kept (rs : List Run) (s : Store) : Type 0 where
  pub sound : IsSound s
  pub chain : Chain rs s.runs

pub Effect-Kept : (rs : List Run) (s t : Store) → Effect s t → Kept rs s → Kept rs t
Effect-Kept rs s t e k = record {
  sound = Effect-IsSound s t e k.sound;
  chain = moved k.chain e.runs;
}

pub Kept-self : (s : Store) → IsSound s → Kept s.runs s
Kept-self s w = record { sound = w; chain = unmoved }

-- What became of a Run: its status went through allowed transitions, and a recorded result is
-- what it was.
pub record Evolved (r t : Run) : Type 0 where
  pub id : t.id ≡ r.id
  pub transitions : ℕ
  pub history : History r.status t.status transitions
  pub immutable :
      is_some r.result_digest ≡ true
      → (t.result_digest ≡ r.result_digest) × (t.result_document ≡ r.result_document)

RunStep-Evolved : (r t u : Run) → Evolved r t → RunStep t u → Evolved r u
RunStep-Evolved r t u e st = by_move st.moved
  where
    by_move : (u.status ≡ t.status) ⊎ (allowed t.status u.status ≡ true) → Evolved r u
    by_move (inl q) = record {
      id = st.id ∙ e.id;
      transitions = e.transitions;
      history = rw q e.history;
      immutable = λ h. ground (arith, e.immutable h, st.immutable);
    }
    by_move (inr a) = record {
      id = st.id ∙ e.id;
      transitions = suc e.transitions;
      history = next e.history a;
      immutable = λ h. ground (arith, e.immutable h, st.immutable);
    }

pub Steps-first :
    (id : ℕ) (rs ts : List Run) (r : Run)
    → Steps rs ts
    → first (λ x. x.id == id) rs ≡ some r
    → (t : Run) × (first (λ x. x.id == id) ts ≡ some t) × RunStep r t
unfolding first
Steps-first id [] ts r h e = absurd (ground arith)
Steps-first id (x ∷ xs) [] r h e = absurd h
Steps-first id (x ∷ xs) (y ∷ ys) r h e = elim (Bool-cases (x.id == id)) [
  | inl q ↦
      let same : x ≡ r = ground arith in
      (y, ground (arith, h.0.id), subst (λ z. RunStep z y) same h.0)
  | inr q ↦
      let (t, f, st) = Steps-first id xs ys r h.1 (ground arith) in (t, ground (arith, h.0.id), st)
]

-- A row that is there has its id.
not_counted :
    (id : ℕ) (ts : List Run) (t : Run) (n : ℕ)
    → first (λ x. x.id == id) ts ≡ some t
    → (n == id) ≡ true
    → count_where (λ x. x.id == n) ts ≡ 0
    → ⊥
unfolding first count_where
not_counted id [] t n f e c = absurd (ground arith)
not_counted id (x ∷ xs) t n f e c = elim (Bool-cases (x.id == id)) [
  | inl q ↦ ground arith
  | inr q ↦ not_counted id xs t n (ground arith) e (ground arith)
]

pub first-added :
    (id : ℕ) (ts : List Run) (t r : Run)
    → first (λ x. x.id == id) ts ≡ some t
    → count_where (λ x. x.id == r.id) ts ≡ 0
    → first (λ x. x.id == id) (r ∷ ts) ≡ some t
unfolding first
first-added id ts t r f c = elim (Bool-cases (r.id == id)) [
  | inl q ↦ absurd (not_counted id ts t r.id f q c)
  | inr q ↦ ground arith
]

-- A Run of the first list is there in the last.
pub Chain-Evolved :
    (id : ℕ) (rs ts : List Run) (r : Run)
    → Chain rs ts
    → first (λ x. x.id == id) rs ≡ some r
    → (t : Run) × (first (λ x. x.id == id) ts ≡ some t) × Evolved r t
Chain-Evolved id rs _ r unmoved e =
    (r, e, record { id = refl; transitions = 0; history = start; immutable = λ h. (refl, refl) })
Chain-Evolved id rs us r (moved {ts} c h) e =
    let (t, f, ev) = Chain-Evolved id rs ts r c e in
    let (u, g, st) = Steps-first id ts us t h f in (u, g, RunStep-Evolved r t u ev st)
Chain-Evolved id rs _ r (added {ts} c new fresh) e =
    let (t, f, ev) = Chain-Evolved id rs ts r c e in (t, first-added id ts t new f fresh, ev)
