-- ===== src/Tx/Kept.antt =====
-- An invariant of the rows that every statement keeps is kept by the handlers made of them.
use appt_remind.Base.{◌≡◌, refl, inl, inr, Bool, true, false, Bool-cases, if◌then◌else◌}
use appt_remind.Tx.{
  Result, ok, err, Tx, Statement, begin, exec, commit, Outcome, reply, next, ◌>>=◌, ◌>>◌, run,
  direct, expect, answer, close,
}
use appt_remind.Tx.Rules.{Ensures, Ensures-bind, exec-Executed, commit_cases}

module _ {D : Type 0} (Inv : D → Type 0) where
  -- A statement that succeeds keeps the invariant.
  abbrev pub Keeps : {A : Type 0} → Statement D A → Type 0
  Keeps {A} stmt = (a : A) (d e : D) → stmt d ≡ ok (a, e) → Inv d → Inv e

  abbrev pub Holds : Tx D → Type 0
  Holds t = Inv t.committed × Inv t.working

  pub record Safe {R A : Type 0} (m : Tx D → Outcome R D A) : Type 0 where
    pub safe : (t : Tx D) → Holds t → Ensures (λ _ u. Holds u) (λ _ u. Holds u) (m t)

  pub exec-Holds :
      {A : Type 0} (fails : Bool) (stmt : Statement D A)
      → Keeps stmt
      → (t : Tx D) → Holds t
      → Holds (exec fails stmt t).1
  exec-Holds fails stmt keeps t (c, w) = elim (exec-Executed fails stmt t) [
    | inl (e, u, r, (f, g, _)) ↦ rw (r, f, g) (c, w)
    | inr (a, d, alive, s, r) ↦ rw r (c, keeps a t.working d s w)
  ]

  pub commit-Holds : (fails : Bool) (t : Tx D) → Holds t → Holds (commit fails t).1
  unfolding commit
  commit-Holds fails t (c, w) = elim (commit_cases fails t) [
    | inl e ↦ rw e (c, w)
    | inr (alive, e) ↦ rw e (w, w)
  ]

  module _ {R : Type 0} where
    pub run-Safe :
        {A : Type 0} (fails : Bool) (stmt : Statement D A)
        → Keeps stmt
        → Safe {R = R} (run fails stmt)
    run-Safe fails stmt keeps = record { safe = λ t h. exec-Holds fails stmt keeps t h }

    pub direct-Safe :
        {A : Type 0} (fails : Bool) (stmt : Statement D A)
        → Keeps stmt
        → Safe {R = R} (direct fails stmt)
    direct-Safe {A} fails stmt keeps = record {
      safe = λ t h. elim (Bool-cases fails) [
        | inl e ↦ rw e h
        | inr e ↦ rw e (settled t h.0 h (stmt t.committed) refl)
      ];
    }
      where
        settled :
            (t : Tx D)
            → Inv t.committed
            → Holds t
            → (r : Result (A × D)) → stmt t.committed ≡ r
            → Ensures {R = R}
                (λ _ u. Holds u)
                (λ _ u. Holds u)
                (elim r [ ok s ↦ next (ok s.0) (begin s.1) | err e ↦ next (err e) t ])
        settled t c h (ok (a, d)) e = let f = keeps a t.committed d e c in (f, f)
        settled t c h (err e) f = h

    pub expect-Safe : {A : Type 0} (r : R) (res : Result A) → Safe (expect r res)
    expect-Safe r (ok a) = record { safe = λ t h. h }
    expect-Safe r (err e) = record { safe = λ t h. h }

    pub next-Safe : {A : Type 0} (a : A) → Safe {R = R} (next a)
    next-Safe a = record { safe = λ t h. h }

    pub answer-Safe : {A : Type 0} (r : R) → Safe {A = A} (answer r)
    answer-Safe r = record { safe = λ t h. h }

    pub bind-Safe :
        {A B : Type 0} {m : Tx D → Outcome R D A} {k : A → Tx D → Outcome R D B}
        → Safe m
        → ((a : A) → Safe (k a))
        → Safe (m >>= k)
    bind-Safe {m = m} {k = k} f g = record {
      safe = λ t h.
          Ensures-bind (λ _ u. Holds u) (λ _ u. Holds u) (λ _ u. Holds u) m k t (f.safe t h)
            (λ a u. (g a).safe u);
    }

    pub seq-Safe :
        {B : Type 0} {m : Tx D → Outcome R D (Unit {0})} {k : Tx D → Outcome R D B}
        → Safe m
        → Safe k
        → Safe (m >> k)
    seq-Safe {m = m} {k = k} f g = record {
      safe = λ t h.
          Ensures-bind (λ _ u. Holds u) (λ _ u. Holds u) (λ _ u. Holds u) m (λ _. k) t (f.safe t h)
            (λ a u. g.safe u);
    }

    -- What a handler that begins with these rows leaves.
    pub close-Safe :
        {m : Tx D → Outcome R D R} (d : D) → Safe m → Inv d → Inv (close (m (begin d))).1
    close-Safe {m} d f h = closed (m (begin d)) (f.safe (begin d) (h, h))
      where
        closed : (o : Outcome R D R) → Ensures (λ _ u. Holds u) (λ _ u. Holds u) o → Inv (close o).1
        closed (reply r u) e = e.0
        closed (next r u) e = e.0

    pub if-Safe :
        {A : Type 0} (b : Bool) {m k : Tx D → Outcome R D A}
        → Safe m
        → Safe k
        → Safe (if b then m else k)
    if-Safe true f g = f
    if-Safe false f g = g

-- A statement keeps what holds of the rows that the transaction sees.
pub exec-working :
    {D A : Type 0} (Inv : D → Type 0) (fails : Bool) (stmt : Statement D A)
    → Keeps Inv stmt
    → (t : Tx D) → Inv t.working
    → Inv (exec fails stmt t).1.working
exec-working Inv fails stmt keeps t h = elim (exec-Executed fails stmt t) [
  | inl (e, u, r, (f, g, _)) ↦ rw (r, g) h
  | inr (a, d, alive, s, r) ↦ rw r (keeps a t.working d s h)
]

-- Steps that keep a property `S` of the transaction, and answers that promise `P`.
module _ {D R : Type 0} (S : Tx D → Type 0) (P : R → Tx D → Type 0) where
  pub record Leads {A : Type 0} (m : Tx D → Outcome R D A) : Type 0 where
    pub leads : (t : Tx D) → S t → Ensures P (λ _ u. S u) (m t)

  -- What is asked of the errors.
  abbrev pub Allows : R → Type 0
  Allows r = (t : Tx D) → S t → P r t

  pub expect-Leads : {A : Type 0} (r : R) (res : Result A) → Allows r → Leads (expect r res)
  expect-Leads r (ok a) bad = record { leads = λ t h. h }
  expect-Leads r (err e) bad = record { leads = bad }

  pub next-Leads : {A : Type 0} (a : A) → Leads (next a)
  next-Leads a = record { leads = λ t h. h }

  pub answer-Leads : {A : Type 0} (r : R) → Allows r → Leads {A = A} (answer r)
  answer-Leads r bad = record { leads = bad }

  pub bind-Leads :
      {A B : Type 0} {m : Tx D → Outcome R D A} {k : A → Tx D → Outcome R D B}
      → Leads m
      → ((a : A) → Leads (k a))
      → Leads (m >>= k)
  bind-Leads {m = m} {k = k} f g = record {
    leads = λ t h. Ensures-bind P (λ _. S) (λ _. S) m k t (f.leads t h) (λ a u. (g a).leads u);
  }

  pub seq-Leads :
      {B : Type 0} {m : Tx D → Outcome R D (Unit {0})} {k : Tx D → Outcome R D B}
      → Leads m
      → Leads k
      → Leads (m >> k)
  seq-Leads {m = m} {k = k} f g = record {
    leads = λ t h. Ensures-bind P (λ _. S) (λ _. S) m (λ _. k) t (f.leads t h) (λ a u. g.leads u);
  }

  pub if-Leads :
      {A : Type 0} (b : Bool) {m k : Tx D → Outcome R D A}
      → Leads m
      → Leads k
      → Leads (if b then m else k)
  if-Leads true f g = f
  if-Leads false f g = g
