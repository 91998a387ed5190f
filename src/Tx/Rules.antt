-- ===== src/Tx/Rules.antt =====
-- Rules for handlers: what holds of every answer, and of every state in which they go on.
use appt_remind.Base.{◌≡◌, refl, ◌⊎◌, inl, inr, Bool, true, false, arith, Bool-cases}
use appt_remind.Tx.{
  DbError, no_rows, exclusion_violation, unique_violation, failure, Result, ok, err, Tx, Statement,
  settle, exec, commit, Outcome, reply, next, ◌>>=◌, ◌>>◌, run, expect, direct, begin,
}

module _ {R D : Type 0} where
  -- `P` holds of each answer, `Q` of each value that the handler goes on with.
  abbrev pub Ensures :
      {A : Type 0} → (R → Tx D → Type 0) → (A → Tx D → Type 0) → Outcome R D A → Type 0
  Ensures P Q (reply r t) = P r t
  Ensures P Q (next a t) = Q a t

  pub Ensures-bind :
      {A B : Type 0} (P : R → Tx D → Type 0) (Q : A → Tx D → Type 0) (S : B → Tx D → Type 0)
      (m : Tx D → Outcome R D A) (k : A → Tx D → Outcome R D B) (t : Tx D)
      → Ensures P Q (m t)
      → ((a : A) (u : Tx D) → Q a u → Ensures P S (k a u))
      → Ensures P S ((m >>= k) t)
  Ensures-bind {A} P Q S m k t h each = go (m t) h
    where
      go :
          (o : Outcome R D A)
          → Ensures P Q o
          → Ensures P S (elim o [ reply r u ↦ reply r u | next a u ↦ k a u ])
      go (reply r u) p = p
      go (next a u) q = each a u q

  pub Ensures-seq :
      {B : Type 0} (P : R → Tx D → Type 0) (Q : Unit {0} → Tx D → Type 0) (S : B → Tx D → Type 0)
      (m : Tx D → Outcome R D (Unit {0})) (k : Tx D → Outcome R D B) (t : Tx D)
      → Ensures P Q (m t)
      → ((u : Tx D) → Q tt u → Ensures P S (k u))
      → Ensures P S ((m >> k) t)
  Ensures-seq P Q S m k t h each = Ensures-bind P Q S m (λ _. k) t h (λ a u q. each u q)

  pub Ensures-mono :
      {A : Type 0} (P : R → Tx D → Type 0) (Q S : A → Tx D → Type 0) (o : Outcome R D A)
      → Ensures P Q o
      → ((a : A) (u : Tx D) → Q a u → S a u)
      → Ensures P S o
  Ensures-mono P Q S (reply r t) h imp = h
  Ensures-mono P Q S (next a t) h imp = imp a t h

  pub Ensures-imp :
      {A : Type 0} (P T : R → Tx D → Type 0) (Q S : A → Tx D → Type 0) (o : Outcome R D A)
      → Ensures P Q o
      → ((r : R) (u : Tx D) → P r u → T r u)
      → ((a : A) (u : Tx D) → Q a u → S a u)
      → Ensures T S o
  Ensures-imp P T Q S (reply r t) h first second = first r t h
  Ensures-imp P T Q S (next a t) h first second = second a t h

module _ {D A : Type 0} where
  -- What a failed statement leaves: the transaction is aborted, or it is as it was, after a query
  -- that found no row.
  abbrev pub Failed : Statement D A → Tx D → Tx D → Type 0
  Failed stmt t u =
      (u.committed ≡ t.committed)
      × (u.working ≡ t.working)
      × ((u.aborted ≡ true) ⊎ ((u ≡ t) × (stmt t.working ≡ err no_rows)))

  -- A statement fails, or it has its effect in a transaction that is not aborted.
  abbrev pub Executed : Statement D A → Tx D → Result A × Tx D → Type 0
  Executed stmt t r =
      ((e : DbError) × (u : Tx D) × (r ≡ (err e, u)) × Failed stmt t u)
      ⊎ ((a : A) × (d : D) × (t.aborted ≡ false)
          × (stmt t.working ≡ ok (a, d))
          × (r ≡ (ok a, record t { working = d })))

  settle-Executed :
      (stmt : Statement D A) (t : Tx D) (r : Result (A × D))
      → t.aborted ≡ false
      → stmt t.working ≡ r
      → Executed stmt t (settle t r)
  settle-Executed stmt t (ok (a, d)) h e = inr (a, d, h, e, refl)
  settle-Executed stmt t (err no_rows) h e = inl (no_rows, t, refl, (refl, refl, inr (refl, e)))
  settle-Executed stmt t (err exclusion_violation) h e =
      inl (exclusion_violation, record t { aborted = true }, refl, (refl, refl, inl refl))
  settle-Executed stmt t (err unique_violation) h e =
      inl (unique_violation, record t { aborted = true }, refl, (refl, refl, inl refl))
  settle-Executed stmt t (err failure) h e =
      inl (failure, record t { aborted = true }, refl, (refl, refl, inl refl))

  pub exec-Executed :
      (fails : Bool) (stmt : Statement D A) (t : Tx D) → Executed stmt t (exec fails stmt t)
  exec-Executed fails stmt t = elim (Bool-cases t.aborted) [
    | inl dead ↦ inl (failure, t, unfold exec in rw dead, (refl, refl, inl dead))
    | inr alive ↦ elim (Bool-cases fails) [
      | inl f ↦ inl (
        failure,
        record t { aborted = true },
        unfold exec in ground arith,
        (refl, refl, inl refl),
      )
      | inr g ↦
          let e : exec fails stmt t ≡ settle t (stmt t.working) = unfold exec in ground arith in
          rw e (settle-Executed stmt t (stmt t.working) alive refl)
    ]
  ]

  -- What is known after a statement: of its failure, and of its success.
  abbrev pub Ran : Statement D A → Tx D → Result A → Tx D → Type 0
  Ran stmt t (err e) u = Failed stmt t u
  Ran stmt t (ok a) u =
      (d : D) × (t.aborted ≡ false) × (stmt t.working ≡ ok (a, d)) × (u ≡ record t { working = d })

  pub run-Ran :
      {R : Type 0} (P : R → Tx D → Type 0) (fails : Bool) (stmt : Statement D A) (t : Tx D)
      → Ensures P (Ran stmt t) (run {R = R} fails stmt t)
  run-Ran P fails stmt t = elim (exec-Executed fails stmt t) [
    | inl (e, u, r, f) ↦ rw r f
    | inr (a, d, alive, s, r) ↦ rw r (d, alive, s, refl)
  ]

  -- What a statement did that has succeeded.
  abbrev pub Did : Statement D A → Tx D → A → Tx D → Type 0
  Did stmt t a u =
      (d : D) × (t.aborted ≡ false) × (stmt t.working ≡ ok (a, d)) × (u ≡ record t { working = d })

  -- A statement whose error is answered by `r`: it has its effect, or nothing is committed.
  pub Ensures-expect :
      {R : Type 0} (P : R → Tx D → Type 0) (fails : Bool) (stmt : Statement D A) (r : R) (t : Tx D)
      → ((u : Tx D) → u.committed ≡ t.committed → P r u)
      → Ensures P (Did stmt t) ((run fails stmt >>= expect r) t)
  Ensures-expect {R} P fails stmt r t bad =
      Ensures-bind P (Ran stmt t) (Did stmt t) (run fails stmt) (expect r) t
        (run-Ran P fails stmt t) each
    where
      each :
          (res : Result A) (u : Tx D) → Ran stmt t res u → Ensures P (Did stmt t) (expect r res u)
      each (ok a) u h = h
      each (err e) u h = bad u h.0

module _ {D A : Type 0} where
  -- What is known after a statement outside a transaction.
  abbrev pub Direct : Statement D A → Tx D → Result A → Tx D → Type 0
  Direct stmt t (err e) u = (u ≡ t) × ((e ≡ failure) ⊎ (stmt t.committed ≡ err e))
  Direct stmt t (ok a) u = (d : D) × (stmt t.committed ≡ ok (a, d)) × (u ≡ begin d)

  pub Ensures-direct :
      {R : Type 0} (P : R → Tx D → Type 0) (fails : Bool) (stmt : Statement D A) (t : Tx D)
      → Ensures P (Direct stmt t) (direct {R = R} fails stmt t)
  Ensures-direct P true stmt t = (refl, inl refl)
  Ensures-direct P false stmt t = go (stmt t.committed) refl
    where
      go :
          (r : Result (A × D))
          → stmt t.committed ≡ r
          → Ensures P
              (Direct stmt t)
              (elim r [ ok s ↦ next (ok s.0) (begin s.1) | err e ↦ next (err e) t ])
      go (ok (a, d)) e = (d, e, refl)
      go (err e) f = (refl, inr f)

  pub Ensures-direct-expect :
      {R : Type 0} (P : R → Tx D → Type 0) (fails : Bool) (stmt : Statement D A) (r : R) (t : Tx D)
      → P r t
      → Ensures P
          (λ a u. (d : D) × (stmt t.committed ≡ ok (a, d)) × (u ≡ begin d))
          ((direct fails stmt >>= expect r) t)
  Ensures-direct-expect {R} P fails stmt r t bad =
      Ensures-bind P (Direct stmt t) _ (direct fails stmt) (expect r) t
        (Ensures-direct P fails stmt t) each
    where
      each :
          (res : Result A) (u : Tx D)
          → Direct stmt t res u
          → Ensures P
              (λ a u. (d : D) × (stmt t.committed ≡ ok (a, d)) × (u ≡ begin d))
              (expect r res u)
      each (ok a) u h = h
      each (err e) u h = rw h.0 bad

module _ {D : Type 0} where
  -- A commit makes the work durable in a transaction that is not aborted, or changes nothing.
  pub commit_cases :
      (fails : Bool) (t : Tx D)
      → (commit fails t ≡ (false, t))
        ⊎ ((t.aborted ≡ false) × (commit fails t ≡ (true, record t { committed = t.working })))
  unfolding commit
  commit_cases fails t = ground arith
