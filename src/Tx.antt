-- ===== src/Tx.antt =====
-- A PostgreSQL transaction as libs/db and pgx hand it to the services, and the shape of a handler.
-- After a statement fails the server refuses every later statement of the transaction, and a
-- commit of it rolls back and reports an error. No row found is not a failure.
pub mod Rules
pub mod Kept
use appt_remind.Base.{Bool, true, false, ◌||◌, if◌then◌else◌}

pub data DbError : Type 0 where
  no_rows exclusion_violation unique_violation failure : DbError

pub data Result (A : Type 0) : Type 0 where
  ok : A → Result A
  err : DbError → Result A

-- `working` is what the transaction sees, `committed` what others see.
pub record Tx (D : Type 0) : Type 0 where
  pub committed : D
  pub working : D
  pub aborted : Bool

abbrev pub begin : {D : Type 0} → D → Tx D
begin d = record { committed = d; working = d; aborted = false }

-- A statement's effect on the rows.
abbrev pub Statement : Type 0 → Type 0 → Type 0
Statement D A = D → Result (A × D)

module _ {D A : Type 0} where
  abbrev pub settle : Tx D → Result (A × D) → Result A × Tx D
  settle t (ok (a, d)) = (ok a, record t { working = d })
  settle t (err no_rows) = (err no_rows, t)
  settle t (err e) = (err e, record t { aborted = true })

  -- `fails`: the server or the connection refuses the statement.
  unfoldable pub exec : Bool → Statement D A → Tx D → Result A × Tx D
  exec fails stmt t =
      if t.aborted
      then (err failure, t)
      else (if fails then (err failure, record t { aborted = true }) else settle t (stmt t.working))

module _ {D : Type 0} where
  -- Whether the commit succeeds, and the transaction after it.
  unfoldable pub commit : Bool → Tx D → Bool × Tx D
  commit fails t =
      if t.aborted || fails then (false, t) else (true, record t { committed = t.working })

-- A handler's step on a transaction: it goes on with a value, or it has answered and returned.
pub data Outcome (R D A : Type 0) : Type 0 where
  reply : R → Tx D → Outcome R D A
  next : A → Tx D → Outcome R D A

module _ {R D : Type 0} where
  infixl 5 ◌>>=◌ ◌>>◌
  abbrev pub ◌>>=◌ :
      {A B : Type 0} → (Tx D → Outcome R D A) → (A → Tx D → Outcome R D B) → Tx D → Outcome R D B
  ◌>>=◌ m k t = elim (m t) [ reply r u ↦ reply r u | next a u ↦ k a u ]

  abbrev pub ◌>>◌ :
      {B : Type 0} → (Tx D → Outcome R D (Unit {0})) → (Tx D → Outcome R D B) → Tx D → Outcome R D B
  ◌>>◌ m k t = elim (m t) [ reply r u ↦ reply r u | next a u ↦ k u ]

  -- A statement whose error the handler looks at.
  abbrev pub run : {A : Type 0} → Bool → Statement D A → Tx D → Outcome R D (Result A)
  run fails stmt t = let (r, u) = exec fails stmt t in next r u

  -- Answer and return.
  abbrev pub answer : {A : Type 0} → R → Tx D → Outcome R D A
  answer r t = reply r t

  -- Go on unless there is an error, which is answered by `r`.
  abbrev pub expect : {A : Type 0} → R → Result A → Tx D → Outcome R D A
  expect r (ok a) t = next a t
  expect r (err e) t = reply r t

  -- The deferred rollback: what is not committed is lost.
  abbrev pub close : Outcome R D R → R × D
  close (reply r t) = (r, t.committed)
  close (next r t) = (r, t.committed)

  -- A statement outside a transaction: the server commits it by itself.
  abbrev pub direct : {A : Type 0} → Bool → Statement D A → Tx D → Outcome R D (Result A)
  direct fails stmt t =
      if fails
      then next (err failure) t
      else elim (stmt t.committed) [ ok r ↦ next (ok r.0) (begin r.1) | err e ↦ next (err e) t ]
