-- ===== src/Booking/Locked.antt =====
-- The first stage of `Create`: the idempotency key is answered or its row is locked.
use appt_remind.Base.{
  ◌≡◌, refl, ◌∙◌, ◌⊎◌, inl, inr, Bool, true, false, some, List, String, arith, Bool-cases,
  Option-cases,
}
use appt_remind.Base.Text.{is_empty}
use appt_remind.Tx.{Result, ok, err, no_rows, Tx, begin, run}
use appt_remind.Tx.Rules.{Ensures, Ensures-bind, Ran, run-Ran}
use appt_remind.Booking.Model.{Response, IdempotencyRecord, Db}
use appt_remind.Booking.Store.{find_key, select_key, insert_key}
use appt_remind.Booking.Request.{Env, Wish, select_op, insert_key_op, reselect_op}
use appt_remind.Booking.Create.{
  reselected, inserted_key, selected_key, lock_key, locked_key, replay, check_key,
}
use appt_remind.Booking.Stored.{Stored}

module _ (env : Env) (wish : Wish) (key : String) (db : Db) where
  -- Every answer leaves the rows as they were, or the booking stored.
  abbrev pub Whole : Response → Tx Db → Type 0
  Whole r t = (t.committed ≡ db) ⊎ Stored env wish key db r t.committed

  -- The key's record is there, if the request has a key.
  abbrev pub IsLocked : List IdempotencyRecord → Type 0
  IsLocked keys =
      ((is_empty key ≡ true) × (keys ≡ db.keys))
      ⊎ ((r : IdempotencyRecord) × (is_empty key ≡ false)
          × (find_key wish.appt.business_id key keys ≡ some r))

  -- Only the keys may differ from the rows before.
  abbrev pub IsReady : Db → Type 0
  IsReady w =
      (w.appointments ≡ db.appointments)
      × (w.entitlements ≡ db.entitlements)
      × (w.outbox ≡ db.outbox)
      × IsLocked w.keys

  -- Nothing is committed, and the transaction is aborted or at a stage.
  abbrev pub At : (Db → Type 0) → Tx Db → Type 0
  At Stage t = (t.committed ≡ db) × ((t.aborted ≡ true) ⊎ Stage t.working)

  pub At-alive :
      (Stage : Db → Type 0) (t : Tx Db) → At Stage t → t.aborted ≡ false → Stage t.working
  At-alive Stage t (c, inl dead) alive = cc
  At-alive Stage t (c, inr stage) alive = stage

  abbrev Locks : Result (IdempotencyRecord × Bool) → Tx Db → Type 0
  Locks (ok rec) u = (u.committed ≡ db) × IsReady u.working
  Locks (err e) u = u.committed ≡ db

  select_key-found :
      (w : Db) (rec : IdempotencyRecord) (d : Db)
      → select_key wish.appt.business_id key w ≡ ok (rec, d)
      → (d ≡ w) × (find_key wish.appt.business_id key w.keys ≡ some rec)
  unfolding select_key
  select_key-found w rec d e = ground arith

  -- The rows of other tables are as before.
  abbrev IsBeside : Db → Type 0
  IsBeside w =
      (w.appointments ≡ db.appointments)
      × (w.entitlements ≡ db.entitlements)
      × (w.outbox ≡ db.outbox)

  -- The second select finds the row.
  reselected-Locks :
      (t : Tx Db) (res : Result IdempotencyRecord) (u : Tx Db)
      → t.committed ≡ db
      → IsBeside t.working
      → is_empty key ≡ false
      → Ran (select_key wish.appt.business_id key) t res u
      → Ensures Whole Locks (reselected res u)
  unfolding reselected
  reselected-Locks t (err e) u c w k (d, same, how) = d ∙ c
  reselected-Locks t (ok rec) u c w k (d, alive, s, e) =
      let f = select_key-found t.working rec d s in
      rw (e, f.0) (c, (w.0, w.1, w.2, inr (rec, k, f.1)))

  inserted_key-Locks :
      (t : Tx Db) (res : Result (Unit {0})) (u : Tx Db)
      → t.committed ≡ db
      → IsBeside t.working
      → is_empty key ≡ false
      → Ran (insert_key wish.appt.business_id key) t res u
      → Ensures Whole Locks (inserted_key env wish.appt.business_id key res u)
  unfolding inserted_key insert_key
  inserted_key-Locks t (err e) u c w k (d, same, how) = d ∙ c
  inserted_key-Locks t (ok _) u c w k (d, alive, s, e) =
      Ensures-bind Whole (Ran (select_key wish.appt.business_id key) u) Locks
        (run (env.fails reselect_op) (select_key wish.appt.business_id key)) reselected u
        (run-Ran Whole (env.fails reselect_op) (select_key wish.appt.business_id key) u)
        (λ res v h. reselected-Locks u res v (rw e c) (rw e (ground arith)) k h)

  selected_key-Locks :
      (t : Tx Db) (res : Result IdempotencyRecord) (u : Tx Db)
      → t.committed ≡ db
      → t.working ≡ db
      → is_empty key ≡ false
      → Ran (select_key wish.appt.business_id key) t res u
      → Ensures Whole Locks (selected_key env wish.appt.business_id key res u)
  unfolding selected_key
  selected_key-Locks t (ok rec) u c w k (d, alive, s, e) =
      let f = select_key-found t.working rec d s in
      rw (e, f.0, w) (c, (refl, refl, refl, inr (rec, k, rw w at f.1)))
  selected_key-Locks t (err no_rows) u c w k (d, same, e) =
      Ensures-bind Whole (Ran (insert_key wish.appt.business_id key) u) Locks
        (run (env.fails insert_key_op) (insert_key wish.appt.business_id key))
        (inserted_key env wish.appt.business_id key) u
        (run-Ran Whole (env.fails insert_key_op) (insert_key wish.appt.business_id key) u)
        (λ res v h. inserted_key-Locks u res v (d ∙ c) (rw (same, w) (refl, refl, refl)) k h)
  selected_key-Locks t (err _) u c w k (d, same, e) = d ∙ c

  lock_key-Locks :
      (t : Tx Db)
      → t.committed ≡ db
      → t.working ≡ db
      → is_empty key ≡ false
      → Ensures Whole Locks (lock_key env wish.appt.business_id key t)
  unfolding lock_key
  lock_key-Locks t c w k =
      Ensures-bind Whole (Ran (select_key wish.appt.business_id key) t) Locks
        (run (env.fails select_op) (select_key wish.appt.business_id key))
        (selected_key env wish.appt.business_id key) t
        (run-Ran Whole (env.fails select_op) (select_key wish.appt.business_id key) t)
        (λ res u h. selected_key-Locks t res u c w k h)

  locked_key-At :
      (res : Result (IdempotencyRecord × Bool)) (u : Tx Db)
      → Locks res u
      → Ensures Whole (λ _. At IsReady) (locked_key res u)
  unfolding locked_key
  locked_key-At (err e) u c = inl c
  locked_key-At (ok (rec, existed)) u (c, ready) = elim (Option-cases (replay rec existed)) [
    | inl e ↦ rw e (c, inr ready)
    | inr (r, e) ↦ rw e (inl c)
  ]

  -- After the key is looked up, the handler has answered or the key's row is locked.
  pub check_key-At :
      Ensures Whole (λ _. At IsReady) (check_key env wish.appt.business_id key (begin db))
  unfolding check_key
  check_key-At = elim (Bool-cases (is_empty key)) [
    | inl e ↦ rw e (refl, inr (refl, refl, refl, inl (e, refl)))
    | inr k ↦ rw k (
        Ensures-bind Whole Locks (λ _. At IsReady) (lock_key env wish.appt.business_id key)
          locked_key (begin db) (lock_key-Locks (begin db) refl refl k) locked_key-At)
  ]
