-- ===== src/Booking/Atomic.antt =====
-- The last stage of `Create`, and the theorem on the whole: a booking is stored whole or not at
-- all.
use appt_remind.Base.{
  ◌<◌, ◌≡◌, refl, sym, ◌∙◌, ◌⊎◌, inl, inr, false, [], ◌∷◌, String, arith, Bool-cases, eq_iff,
}
use mathlib.Core.List.{append-nil}
use appt_remind.Base.Text.{trim_space}
use appt_remind.Tx.{
  Result, Statement, ok, err, exclusion_violation, Tx, Outcome, reply, next, begin, run, close,
  ◌>>◌,
}
use appt_remind.Tx.Rules.{Ensures, Ensures-bind, Ensures-seq, Ran, run-Ran}
use appt_remind.Booking.Model.{Response, Db}
use appt_remind.Booking.Store.{insert_appointment, clashes_any, has_id}
use appt_remind.Booking.Request.{
  Env, Wish, Request, insert_op, begin_op, Parsed, valid, invalid, parse_create,
}
use appt_remind.Booking.Create.{
  insert_error, place, announce, store_booking, book, serve, create, check_key, check_availability,
  check_limit,
}
use appt_remind.Booking.Stored.{row, Stored}
use appt_remind.Booking.Locked.{Whole, IsLocked, IsReady, At, At-alive, check_key-At}
use appt_remind.Booking.Checked.{IsAvailable, IsBelowLimit, check_availability-At, check_limit-At}
use appt_remind.Booking.Announced.{WithEvents, Passed, announce-Whole}

module _ (env : Env) (wish : Wish) (key : String) (db : Db) where
  insert_appointment-eq :
      (w d : Db) (id : String)
      → insert_appointment wish.appt env.fresh_id env.now w ≡ ok (id, d)
      → wish.appt.status ≡ "booked"
      → (id ≡ env.fresh_id)
        × (clashes_any (row env wish) w.appointments ≡ false)
        × (has_id env.fresh_id w.appointments ≡ false)
        × (record w { appointments = row env wish ∷ w.appointments } ≡ d)
  unfolding insert_appointment
  insert_appointment-eq w d id e s =
      let live = (eq_iff wish.appt.status "booked").1 s in ground arith

  place-At :
      (t : Tx Db)
      → wish.appt.status ≡ "booked"
      → IsAvailable env wish key db
      → IsBelowLimit env wish key db
      → At env wish key db (IsReady env wish key db) t
      → Ensures
          (Whole env wish key db)
          (λ id u.
            (id ≡ env.fresh_id)
            × Passed env wish key db
            × At env wish key db (WithEvents env wish key db [] (IsLocked env wish key db)) u)
          (place env wish t)
  unfolding place insert_error
  place-At t b v l a =
      Ensures-bind (Whole env wish key db) (Ran stmt t) Q (run (env.fails insert_op) stmt)
        insert_error t (run-Ran (Whole env wish key db) (env.fails insert_op) stmt t) after
    where
      stmt : Statement Db String
      stmt = insert_appointment wish.appt env.fresh_id env.now

      Q : String → Tx Db → Type 0
      Q id u =
          (id ≡ env.fresh_id)
          × Passed env wish key db
          × At env wish key db (WithEvents env wish key db [] (IsLocked env wish key db)) u

      after :
          (res : Result String) (u : Tx Db)
          → Ran stmt t res u
          → Ensures (Whole env wish key db) Q (insert_error res u)
      after (err exclusion_violation) u (d, same, how) = inl (d ∙ a.0)
      after (err e) u (d, same, how) = inl (d ∙ a.0)
      after (ok id) u (d, alive, s, e) =
          let f = insert_appointment-eq t.working d id s b in
          let r = At-alive env wish key db (IsReady env wish key db) t a alive in
          rw (e, ← f.3)
            (
              f.0,
              (v, l, rw r.0 at f.1, rw r.0 at f.2),
              (a.0, inr (rw r.0 refl, r.1, r.2 ∙ sym (append-nil db.outbox), r.3)),
            )

  -- The transaction of `Create` stores the booking whole, or commits nothing.
  book-Whole :
      wish.appt.status ≡ "booked"
      → Ensures (Whole env wish key db) (λ _ _. ⊥) (book env wish key (begin db))
  unfolding book store_booking
  book-Whole s =
      Ensures-seq (Whole env wish key db) (λ _. At env wish key db (IsReady env wish key db))
        (λ _ _. ⊥) (check_key env wish.appt.business_id key)
        (check_availability env wish key
          >> (check_limit env wish key >> store_booking env wish key))
        (begin db) (check_key-At env wish key db)
        λ t a.
          Ensures-seq (Whole env wish key db)
            (λ _ u. IsAvailable env wish key db × At env wish key db (IsReady env wish key db) u)
            (λ _ _. ⊥) (check_availability env wish key)
            (check_limit env wish key >> store_booking env wish key) t
            (check_availability-At env wish key db t a)
            λ u b.
              Ensures-seq (Whole env wish key db)
                (λ _ v.
                  IsBelowLimit env wish key db × At env wish key db (IsReady env wish key db) v)
                (λ _ _. ⊥) (check_limit env wish key) (store_booking env wish key) u
                (check_limit-At env wish key db u b.1) λ v c. store v b.0 c
    where
      store :
          (t : Tx Db)
          → IsAvailable env wish key db
          → IsBelowLimit env wish key db × At env wish key db (IsReady env wish key db) t
          → Ensures (Whole env wish key db) (λ _ _. ⊥) (store_booking env wish key t)
      store t v (l, a) =
          Ensures-bind (Whole env wish key db)
            (λ id u.
              (id ≡ env.fresh_id)
              × Passed env wish key db
              × At env wish key db (WithEvents env wish key db [] (IsLocked env wish key db)) u)
            (λ _ _. ⊥) (place env wish) (announce env wish key) t (place-At t s v l a)
            (λ id u q. rw q.0 (announce-Whole env wish key db u q.1 q.2))

  close-Whole :
      (o : Outcome Response Db Response)
      → Ensures (Whole env wish key db) (λ _ _. ⊥) o
      → ((close o).1 ≡ db) ⊎ Stored env wish key db (close o).0 (close o).1
  close-Whole (reply r t) h = h
  close-Whole (next r t) h = absurd h

-- A valid request asks for a booked appointment that ends after it starts.
pub parse_create-valid :
    (env : Env) (req : Request) (wish : Wish)
    → parse_create env req ≡ valid wish
    → (wish.appt.status ≡ "booked") × (wish.appt.start_time < wish.appt.end_time)
unfolding parse_create
parse_create-valid env req wish e = ground arith

serve-Stored :
    (env : Env) (req : Request) (db : Db) (p : Parsed)
    → parse_create env req ≡ p
    → ((serve env req db p).1 ≡ db)
      ⊎ ((wish : Wish) × (parse_create env req ≡ valid wish)
          × Stored env wish
              (trim_space req.idempotency_key)
              db
              (serve env req db p).0
              (serve env req db p).1)
unfolding serve
serve-Stored env req db (invalid r) e = inl refl
serve-Stored env req db (valid wish) e =
    let key = trim_space req.idempotency_key in
    elim (Bool-cases (env.fails begin_op)) [
      | inl f ↦ rw f (inl refl)
      | inr g ↦
          rw g
            (elim (close-Whole env wish key db _
              (book-Whole env wish key db (parse_create-valid env req wish e).0)) [
                | inl same ↦ inl same
                | inr stored ↦ inr (wish, e, stored)
              ])
    ]

-- Whatever fails on the way, a request leaves the rows as they were, or it is valid and its
-- booking is stored: the checks have passed on the rows before, the answer is 201, and the row,
-- the booked event with the reminders that are due, and the record of the key are there.
pub create-Stored :
    (env : Env) (req : Request) (db : Db)
    → ((create env req db).1 ≡ db)
      ⊎ ((wish : Wish) × (parse_create env req ≡ valid wish)
          × Stored env wish
              (trim_space req.idempotency_key)
              db
              (create env req db).0
              (create env req db).1)
unfolding create
create-Stored env req db = serve-Stored env req db (parse_create env req) refl
