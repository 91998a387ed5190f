-- ===== src/Booking/Succeeds.antt =====
-- `Create` books what it can: when no statement fails and every check passes, the row is stored.
use appt_remind.Base.{
  ℕ, ◌+◌, ◌-◌, ◌<◌, ◌≡◌, refl, sym, subst, inl, inr, eq_iff, true, false, Option, List, [], ◌∷◌,
  String, arith, ltb, leb, count, Bool-cases,
}
use appt_remind.Base.Text.{trim_space, is_empty}
use appt_remind.Tx.{
  Statement, ok, Tx, Outcome, reply, next, begin, exec, commit, run, expect, close, ◌>>◌,
}
use appt_remind.Tx.Rules.{Ensures, Ensures-bind, Ensures-seq}
use appt_remind.Availability.{inside, validate_booking}
use appt_remind.Booking.Model.{Event, Response, Entitlements, created_json, Db}
use appt_remind.Booking.Store.{
  insert_appointment, insert_event, clashes_any, has_id, find_entitlements, get_entitlements,
  count_booked, is_counted,
}
use appt_remind.Booking.Request.{
  Op, Env, Wish, Request, begin_op, commit_op, event_op, insert_op, entitlements_op, count_op,
  reminder_op, valid, parse_create, http_error,
}
use appt_remind.Booking.Create.{
  monthly_max, provider_for, check_key, check_availability, judged, month_is_full, entitled,
  counted, limited, check_limit, place, insert_error, write_booked, booked_event, reminder_event,
  enqueue_reminder, enqueue_both, enqueue_reminders, offsets_for, finalize, commit_created,
  announce, store_booking, book, serve, create,
}
use appt_remind.Booking.Stored.{row}
use appt_remind.Booking.Atomic.{parse_create-valid}

-- What `Create` asks for: no statement fails, the request has no key, and the checks pass.
pub record IsBookable (env : Env) (wish : Wish) (key : String) (db : Db) : Type 0 where
  pub calm : (op : Op) → env.fails op ≡ false
  pub keyless : is_empty key ≡ true
  pub available :
      validate_booking env.format_date
        (provider_for env wish)
        wish.appt.start_time
        wish.appt.end_time
      ≡ inside
  pub below_limit :
      count
        (is_counted wish.appt.business_id
          (env.month_start wish.appt.start_time)
          (env.month_end wish.appt.start_time))
        db.appointments
      < monthly_max (find_entitlements wish.appt.business_id db.entitlements)
  pub no_clash : clashes_any (row env wish) db.appointments ≡ false
  pub new_id : has_id env.fresh_id db.appointments ≡ false

exec_ok :
    {D A : Type 0} (stmt : Statement D A) (t : Tx D) (a : A) (d : D)
    → t.aborted ≡ false
    → stmt t.working ≡ ok (a, d)
    → exec false stmt t ≡ (ok a, record t { working = d })
unfolding exec
exec_ok stmt t a d h e = rw (h, e) refl

next_at :
    {R D A : Type 0} (P : R → Tx D → Type 0) (Q : A → Tx D → Type 0) (o : Outcome R D A) (a : A)
    (u : Tx D)
    → o ≡ next a u
    → Q a u
    → Ensures P Q o
next_at P Q o a u e q = subst (Ensures P Q) (sym e) q

leb-false : (a b : ℕ) → a < b → leb b a ≡ false
leb-false a b h = ground arith

module _ (env : Env) (wish : Wish) (key : String) (db : Db)
    (good : IsBookable env wish key db) where
  -- The answer is 201 with the new id, and the row is there.
  abbrev pub Booked : Response → Tx Db → Type 0
  Booked r t =
      (r ≡ record { status = 201; body = created_json env.fresh_id })
      × (t.committed.appointments ≡ row env wish ∷ db.appointments)

  abbrev Kept : Tx Db → Type 0
  Kept t = (t.aborted ≡ false) × (t.working.appointments ≡ row env wish ∷ db.appointments)

  insert_event-Kept :
      (op : Op) (event : Event) (t : Tx Db)
      → Kept t
      → Ensures Booked (λ res u. (res ≡ ok tt) × Kept u) (run (env.fails op) (insert_event event) t)
  unfolding insert_event
  insert_event-Kept op event t k =
      rw (good.calm op, exec_ok (insert_event event) t tt _ k.0 refl) (refl, (k.0, k.1))

  enqueue_reminder-Kept :
      (id : String) (remind_at : ℕ) (channel recipient : String) (t : Tx Db)
      → Kept t
      → Ensures Booked (λ _. Kept) (enqueue_reminder env wish id remind_at channel recipient t)
  unfolding enqueue_reminder
  enqueue_reminder-Kept id remind_at channel recipient t k =
      elim (Bool-cases (is_empty (trim_space recipient))) [
        | inl e ↦ rw e k
        | inr e ↦ rw e (
            Ensures-bind Booked (λ res u. (res ≡ ok tt) × Kept u) (λ _. Kept)
              (run (env.fails (reminder_op remind_at channel))
                (insert_event (reminder_event env wish id remind_at channel recipient)))
              (λ logged. next tt) t (insert_event-Kept (reminder_op remind_at channel) _ t k)
              (λ res u h. h.1))
      ]

  enqueue_reminders-Kept :
      (id : String) (offsets : List ℕ) (t : Tx Db)
      → Kept t
      → Ensures Booked (λ _. Kept) (enqueue_reminders env wish id offsets t)
  unfolding enqueue_reminders enqueue_both
  enqueue_reminders-Kept id [] t k = k
  enqueue_reminders-Kept id (offset ∷ offsets) t k =
      elim (Bool-cases (ltb wish.appt.start_time (env.now + offset))) [
        | inl late ↦ rw late (enqueue_reminders-Kept id offsets t k)
        | inr due ↦ rw due (
            Ensures-seq Booked (λ _. Kept) (λ _. Kept)
              (enqueue_both env wish id (wish.appt.start_time - offset))
              (enqueue_reminders env wish id offsets) t
              (Ensures-seq Booked (λ _. Kept) (λ _. Kept)
                (enqueue_reminder env wish id (wish.appt.start_time - offset) "email"
                  wish.appt.customer_email)
                (enqueue_reminder env wish id (wish.appt.start_time - offset) "sms"
                  wish.appt.customer_phone)
                t
                (enqueue_reminder-Kept id (wish.appt.start_time - offset) "email"
                  wish.appt.customer_email t k)
                (λ u h.
                  enqueue_reminder-Kept id (wish.appt.start_time - offset) "sms"
                    wish.appt.customer_phone u h))
              (λ u h. enqueue_reminders-Kept id offsets u h))
      ]

  write_booked-Kept :
      (t : Tx Db) → Kept t → Ensures Booked (λ _. Kept) (write_booked env wish env.fresh_id t)
  unfolding write_booked
  write_booked-Kept t k =
      Ensures-bind Booked (λ res u. (res ≡ ok tt) × Kept u) (λ _. Kept)
        (run (env.fails event_op) (insert_event (booked_event env wish env.fresh_id)))
        (expect (http_error 500 "failed to write outbox event")) t
        (insert_event-Kept event_op _ t k) (λ res u h. rw h.0 h.1)

  commit_created-Booked :
      (t : Tx Db) → Kept t → Ensures Booked (λ _ _. ⊥) (commit_created env env.fresh_id t)
  unfolding commit_created commit
  commit_created-Booked t k = rw (k.0, good.calm commit_op) (refl, k.1)

  announce-Booked :
      (t : Tx Db) → Kept t → Ensures Booked (λ _ _. ⊥) (announce env wish key env.fresh_id t)
  unfolding announce finalize
  announce-Booked t k = rw good.keyless (
      Ensures-seq Booked (λ _. Kept) (λ _ _. ⊥) (write_booked env wish env.fresh_id)
        (λ u.
          (enqueue_reminders env wish env.fresh_id (offsets_for env wish.appt.business_id)
              >> (λ v. commit_created env env.fresh_id v))
            u)
        t (write_booked-Kept t k)
        (λ u h.
          Ensures-seq Booked (λ _. Kept) (λ _ _. ⊥)
            (enqueue_reminders env wish env.fresh_id (offsets_for env wish.appt.business_id))
            (commit_created env env.fresh_id) u (enqueue_reminders-Kept env.fresh_id _ u h)
            commit_created-Booked))

  entitled-eq :
      (found : Option Entitlements)
      → entitled env wish.appt.business_id wish.appt.start_time (ok found) (begin db)
        ≡ next
            (ok (
              leb (monthly_max found) (
                count
                  (is_counted wish.appt.business_id
                    (env.month_start wish.appt.start_time)
                    (env.month_end wish.appt.start_time))
                  db.appointments)))
            (begin db)
  unfolding entitled counted count_booked
  entitled-eq found =
      rw
        (
          good.calm count_op,
          exec_ok
              (count_booked wish.appt.business_id (env.month_start wish.appt.start_time)
                (env.month_end wish.appt.start_time))
              (begin db) _ db refl refl,
        )
        refl

  month_is_full-eq :
      month_is_full env wish.appt.business_id wish.appt.start_time (begin db)
      ≡ next (ok false) (begin db)
  unfolding month_is_full get_entitlements
  month_is_full-eq =
      rw
        (
          good.calm entitlements_op,
          exec_ok (get_entitlements wish.appt.business_id) (begin db) _ db refl refl,
          entitled-eq (find_entitlements wish.appt.business_id db.entitlements),
          leb-false _ _ good.below_limit,
        )
        refl

  insert_appointment-ok :
      wish.appt.status ≡ "booked"
      → insert_appointment wish.appt env.fresh_id env.now db
        ≡ ok (env.fresh_id, record db { appointments = row env wish ∷ db.appointments })
  unfolding insert_appointment
  insert_appointment-ok b =
      rw ((eq_iff wish.appt.status "booked").1 b, good.no_clash, good.new_id) refl

  place-eq :
      wish.appt.status ≡ "booked"
      → place env wish (begin db)
        ≡ next env.fresh_id (record (begin db) {
          working = record db { appointments = row env wish ∷ db.appointments };
        })
  unfolding place insert_error
  place-eq b =
      rw
        (
          good.calm insert_op,
          exec_ok (insert_appointment wish.appt env.fresh_id env.now) (begin db) _ _ refl
              (insert_appointment-ok b),
        )
        refl

  check_limit-begin : Ensures Booked (λ _ u. u ≡ begin db) (check_limit env wish key (begin db))
  unfolding check_limit limited
  check_limit-begin =
      Ensures-bind Booked (λ res u. (res ≡ ok false) × (u ≡ begin db)) (λ _ u. u ≡ begin db)
        (month_is_full env wish.appt.business_id wish.appt.start_time) (limited env wish key)
        (begin db)
        (next_at Booked (λ res u. (res ≡ ok false) × (u ≡ begin db)) _ _ _ month_is_full-eq
          (refl, refl))
        (λ res u h. rw (h.0, h.1) refl)

  check_availability-eq : check_availability env wish key (begin db) ≡ next tt (begin db)
  unfolding check_availability judged
  check_availability-eq = rw good.available refl

  check_key-eq : check_key env wish.appt.business_id key (begin db) ≡ next tt (begin db)
  unfolding check_key
  check_key-eq = rw good.keyless refl

  store_booking-Booked :
      wish.appt.status ≡ "booked"
      → Ensures Booked (λ _ _. ⊥) (store_booking env wish key (begin db))
  unfolding store_booking
  store_booking-Booked b =
      Ensures-bind Booked (λ id u. (id ≡ env.fresh_id) × Kept u) (λ _ _. ⊥) (place env wish)
        (announce env wish key) (begin db)
        (next_at Booked (λ id u. (id ≡ env.fresh_id) × Kept u) _ _ _ (place-eq b)
          (refl, (refl, refl)))
        (λ id u h. rw h.0 (announce-Booked u h.1))

  book-Booked :
      wish.appt.status ≡ "booked" → Ensures Booked (λ _ _. ⊥) (book env wish key (begin db))
  unfolding book
  book-Booked b =
      Ensures-seq Booked (λ _ u. u ≡ begin db) (λ _ _. ⊥) (check_key env wish.appt.business_id key)
        (check_availability env wish key
          >> (check_limit env wish key >> store_booking env wish key))
        (begin db) (next_at Booked (λ _ u. u ≡ begin db) _ _ _ check_key-eq refl)
        λ t d. rw d (
          Ensures-seq Booked (λ _ u. u ≡ begin db) (λ _ _. ⊥) (check_availability env wish key)
            (check_limit env wish key >> store_booking env wish key) (begin db)
            (next_at Booked (λ _ u. u ≡ begin db) _ _ _ check_availability-eq refl)
            λ u e. rw e (
              Ensures-seq Booked (λ _ v. v ≡ begin db) (λ _ _. ⊥) (check_limit env wish key)
                (store_booking env wish key) (begin db) check_limit-begin
                λ v f. rw f (store_booking-Booked b)))

  close-Booked :
      (o : Outcome Response Db Response)
      → Ensures Booked (λ _ _. ⊥) o
      → ((close o).0 ≡ record { status = 201; body = created_json env.fresh_id })
        × ((close o).1.appointments ≡ row env wish ∷ db.appointments)
  close-Booked (reply r t) h = h
  close-Booked (next r t) h = absurd h

-- A valid request without a key, at which no statement fails and whose checks pass, is answered
-- with 201 and the new id, and its row is stored.
pub create-IsBookable :
    (env : Env) (req : Request) (db : Db) (wish : Wish)
    → parse_create env req ≡ valid wish
    → IsBookable env wish (trim_space req.idempotency_key) db
    → ((create env req db).0 ≡ record { status = 201; body = created_json env.fresh_id })
      × ((create env req db).1.appointments ≡ row env wish ∷ db.appointments)
unfolding create serve
create-IsBookable env req db wish e good =
    rw (e, serve, good.calm begin_op)
      (close-Booked env wish (trim_space req.idempotency_key) db good _ (
        book-Booked env wish (trim_space req.idempotency_key) db good
          (parse_create-valid env req wish e).0))
