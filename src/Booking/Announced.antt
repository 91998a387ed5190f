-- ===== src/Booking/Announced.antt =====
-- The last stage of `Create`: the events, the key's record and the commit.
use appt_remind.Base.{
  ℕ, ◌+◌, ◌-◌, ◌≡◌, refl, ◌∙◌, subst, inl, inr, true, false, some, List, [], ◌∷◌, ◌++◌, String,
  arith, ltb, Bool-cases, Sum-map,
}
use mathlib.Core.List.{append_assoc, append-nil}
use appt_remind.Base.Text.{trim_space, is_empty}
use appt_remind.Tx.{Result, Statement, ok, err, no_rows, Tx, next, run, expect, ◌>>◌}
use appt_remind.Tx.Rules.{Ensures, Ensures-bind, Ensures-seq, Ran, run-Ran, commit_cases}
use appt_remind.Booking.Model.{Event, created_json, IdempotencyRecord, Db, Body}
use appt_remind.Booking.Store.{
  is_key, find_key, finalize_keys, finalize_key, insert_event, clashes_any, has_id,
}
use appt_remind.Booking.Request.{
  Env, Wish, event_op, reminder_op, finalize_op, commit_op, http_error,
}
use appt_remind.Booking.Create.{
  booked_event, reminder_event, enqueue_reminder, enqueue_both, enqueue_reminders, offsets_for,
  finalize, commit_created, write_booked, announce,
}
use appt_remind.Booking.Stored.{row, reminder_on, reminders_at, reminders, IsFinal}
use appt_remind.Booking.Locked.{Whole, IsLocked, At, At-alive}
use appt_remind.Booking.Checked.{IsAvailable, IsBelowLimit}

-- Finalising a key's record is seen by the next lookup of the key.
pub find_key-finalize_keys :
    (business_id key id : String) (status : ℕ) (body : Body) (keys : List IdempotencyRecord)
    {r : IdempotencyRecord}
    → find_key business_id key keys ≡ some r
    → find_key business_id key (finalize_keys business_id key id status body keys)
      ≡ some (record r { appointment_id = id; status_code = status; response_payload = some body })
unfolding find_key finalize_keys
find_key-finalize_keys business_id key id status body [] e = cc
find_key-finalize_keys business_id key id status body (r ∷ rs) {r = found} e =
    elim (Bool-cases (is_key business_id key r)) [
      | inl hit ↦ let same = rw hit at e in rw (hit, hit) (ground arith)
      | inr miss ↦
          let later = rw miss at e in
          rw (miss, miss) (find_key-finalize_keys business_id key id status body rs later)
    ]

insert_event-found : (event : Event) (w : Db) → ¬ (insert_event event w ≡ err no_rows)
unfolding insert_event
insert_event-found event w e = cc

module _ (env : Env) (wish : Wish) (key : String) (db : Db) where
  -- The row is in, and the events so far.
  abbrev pub WithEvents : List Event → (List IdempotencyRecord → Type 0) → Db → Type 0
  WithEvents events Keys w =
      (w.appointments ≡ row env wish ∷ db.appointments)
      × (w.entitlements ≡ db.entitlements)
      × (w.outbox ≡ db.outbox ++ events)
      × Keys w.keys

  insert_event-WithEvents :
      (events : List Event) (event : Event) (Keys : List IdempotencyRecord → Type 0) (w d : Db)
      (a : Unit {0})
      → insert_event event w ≡ ok (a, d)
      → WithEvents events Keys w
      → WithEvents (events ++ event ∷ []) Keys d
  unfolding insert_event
  insert_event-WithEvents events event Keys w d a e h =
      let same : record w { outbox = w.outbox ++ event ∷ [] } ≡ d = ground arith in
      subst (WithEvents (events ++ event ∷ []) Keys) same
        (h.0, h.1, rw (h.2, append_assoc db.outbox events (event ∷ [])) refl, h.3)

  enqueue_reminder-At :
      (events : List Event) (Keys : List IdempotencyRecord → Type 0) (id : String) (remind_at : ℕ)
      (channel recipient : String) (t : Tx Db)
      → At env wish key db (WithEvents events Keys) t
      → Ensures
          (Whole env wish key db)
          (λ _.
            At env wish key db
              (WithEvents (events ++ reminder_on env wish id remind_at channel recipient) Keys))
          (enqueue_reminder env wish id remind_at channel recipient t)
  unfolding enqueue_reminder
  enqueue_reminder-At events Keys id remind_at channel recipient t a =
      elim (Bool-cases (is_empty (trim_space recipient))) [
        | inl e ↦ rw (e, append-nil events) a
        | inr f ↦ rw f (
            Ensures-bind (Whole env wish key db) (Ran (insert_event event) t) Q
              (run (env.fails (reminder_op remind_at channel)) (insert_event event))
              (λ logged. next tt) t
              (run-Ran (Whole env wish key db) (env.fails (reminder_op remind_at channel))
                (insert_event event) t)
              after)
      ]
    where
      event : Event
      event = reminder_event env wish id remind_at channel recipient

      Q : Unit {0} → Tx Db → Type 0
      Q _ = At env wish key db (WithEvents (events ++ event ∷ []) Keys)

      after : (res : Result (Unit {0})) (u : Tx Db) → Ran (insert_event event) t res u → Q tt u
      after (err e) u (d, same, inl dead) = (d ∙ a.0, inl dead)
      after (err e) u (d, same, inr how) = absurd (insert_event-found event t.working how.1)
      after (ok x) u (d, alive, s, e) = rw e (
        a.0,
        inr (
            insert_event-WithEvents events event Keys t.working d x s
              (At-alive env wish key db (WithEvents events Keys) t a alive)),
      )

  enqueue_both-At :
      (events : List Event) (Keys : List IdempotencyRecord → Type 0) (id : String) (remind_at : ℕ)
      (t : Tx Db)
      → At env wish key db (WithEvents events Keys) t
      → Ensures
          (Whole env wish key db)
          (λ _. At env wish key db (WithEvents (events ++ reminders_at env wish id remind_at) Keys))
          (enqueue_both env wish id remind_at t)
  unfolding enqueue_both
  enqueue_both-At events Keys id remind_at t a =
      let mail = reminder_on env wish id remind_at "email" wish.appt.customer_email in
      let phone = reminder_on env wish id remind_at "sms" wish.appt.customer_phone in
      rw (← append_assoc events mail phone) (
        Ensures-seq (Whole env wish key db)
          (λ _. At env wish key db (WithEvents (events ++ mail) Keys))
          (λ _. At env wish key db (WithEvents ((events ++ mail) ++ phone) Keys))
          (enqueue_reminder env wish id remind_at "email" wish.appt.customer_email)
          (enqueue_reminder env wish id remind_at "sms" wish.appt.customer_phone) t
          (enqueue_reminder-At events Keys id remind_at "email" wish.appt.customer_email t a)
          (λ u b.
            enqueue_reminder-At (events ++ mail) Keys id remind_at "sms" wish.appt.customer_phone u
              b))

  enqueue_reminders-At :
      (events : List Event) (Keys : List IdempotencyRecord → Type 0) (id : String)
      (offsets : List ℕ) (t : Tx Db)
      → At env wish key db (WithEvents events Keys) t
      → Ensures
          (Whole env wish key db)
          (λ _. At env wish key db (WithEvents (events ++ reminders env wish id offsets) Keys))
          (enqueue_reminders env wish id offsets t)
  unfolding enqueue_reminders
  enqueue_reminders-At events Keys id [] t a = rw (append-nil events) a
  enqueue_reminders-At events Keys id (offset ∷ offsets) t a =
      elim (Bool-cases (ltb wish.appt.start_time (env.now + offset))) [
        | inl late ↦ rw late (enqueue_reminders-At events Keys id offsets t a)
        | inr due ↦
            let some_at = reminders_at env wish id (wish.appt.start_time - offset) in
            let more = reminders env wish id offsets in
            rw (due, ← append_assoc events some_at more)
              (Ensures-seq (Whole env wish key db)
                (λ _. At env wish key db (WithEvents (events ++ some_at) Keys))
                (λ _. At env wish key db (WithEvents ((events ++ some_at) ++ more) Keys))
                (enqueue_both env wish id (wish.appt.start_time - offset))
                (enqueue_reminders env wish id offsets) t
                (enqueue_both-At events Keys id (wish.appt.start_time - offset) t a)
                (λ u b. enqueue_reminders-At (events ++ some_at) Keys id offsets u b))
      ]

  abbrev pub Finals : List IdempotencyRecord → Type 0
  Finals = IsFinal wish key env.fresh_id db.keys

  finalize_key-eq :
      (w d : Db) (a : Unit {0})
      → finalize_key wish.appt.business_id key env.fresh_id 201 (created_json env.fresh_id) w
        ≡ ok (a, d)
      → record w {
        keys =
            finalize_keys wish.appt.business_id key env.fresh_id 201
              (created_json env.fresh_id)
              w.keys;
      }
        ≡ d
  unfolding finalize_key
  finalize_key-eq w d a e = ground arith

  finalized :
      (keys : List IdempotencyRecord)
      → is_empty key ≡ false
      → IsLocked env wish key db keys
      → Finals (
          finalize_keys wish.appt.business_id key env.fresh_id 201 (created_json env.fresh_id) keys)
  finalized keys k (inl (e, same)) = cc
  finalized keys k (inr (r, k', found)) = inr (
    r,
    k,
    find_key-finalize_keys wish.appt.business_id key env.fresh_id 201 (created_json env.fresh_id)
        keys found,
  )

  finalize_key-Finals :
      (w d : Db) (events : List Event) (a : Unit {0})
      → is_empty key ≡ false
      → finalize_key wish.appt.business_id key env.fresh_id 201 (created_json env.fresh_id) w
        ≡ ok (a, d)
      → WithEvents events (IsLocked env wish key db) w
      → WithEvents events Finals d
  finalize_key-Finals w d events a k e h =
      subst (WithEvents events Finals) (finalize_key-eq w d a e)
        (h.0, h.1, h.2, finalized w.keys k h.3)

  unkeyed :
      (events : List Event) (w : Db)
      → is_empty key ≡ true
      → WithEvents events (IsLocked env wish key db) w
      → WithEvents events Finals w
  unkeyed events w e (a, b, c, inl same) = (a, b, c, inl same)
  unkeyed events w e (a, b, c, inr (r, k, found)) = cc

  finalize-At :
      (events : List Event) (t : Tx Db)
      → At env wish key db (WithEvents events (IsLocked env wish key db)) t
      → Ensures
          (Whole env wish key db)
          (λ _. At env wish key db (WithEvents events Finals))
          (finalize env wish key env.fresh_id t)
  unfolding finalize
  finalize-At events t a = elim (Bool-cases (is_empty key)) [
    | inl e ↦ rw e (a.0, Sum-map (λ dead. dead) (unkeyed events t.working e) a.1)
    | inr k ↦ rw k (
        Ensures-bind (Whole env wish key db) (Ran stmt t)
          (λ _. At env wish key db (WithEvents events Finals)) (run (env.fails finalize_op) stmt)
          (expect (http_error 500 "failed to finalize idempotency key")) t
          (run-Ran (Whole env wish key db) (env.fails finalize_op) stmt t) (after k))
  ]
    where
      stmt : Statement Db (Unit {0})
      stmt = finalize_key wish.appt.business_id key env.fresh_id 201 (created_json env.fresh_id)

      after :
          is_empty key ≡ false
          → (res : Result (Unit {0})) (u : Tx Db) → Ran stmt t res u
          → Ensures
              (Whole env wish key db)
              (λ _. At env wish key db (WithEvents events Finals))
              (expect (http_error 500 "failed to finalize idempotency key") res u)
      after k (err e) u (d, same, how) = inl (d ∙ a.0)
      after k (ok x) u (d, alive, s, e) = rw e (
        a.0,
        inr (
            finalize_key-Finals t.working d events x k s
              (At-alive env wish key db (WithEvents events (IsLocked env wish key db)) t a alive)),
      )

  -- What the checks and the insert have established.
  abbrev pub Passed : Type 0
  Passed =
      IsAvailable env wish key db
      × IsBelowLimit env wish key db
      × (clashes_any (row env wish) db.appointments ≡ false)
      × (has_id env.fresh_id db.appointments ≡ false)

  abbrev pub all_events : List Event
  all_events =
      booked_event env wish env.fresh_id
      ∷ reminders env wish env.fresh_id (offsets_for env wish.appt.business_id)

  commit_created-Whole :
      (t : Tx Db)
      → Passed
      → At env wish key db (WithEvents all_events Finals) t
      → Ensures (Whole env wish key db) (λ _ _. ⊥) (commit_created env env.fresh_id t)
  unfolding commit_created
  commit_created-Whole t p a = elim (commit_cases (env.fails commit_op) t) [
    | inl e ↦ rw e (inl a.0)
    | inr (alive, e) ↦
        let w = At-alive env wish key db (WithEvents all_events Finals) t a alive in
        rw e (
          inr (record {
            answered = refl;
            available = p.0;
            below_limit = p.1;
            no_clash = p.2;
            new_id = p.3;
            appointments = w.0;
            entitlements = w.1;
            events = w.2;
            key_record = w.3;
          }))
  ]

  write_booked-At :
      (t : Tx Db)
      → At env wish key db (WithEvents [] (IsLocked env wish key db)) t
      → Ensures
          (Whole env wish key db)
          (λ _.
            At env wish key db
              (WithEvents (booked_event env wish env.fresh_id ∷ []) (IsLocked env wish key db)))
          (write_booked env wish env.fresh_id t)
  unfolding write_booked
  write_booked-At t a =
      Ensures-bind (Whole env wish key db) (Ran (insert_event event) t) Q
        (run (env.fails event_op) (insert_event event))
        (expect (http_error 500 "failed to write outbox event")) t
        (run-Ran (Whole env wish key db) (env.fails event_op) (insert_event event) t) after
    where
      event : Event
      event = booked_event env wish env.fresh_id

      Q : Unit {0} → Tx Db → Type 0
      Q _ = At env wish key db (WithEvents (event ∷ []) (IsLocked env wish key db))

      after :
          (res : Result (Unit {0})) (u : Tx Db)
          → Ran (insert_event event) t res u
          → Ensures
              (Whole env wish key db)
              Q
              (expect (http_error 500 "failed to write outbox event") res u)
      after (err e) u (d, same, how) = inl (d ∙ a.0)
      after (ok x) u (d, alive, s, e) = rw e (
        a.0,
        inr (
            insert_event-WithEvents [] event (IsLocked env wish key db) t.working d x s
              (At-alive env wish key db (WithEvents [] (IsLocked env wish key db)) t a alive)),
      )

  pub announce-Whole :
      (t : Tx Db)
      → Passed
      → At env wish key db (WithEvents [] (IsLocked env wish key db)) t
      → Ensures (Whole env wish key db) (λ _ _. ⊥) (announce env wish key env.fresh_id t)
  unfolding announce
  announce-Whole t p a =
      let first = booked_event env wish env.fresh_id ∷ [] in
      let offsets = offsets_for env wish.appt.business_id in
      Ensures-seq (Whole env wish key db)
        (λ _. At env wish key db (WithEvents first (IsLocked env wish key db))) (λ _ _. ⊥)
        (write_booked env wish env.fresh_id)
        (enqueue_reminders env wish env.fresh_id offsets
          >> (finalize env wish key env.fresh_id >> commit_created env env.fresh_id))
        t (write_booked-At t a)
        λ u b.
          Ensures-seq (Whole env wish key db)
            (λ _. At env wish key db (WithEvents all_events (IsLocked env wish key db))) (λ _ _. ⊥)
            (enqueue_reminders env wish env.fresh_id offsets)
            (finalize env wish key env.fresh_id >> commit_created env env.fresh_id) u
            (enqueue_reminders-At first (IsLocked env wish key db) env.fresh_id offsets u b)
            λ v c.
              Ensures-seq (Whole env wish key db)
                (λ _. At env wish key db (WithEvents all_events Finals)) (λ _ _. ⊥)
                (finalize env wish key env.fresh_id) (commit_created env env.fresh_id) v
                (finalize-At all_events v c) (λ w f. commit_created-Whole w p f)
