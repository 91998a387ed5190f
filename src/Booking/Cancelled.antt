-- ===== src/Booking/Cancelled.antt =====
-- `Cancel` cancels a booked row with its event, or changes nothing.
use appt_remind.Base.{
  ℕ, ◌≡◌, refl, ◌∙◌, ◌⊎◌, inl, inr, Option, none, some, [], ◌∷◌, ◌++◌, ◌||◌, String, arith,
  Bool-cases, eq_iff, ◌==◌,
}
use appt_remind.Base.Text.{trim_space, is_empty}
use appt_remind.Tx.{
  Result, Statement, ok, err, no_rows, Tx, Outcome, reply, next, begin, run, expect, close, ◌>>◌,
}
use appt_remind.Tx.Rules.{Ensures, Ensures-bind, Ensures-seq, Ran, run-Ran, commit_cases}
use appt_remind.Booking.Model.{Appointment, Event, Response, Db}
use appt_remind.Booking.Store.{
  find_appointment, get_appointment, cancel_rows, cancel_appointment, insert_event,
}
use appt_remind.Booking.Request.{http_error}
use appt_remind.Booking.Cancel.{
  CancelEnv, CancelCall, CancelRequest, load_op, cancel_op, event_op, commit_op, begin_op,
  cancel_response, cancelled_event, load_error, already, judge_status, check_status,
  commit_cancelled, cancel_row, write_cancelled, cancel_booked, cancel_loaded, load, cancel_tx,
  cancel_json, cancel,
}

-- The booked row that was found is cancelled, with its event, and nothing else changes.
pub record Cancelled (env : CancelEnv) (business_id id reason : String) (before : Db) (r : Response)
    (after : Db) : Type 0 where
  pub appt : Appointment
  pub found : find_appointment business_id id before.appointments ≡ some appt
  pub was_booked : appt.status ≡ "booked"
  pub answered : r ≡ cancel_response env appt.id env.now
  pub appointments :
      after.appointments ≡ cancel_rows business_id appt.id reason env.now before.appointments
  pub keys : after.keys ≡ before.keys
  pub entitlements : after.entitlements ≡ before.entitlements
  pub events : after.outbox ≡ before.outbox ++ cancelled_event env appt reason env.now ∷ []

insert_event-eq :
    (event : Event) (w d : Db) (a : Unit {0})
    → insert_event event w ≡ ok (a, d)
    → record w { outbox = w.outbox ++ event ∷ [] } ≡ d
unfolding insert_event
insert_event-eq event w d a e = ground arith

module _ (env : CancelEnv) (business_id id reason : String) (db : Db) where
  abbrev Settled : Response → Tx Db → Type 0
  Settled r t = (t.committed ≡ db) ⊎ Cancelled env business_id id reason db r t.committed

  -- Nothing is committed yet, and the transaction sees `w`.
  abbrev Sees : Db → Tx Db → Type 0
  Sees w t = (t.committed ≡ db) × (t.working ≡ w)

  get_appointment-eq :
      (w d : Db) (appt : Appointment)
      → get_appointment business_id id w ≡ ok (appt, d)
      → (find_appointment business_id id w.appointments ≡ some appt) × (d ≡ w)
  unfolding get_appointment
  get_appointment-eq w d appt e = ground arith

  load-Sees :
      Ensures Settled
        (λ appt t. (find_appointment business_id id db.appointments ≡ some appt) × Sees db t)
        (load env business_id id (begin db))
  unfolding load load_error
  load-Sees =
      Ensures-bind Settled (Ran stmt (begin db)) Q (run (env.fails load_op) stmt) load_error
        (begin db) (run-Ran Settled (env.fails load_op) stmt (begin db)) after
    where
      stmt : Statement Db Appointment
      stmt = get_appointment business_id id

      Q : Appointment → Tx Db → Type 0
      Q appt t = (find_appointment business_id id db.appointments ≡ some appt) × Sees db t

      after :
          (res : Result Appointment) (u : Tx Db)
          → Ran stmt (begin db) res u
          → Ensures Settled Q (load_error res u)
      after (err no_rows) u (c, w, how) = inl c
      after (err e) u (c, w, how) = inl c
      after (ok appt) u (d, alive, s, e) =
          let f = get_appointment-eq db d appt s in rw (e, f.1) (f.0, (refl, refl))

  judge_status-booked :
      (appt : Appointment) (at : Option ℕ) (t : Tx Db)
      → Sees db t
      → Ensures Settled (λ _ u. (appt.status ≡ "booked") × Sees db u) (judge_status env appt at t)
  unfolding judge_status
  judge_status-booked appt (some at) t h = inl h.0
  judge_status-booked appt none t h = elim (Bool-cases (appt.status == "booked")) [
    | inl e ↦ rw e ((eq_iff appt.status "booked").0 e, h)
    | inr f ↦ rw f (inl h.0)
  ]

  cancel_appointment-eq :
      (appt : Appointment) (w d : Db) (at : ℕ)
      → cancel_appointment business_id appt.id reason env.now w ≡ ok (at, d)
      → (at ≡ env.now)
        × (record w { appointments = cancel_rows business_id appt.id reason env.now w.appointments }
            ≡ d)
  unfolding cancel_appointment
  cancel_appointment-eq appt w d at e = ground arith

  -- The rows after the cancellation, before its event.
  abbrev emptied : Appointment → Db
  emptied appt = record db {
    appointments = cancel_rows business_id appt.id reason env.now db.appointments;
  }

  cancel_row-Sees :
      (appt : Appointment) (t : Tx Db)
      → Sees db t
      → Ensures Settled
          (λ at u. (at ≡ env.now) × Sees (emptied appt) u)
          (cancel_row env business_id appt.id reason t)
  unfolding cancel_row
  cancel_row-Sees appt t h =
      Ensures-bind Settled (Ran stmt t) Q (run (env.fails cancel_op) stmt)
        (expect (http_error 500 "failed to cancel appointment")) t
        (run-Ran Settled (env.fails cancel_op) stmt t) after
    where
      stmt : Statement Db ℕ
      stmt = cancel_appointment business_id appt.id reason env.now

      Q : ℕ → Tx Db → Type 0
      Q at u = (at ≡ env.now) × Sees (emptied appt) u

      after :
          (res : Result ℕ) (u : Tx Db)
          → Ran stmt t res u
          → Ensures Settled Q (expect (http_error 500 "failed to cancel appointment") res u)
      after (err e) u (c, w, how) = inl (c ∙ h.0)
      after (ok at) u (d, alive, s, e) =
          let f = cancel_appointment-eq appt t.working d at s in
          rw (e, ← f.1, h.1) (f.0, (h.0, refl))

  write_cancelled-Sees :
      (appt : Appointment) (w : Db) (t : Tx Db)
      → Sees w t
      → Ensures Settled
          (λ _.
            Sees (record w { outbox = w.outbox ++ cancelled_event env appt reason env.now ∷ [] }))
          (write_cancelled env appt reason env.now t)
  unfolding write_cancelled
  write_cancelled-Sees appt w t h =
      Ensures-bind Settled (Ran stmt t) Q (run (env.fails event_op) stmt)
        (expect (http_error 500 "failed to write outbox event")) t
        (run-Ran Settled (env.fails event_op) stmt t) after
    where
      event : Event
      event = cancelled_event env appt reason env.now

      stmt : Statement Db (Unit {0})
      stmt = insert_event event

      Q : Unit {0} → Tx Db → Type 0
      Q _ = Sees (record w { outbox = w.outbox ++ event ∷ [] })

      after :
          (res : Result (Unit {0})) (u : Tx Db)
          → Ran stmt t res u
          → Ensures Settled Q (expect (http_error 500 "failed to write outbox event") res u)
      after (err e) u (c, v, how) = inl (c ∙ h.0)
      after (ok x) u (d, alive, s, e) =
          rw (e, ← insert_event-eq event t.working d x s, h.1) (h.0, refl)

  commit_cancelled-Settled :
      (appt : Appointment) (t : Tx Db)
      → find_appointment business_id id db.appointments ≡ some appt
      → appt.status ≡ "booked"
      → Sees
          (record (emptied appt) {
            outbox = db.outbox ++ cancelled_event env appt reason env.now ∷ [];
          })
          t
      → Ensures Settled (λ _ _. ⊥) (commit_cancelled env appt.id env.now t)
  unfolding commit_cancelled
  commit_cancelled-Settled appt t found booked h = elim (commit_cases (env.fails commit_op) t) [
    | inl e ↦ rw e (inl h.0)
    | inr (alive, e) ↦
        rw (e, h.1)
          (inr (record {
            appt = appt;
            found = found;
            was_booked = booked;
            answered = refl;
            appointments = refl;
            keys = refl;
            entitlements = refl;
            events = refl;
          }))
  ]

  cancel_loaded-Settled :
      (appt : Appointment) (t : Tx Db)
      → find_appointment business_id id db.appointments ≡ some appt
      → Sees db t
      → Ensures Settled (λ _ _. ⊥) (cancel_loaded env business_id reason appt t)
  unfolding cancel_loaded check_status cancel_booked
  cancel_loaded-Settled appt t found h =
      Ensures-seq Settled (λ _ u. (appt.status ≡ "booked") × Sees db u) (λ _ _. ⊥)
        (check_status env appt) (cancel_booked env business_id reason appt) t
        (judge_status-booked appt (already appt) t h)
        λ u a.
          Ensures-bind Settled (λ at v. (at ≡ env.now) × Sees (emptied appt) v) (λ _ _. ⊥)
            (cancel_row env business_id appt.id reason)
            (λ at. write_cancelled env appt reason at >> commit_cancelled env appt.id at) u
            (cancel_row-Sees appt u a.1)
            λ at v b. rw b.0 (
              Ensures-seq Settled
                (λ _. Sees (record (emptied appt) {
                  outbox = db.outbox ++ cancelled_event env appt reason env.now ∷ [];
                }))
                (λ _ _. ⊥) (write_cancelled env appt reason env.now)
                (commit_cancelled env appt.id env.now) v
                (write_cancelled-Sees appt (emptied appt) v b.1)
                (λ w c. commit_cancelled-Settled appt w found a.0 c))

  close-Settled :
      (o : Outcome Response Db Response)
      → Ensures Settled (λ _ _. ⊥) o
      → ((close o).1 ≡ db) ⊎ Cancelled env business_id id reason db (close o).0 (close o).1
  close-Settled (reply r t) h = h
  close-Settled (next r t) h = absurd h

  cancel_tx-Cancelled :
      ((close (cancel_tx env business_id id reason (begin db))).1 ≡ db)
      ⊎ Cancelled env business_id id reason db
          (close (cancel_tx env business_id id reason (begin db))).0
          (close (cancel_tx env business_id id reason (begin db))).1
  unfolding cancel_tx
  cancel_tx-Cancelled = close-Settled _ (
      Ensures-bind Settled
        (λ appt t. (find_appointment business_id id db.appointments ≡ some appt) × Sees db t)
        (λ _ _. ⊥) (load env business_id id) (cancel_loaded env business_id reason) (begin db)
        load-Sees (λ appt t h. cancel_loaded-Settled appt t h.0 h.1))

cancel_json-Cancelled :
    (env : CancelEnv) (json : Option CancelRequest) (db : Db)
    → ((cancel_json env json db).1 ≡ db)
      ⊎ ((req : CancelRequest) × (json ≡ some req)
          × Cancelled env
              (trim_space req.business_id)
              (trim_space req.appointment_id)
              (trim_space req.reason)
              db
              (cancel_json env json db).0
              (cancel_json env json db).1)
unfolding cancel_json
cancel_json-Cancelled env none db = inl refl
cancel_json-Cancelled env (some req) db =
    elim (Bool-cases
      (is_empty (trim_space req.business_id) || is_empty (trim_space req.appointment_id))) [
        | inl e ↦ rw e (inl refl)
        | inr f ↦ elim (Bool-cases (env.fails begin_op)) [
          | inl e ↦ rw (f, e) (inl refl)
          | inr g ↦
              rw (f, g)
                (elim (cancel_tx-Cancelled env (trim_space req.business_id)
                  (trim_space req.appointment_id) (trim_space req.reason) db) [
                    | inl same ↦ inl same
                    | inr c ↦ inr (req, refl, c)
                  ])
        ]
      ]

-- Whatever fails on the way, a request leaves the rows as they were, or the row that it names was
-- booked, is answered with the time of its cancellation, and is cancelled with its event.
pub cancel-Cancelled :
    (env : CancelEnv) (call : CancelCall) (db : Db)
    → ((cancel env call db).1 ≡ db)
      ⊎ ((req : CancelRequest) × (call.json ≡ some req)
          × Cancelled env
              (trim_space req.business_id)
              (trim_space req.appointment_id)
              (trim_space req.reason)
              db
              (cancel env call db).0
              (cancel env call db).1)
unfolding cancel
cancel-Cancelled env call db = elim (Bool-cases (call.method == "POST")) [
  | inl e ↦ rw e (cancel_json-Cancelled env call.json db)
  | inr f ↦ rw f (inl refl)
]
