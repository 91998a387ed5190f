-- ===== src/Booking/CancelDone.antt =====
-- `Cancel` of services/booking-service/internal/handlers/booking.go, when nothing stands in its way.
use appt_remind.Base.{
  ℕ, ◌≡◌, refl, sym, subst, ◌∙◌, ap, ◌≢◌, false, some, List, [], ◌∷◌, ◌++◌, String, arith, All,
  eq_iff, eq_refl,
}
use appt_remind.Base.Text.{trim_space, is_empty}
use appt_remind.Tx.{begin, exec, commit, close}
use appt_remind.Booking.Model.{Appointment, Db, cancelled_json}
use appt_remind.Booking.Store.{
  find_appointment, get_appointment, cancel_rows, cancel_appointment, insert_event,
}
use appt_remind.Booking.Cancel.{
  CancelEnv, CancelCall, CancelRequest, CancelOp, load_op, cancel_op, event_op, commit_op, begin_op,
  cancel_response, cancelled_event, load_error, already, judge_status, check_status, format_utc,
  commit_cancelled, cancel_row, write_cancelled, cancel_booked, cancel_loaded, load, cancel_tx,
  cancel_json, cancel,
}
use appt_remind.Booking.CancelRow.{AreKeyed, cancel_rows-same}

-- What `Cancel` asks for: no statement fails, and the request is a POST that names a booked row.
pub record IsCancellable (env : CancelEnv) (call : CancelCall) (req : CancelRequest)
    (row : Appointment) : Type 0 where
  pub calm : (op : CancelOp) → env.fails op ≡ false
  pub posted : call.method ≡ "POST"
  pub json : call.json ≡ some req
  pub business_named : is_empty (trim_space req.business_id) ≡ false
  pub id_named : is_empty (trim_space req.appointment_id) ≡ false
  pub by_business : row.business_id ≡ trim_space req.business_id
  pub by_id : row.id ≡ trim_space req.appointment_id
  pub booked : row.status ≡ "booked"

module _ (row : Appointment) (back : List Appointment) where
  All-middle :
      (P : Appointment → Type 0) (front : List Appointment) → All P (front ++ row ∷ back) → P row
  All-middle P [] h = h.0
  All-middle P (a ∷ front) h = All-middle P front h.1

  find_appointment-middle :
      (front : List Appointment)
      → AreKeyed (front ++ row ∷ back)
      → find_appointment row.business_id row.id (front ++ row ∷ back) ≡ some row
  unfolding find_appointment
  find_appointment-middle [] k = rw (eq_refl row.id, eq_refl row.business_id) refl
  find_appointment-middle (a ∷ front) k =
      let rest = find_appointment-middle front k.1 in
      let other = All-middle (λ b. b.id ≢ a.id) front k.0 in ground (arith, eq_iff a.id row.id)

  cancel_rows-middle :
      (reason : String) (now : ℕ) (front : List Appointment)
      → AreKeyed (front ++ row ∷ back)
      → cancel_rows row.business_id row.id reason now (front ++ row ∷ back)
        ≡ front
          ++ record row { status = "cancelled"; cancelled_at = some now; cancel_reason = reason }
            ∷ back
  unfolding cancel_rows
  cancel_rows-middle reason now [] k =
      rw
        (
          eq_refl row.id,
          eq_refl row.business_id,
          cancel_rows-same row.business_id reason now row.id back k.0,
        )
        refl
  cancel_rows-middle reason now (a ∷ front) k =
      let rest = cancel_rows-middle reason now front k.1 in
      let other = All-middle (λ b. b.id ≢ a.id) front k.0 in ground (arith, eq_iff a.id row.id)

  -- The transaction, where the row is found by its own id and business.
  cancel_tx-done :
      (env : CancelEnv) (reason : String) (db : Db)
      → ((op : CancelOp) → env.fails op ≡ false)
      → row.status ≡ "booked"
      → find_appointment row.business_id row.id db.appointments ≡ some row
      → close (cancel_tx env row.business_id row.id reason (begin db)) ≡ (
        cancel_response env row.id env.now,
        record db {
          appointments = cancel_rows row.business_id row.id reason env.now db.appointments;
          outbox = db.outbox ++ cancelled_event env row reason env.now ∷ [];
        },
      )
  unfolding cancel_tx load load_error cancel_loaded check_status already judge_status cancel_booked
      cancel_row write_cancelled commit_cancelled get_appointment cancel_appointment insert_event
      exec commit
  cancel_tx-done env reason db calm booked found =
      rw (calm load_op, found, booked)
        (rw (calm cancel_op, found, calm event_op, calm commit_op) refl)

-- If no two rows have one id and no statement fails, a POST that names a booked row by its id and its
-- business is answered with 200 and the time of the cancellation, and the row is cancelled in its place,
-- at this time and for the request's reason, while all the other rows stay.
pub cancel-IsCancellable :
    (env : CancelEnv) (call : CancelCall) (req : CancelRequest) (row : Appointment)
    (front back : List Appointment) (db : Db)
    → db.appointments ≡ front ++ row ∷ back
    → AreKeyed db.appointments
    → IsCancellable env call req row
    → ((cancel env call db).0 ≡ record {
      status = 200;
      body = cancelled_json row.id "cancelled" (format_utc env env.now);
    })
      × ((cancel env call db).1.appointments
          ≡ front
            ++ record row {
              status = "cancelled";
              cancelled_at = some env.now;
              cancel_reason = trim_space req.reason;
            }
              ∷ back)
unfolding cancel cancel_json cancel_response
cancel-IsCancellable env call req row front back db rows keyed can =
    let keyed = subst AreKeyed rows keyed in
    let found =
      subst (λ xs. find_appointment row.business_id row.id xs ≡ some row) (sym rows)
        (find_appointment-middle row back front keyed) in
    let done = cancel_tx-done row back env (trim_space req.reason) db can.calm can.booked found in
    rw
      (
        can.posted,
        can.json,
        can.business_named,
        can.id_named,
        can.calm begin_op,
        ← can.by_business,
        ← can.by_id,
        done,
      )
      (
        refl,
        ap (cancel_rows row.business_id row.id (trim_space req.reason) env.now) rows
            ∙ cancel_rows-middle row back (trim_space req.reason) env.now front keyed,
      )
