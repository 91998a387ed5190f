-- ===== src/Booking/Cancel.antt =====
-- services/booking-service/internal/handlers/booking.go: `Cancel` and writeCancelResponse.
use appt_remind.Base.{ℕ, Bool, ◌||◌, Option, none, some, String, ◌==◌, if◌then◌else◌}
use appt_remind.Base.Text.{trim_space, is_empty}
use appt_remind.Tx.{
  Result, ok, err, no_rows, reply, next, begin, commit, run, answer, expect, close, ◌>>=◌, ◌>>◌,
}
use appt_remind.Booking.Model.{Appointment, Event, cancelled_json, cancelled, Response, Db}
use appt_remind.Booking.Store.{get_appointment, cancel_appointment, insert_event}
use appt_remind.Booking.Request.{Stamp, http_error}
use appt_remind.Booking.Create.{Flow}

pub data CancelOp : Type 0 where
  begin_op load_op cancel_op event_op commit_op : CancelOp

-- `now` is the transaction's time.
pub record CancelEnv : Type 0 where
  pub fails : CancelOp → Bool
  pub now : ℕ
  pub format_time : Stamp → String

pub record CancelRequest : Type 0 where
  pub business_id : String
  pub appointment_id : String
  pub reason : String

pub record CancelCall : Type 0 where
  pub method : String
  pub json : Option CancelRequest

abbrev pub format_utc : CancelEnv → ℕ → String
format_utc env t = env.format_time (record { instant = t; zone = "UTC" })

unfoldable pub cancel_response : CancelEnv → String → ℕ → Response
cancel_response env id at = record {
  status = 200;
  body = cancelled_json id "cancelled" (format_utc env at);
}

pub cancelled_event : CancelEnv → Appointment → String → ℕ → Event
cancelled_event env appt reason at = record {
  aggregate_type = "appointment";
  aggregate_id = appt.id;
  event_type = "booking.appointment.cancelled.v1";
  payload =
      cancelled appt.id appt.business_id appt.staff_id appt.service_id
        (format_utc env appt.start_time) (format_utc env appt.end_time) (format_utc env at) reason;
}

unfoldable pub load_error : Result Appointment → Flow Appointment
load_error (ok appt) = next appt
load_error (err no_rows) = answer (http_error 404 "appointment not found")
load_error (err e) = answer (http_error 500 "failed to load appointment")

-- When the row was cancelled, if its status says so too.
unfoldable pub already : Appointment → Option ℕ
already appt = if appt.status == "cancelled" then appt.cancelled_at else none

-- A row that is cancelled is answered again, and any other status but booked is refused.
unfoldable pub judge_status : CancelEnv → Appointment → Option ℕ → Flow (Unit {0})
unfolding cancel_response
judge_status env appt (some t) = answer (cancel_response env appt.id t)
judge_status env appt none =
    if appt.status == "booked"
    then next tt
    else answer (http_error 409 "appointment cannot be cancelled")

unfoldable pub check_status : CancelEnv → Appointment → Flow (Unit {0})
unfolding already judge_status
check_status env appt = judge_status env appt (already appt)

unfoldable pub commit_cancelled : CancelEnv → String → ℕ → Flow Response
unfolding cancel_response
commit_cancelled env id at t =
    let (done, u) = commit (env.fails commit_op) t in
    if done
    then reply (cancel_response env id at) u
    else reply (http_error 500 "failed to commit") u

unfoldable pub cancel_row : CancelEnv → String → String → String → Flow ℕ
cancel_row env business_id id reason =
    run (env.fails cancel_op) (cancel_appointment business_id id reason env.now)
    >>= expect (http_error 500 "failed to cancel appointment")

unfoldable pub write_cancelled : CancelEnv → Appointment → String → ℕ → Flow (Unit {0})
unfolding cancelled_event
write_cancelled env appt reason at =
    run (env.fails event_op) (insert_event (cancelled_event env appt reason at))
    >>= expect (http_error 500 "failed to write outbox event")

-- From the cancellation of a booked row on.
unfoldable pub cancel_booked : CancelEnv → String → String → Appointment → Flow Response
unfolding cancel_row write_cancelled commit_cancelled
cancel_booked env business_id reason appt = do
  at ← cancel_row env business_id appt.id reason
  write_cancelled env appt reason at
  commit_cancelled env appt.id at

unfoldable pub cancel_loaded : CancelEnv → String → String → Appointment → Flow Response
unfolding check_status cancel_booked
cancel_loaded env business_id reason appt =
    check_status env appt >> cancel_booked env business_id reason appt

unfoldable pub load : CancelEnv → String → String → Flow Appointment
unfolding load_error
load env business_id id = run (env.fails load_op) (get_appointment business_id id) >>= load_error

-- The transaction.
unfoldable pub cancel_tx : CancelEnv → String → String → String → Flow Response
unfolding load cancel_loaded
cancel_tx env business_id id reason =
    load env business_id id >>= cancel_loaded env business_id reason

unfoldable pub cancel_json : CancelEnv → Option CancelRequest → Db → Response × Db
unfolding cancel_tx trim_space is_empty
cancel_json env none db = (http_error 400 "invalid json body", db)
cancel_json env (some req) db =
    let business_id = trim_space req.business_id in
    let id = trim_space req.appointment_id in
    if is_empty business_id || is_empty id
    then (http_error 400 "business_id and appointment_id required", db)
    else (if env.fails begin_op
        then (http_error 500 "db error", db)
        else close (cancel_tx env business_id id (trim_space req.reason) (begin db)))

unfoldable pub cancel : CancelEnv → CancelCall → Db → Response × Db
unfolding cancel_json
cancel env call db =
    if call.method == "POST"
    then cancel_json env call.json db
    else (http_error 405 "method not allowed", db)
