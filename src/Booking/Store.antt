-- ===== src/Booking/Store.antt =====
-- services/booking-service/internal/storage, internal/outbox/repository.go and the constraints of
-- migrations/: the statements that the handlers run.
use appt_remind.Base.{
  ℕ, Bool, false, ◌&&◌, ◌||◌, Option, none, some, List, [], ◌∷◌, ◌++◌, String, ◌==◌, ltb, leb,
  if◌then◌else◌, count,
}
use appt_remind.Base.Text.{is_empty}
use appt_remind.Tx.{ok, err, no_rows, exclusion_violation, unique_violation, failure, Statement}
use appt_remind.Booking.Model.{Appointment, Event, Body, IdempotencyRecord, Entitlements, Db}

-- The row of `selectIdempotencyForUpdate`.
pub is_key : String → String → IdempotencyRecord → Bool
is_key business_id key r = r.business_id == business_id && r.idempotency_key == key

unfoldable pub find_key : String → String → List IdempotencyRecord → Option IdempotencyRecord
unfolding is_key
find_key business_id key [] = none
find_key business_id key (r ∷ rs) =
    if is_key business_id key r then some r else find_key business_id key rs

unfoldable pub select_key : String → String → Statement Db IdempotencyRecord
unfolding find_key
select_key business_id key db = elim (find_key business_id key db.keys) [
  | none ↦ err no_rows
  | some r ↦ ok (r, db)
]

-- A new row has no appointment, status or payload: COALESCE reads these as empty.
pub new_key : String → String → IdempotencyRecord
new_key business_id key = record {
  business_id = business_id;
  idempotency_key = key;
  appointment_id = "";
  status_code = 0;
  response_payload = none;
}

-- INSERT … ON CONFLICT DO NOTHING.
unfoldable pub insert_key : String → String → Statement Db (Unit {0})
unfolding find_key new_key
insert_key business_id key db = elim (find_key business_id key db.keys) [
  | none ↦ ok (tt, record db { keys = new_key business_id key ∷ db.keys })
  | some r ↦ ok (tt, db)
]

unfoldable pub finalize_keys :
    String → String → String → ℕ → Body → List IdempotencyRecord → List IdempotencyRecord
unfolding is_key
finalize_keys business_id key id status body [] = []
finalize_keys business_id key id status body (r ∷ rs) =
    (if is_key business_id key r
      then record r { appointment_id = id; status_code = status; response_payload = some body }
      else r)
    ∷ finalize_keys business_id key id status body rs

-- FinalizeIdempotency. The column is a UUID, which the empty text is not.
unfoldable pub finalize_key : String → String → String → ℕ → Body → Statement Db (Unit {0})
unfolding finalize_keys is_empty
finalize_key business_id key id status body db =
    if is_empty id
    then err failure
    else ok (tt, record db { keys = finalize_keys business_id key id status body db.keys })

-- The exclusion constraint: a booked row of the same staff member with an overlapping range.
pub clashes : Appointment → Appointment → Bool
clashes a b =
    b.status == "booked"
    && a.staff_id == b.staff_id
    && ltb a.start_time b.end_time
    && ltb b.start_time a.end_time

unfoldable pub clashes_any : Appointment → List Appointment → Bool
unfolding clashes
clashes_any a [] = false
clashes_any a (b ∷ bs) = clashes a b || clashes_any a bs

unfoldable pub has_id : String → List Appointment → Bool
has_id id [] = false
has_id id (a ∷ rest) = a.id == id || has_id id rest

-- `Create`: the row is given its id and creation time by the database.
unfoldable pub insert_appointment : Appointment → String → ℕ → Statement Db String
unfolding clashes_any has_id
insert_appointment appt id now db =
    let row = record appt { id = id; cancelled_at = none; cancel_reason = ""; created_at = now } in
    if appt.status == "booked" && clashes_any row db.appointments
    then err exclusion_violation
    else (if has_id id db.appointments
        then err unique_violation
        else ok (id, record db { appointments = row ∷ db.appointments }))

-- GetAppointmentForUpdate.
unfoldable pub find_appointment : String → String → List Appointment → Option Appointment
find_appointment business_id id [] = none
find_appointment business_id id (a ∷ rest) =
    if a.id == id && a.business_id == business_id
    then some a
    else find_appointment business_id id rest

unfoldable pub get_appointment : String → String → Statement Db Appointment
unfolding find_appointment
get_appointment business_id id db = elim (find_appointment business_id id db.appointments) [
  | none ↦ err no_rows
  | some a ↦ ok (a, db)
]

-- CancelAppointment, whose `now()` is the transaction's.
unfoldable pub cancel_rows : String → String → String → ℕ → List Appointment → List Appointment
cancel_rows business_id id reason now [] = []
cancel_rows business_id id reason now (a ∷ rest) =
    (if a.id == id && a.business_id == business_id
      then record a { status = "cancelled"; cancelled_at = some now; cancel_reason = reason }
      else a)
    ∷ cancel_rows business_id id reason now rest

unfoldable pub cancel_appointment : String → String → String → ℕ → Statement Db ℕ
unfolding cancel_rows find_appointment
cancel_appointment business_id id reason now db =
    elim (find_appointment business_id id db.appointments) [
      | none ↦ err no_rows
      | some a ↦
          ok (
            now,
            record db { appointments = cancel_rows business_id id reason now db.appointments },
          )
    ]

unfoldable pub find_entitlements : String → List Entitlements → Option Entitlements
find_entitlements business_id [] = none
find_entitlements business_id (e ∷ es) =
    if e.business_id == business_id then some e else find_entitlements business_id es

-- GetBusinessEntitlements: no row is no error.
unfoldable pub get_entitlements : String → Statement Db (Option Entitlements)
unfolding find_entitlements
get_entitlements business_id db = ok (find_entitlements business_id db.entitlements, db)

-- The WHERE clause of CountBookedByBusinessInRange.
unfoldable pub is_counted : String → ℕ → ℕ → Appointment → Bool
is_counted business_id start end a =
    a.business_id == business_id
    && a.status == "booked"
    && leb start a.start_time
    && ltb a.start_time end

unfoldable pub count_booked : String → ℕ → ℕ → Statement Db ℕ
unfolding is_counted
count_booked business_id start end db =
    ok (count (is_counted business_id start end) db.appointments, db)

-- outbox.Repository.Insert: the rows are numbered in the order of their insertion.
unfoldable pub insert_event : Event → Statement Db (Unit {0})
insert_event event db = ok (tt, record db { outbox = db.outbox ++ event ∷ [] })
