-- ===== src/Booking/Model.antt =====
-- services/booking-service: the rows of its database, its events and its answers.
-- An instant is the number of nanoseconds since Go's zero time. A UUID is its text.
use appt_remind.Base.{ℕ, Option, List, String}
use appt_remind.Base.Int.{ℤ}

-- model.Appointment, a row of `appointments`.
pub record Appointment : Type 0 where
  pub id : String
  pub business_id : String
  pub service_id : String
  pub staff_id : String
  pub customer_name : String
  pub customer_email : String
  pub customer_phone : String
  pub start_time : ℕ
  pub end_time : ℕ
  pub status : String
  pub cancelled_at : Option ℕ
  pub cancel_reason : String
  pub created_at : ℕ

-- What the services put into an event, before it is written as JSON.
pub data Payload : Type 0 where
  booked :
      (appointment_id business_id staff_id service_id customer_email customer_phone start_time
        end_time : String)
      → Payload
  cancelled :
      (appointment_id business_id staff_id service_id start_time end_time cancelled_at
        reason : String)
      → Payload
  reminder :
      (appointment_id business_id channel recipient remind_at customer_name service_id
        start_time : String)
      → Payload

-- outbox.Event.
pub record Event : Type 0 where
  pub aggregate_type : String
  pub aggregate_id : String
  pub event_type : String
  pub payload : Payload

pub record SlotItem : Type 0 where
  pub start_time : String
  pub end_time : String

pub record ListItem : Type 0 where
  pub appointment_id : String
  pub staff_id : String
  pub service_id : String
  pub start_time : String
  pub end_time : String
  pub status : String
  pub cancelled_at : String
  pub created_at : String

-- The body of an answer: the text of http.Error, or a value that is written as JSON.
pub data Body : Type 0 where
  message : String → Body
  error_json : String → Body
  created_json : (appointment_id : String) → Body
  cancelled_json : (appointment_id status cancelled_at : String) → Body
  list_json : List ListItem → Body
  slots_json : List SlotItem → Body
  null_json : Body
  empty : Body

pub record Response : Type 0 where
  pub status : ℕ
  pub body : Body

-- A row of `booking_idempotency_keys`. A row that is locked and not final has no status.
pub record IdempotencyRecord : Type 0 where
  pub business_id : String
  pub idempotency_key : String
  pub appointment_id : String
  pub status_code : ℕ
  pub response_payload : Option Body

pub record Entitlements : Type 0 where
  pub business_id : String
  pub tier : String
  pub max_monthly_appointments : ℤ

pub record Db : Type 0 where
  pub appointments : List Appointment
  pub keys : List IdempotencyRecord
  pub entitlements : List Entitlements
  pub outbox : List Event
