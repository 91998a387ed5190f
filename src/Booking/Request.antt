-- ===== src/Booking/Request.antt =====
-- services/booking-service/internal/handlers/booking.go: what `Create` reads, and its checks of the
-- request before the transaction.
use appt_remind.Base.{ℕ, Bool, ◌||◌, Option, none, some, List, String, ◌==◌, ltb, if◌then◌else◌}
use appt_remind.Base.Text.{trim_space, is_empty}
use appt_remind.Availability.{AvailabilityConfig}
use appt_remind.Booking.Model.{Appointment, message, Response}

-- The places at which the database can refuse `Create`. A reminder is told by its time and channel.
pub data Op : Type 0 where
  begin_op select_op insert_key_op reselect_op entitlements_op count_op insert_op event_op
        finalize_op commit_op :
      Op
  reminder_op : ℕ → String → Op

-- A parsed RFC 3339 time: its instant, and the zone in which it is printed again.
pub record Stamp : Type 0 where
  pub instant : ℕ
  pub zone : String

-- What the handler reads beside its request and its database. `month_start` and `month_end` are
-- time.Date and AddDate(0, 1, 0) in UTC; the provider takes business, staff, service and date.
pub record Env : Type 0 where
  pub fails : Op → Bool
  pub now : ℕ
  pub fresh_id : String
  pub parse_time : String → Option Stamp
  pub format_time : Stamp → String
  pub format_date : ℕ → String
  pub month_start : ℕ → ℕ
  pub month_end : ℕ → ℕ
  pub scheduling : Option (String → String → String → String → Option AvailabilityConfig)
  pub policy : Option (String → Option (List ℕ))
  pub default_offsets : List ℕ

pub record CreateRequest : Type 0 where
  pub business_id : String
  pub service_id : String
  pub staff_id : String
  pub customer_name : String
  pub customer_email : String
  pub customer_phone : String
  pub start_time : String
  pub end_time : String

-- A request: its method, its body if that is JSON of the right shape, and the key header.
pub record Request : Type 0 where
  pub method : String
  pub json : Option CreateRequest
  pub idempotency_key : String

-- http.Error.
abbrev pub http_error : ℕ → String → Response
http_error status text = record { status = status; body = message text }

-- A valid request: the appointment, and the start and end as they were written.
pub record Wish : Type 0 where
  pub appt : Appointment
  pub start : Stamp
  pub end : Stamp

pub data Parsed : Type 0 where
  valid : Wish → Parsed
  invalid : Response → Parsed

-- Formatted in UTC.
abbrev pub format_utc : Env → ℕ → String
format_utc env t = env.format_time (record { instant = t; zone = "UTC" })

pub wish_of : CreateRequest → Stamp → Stamp → Wish
unfolding trim_space
wish_of req start end = record {
  appt = record {
    id = "";
    business_id = trim_space req.business_id;
    service_id = trim_space req.service_id;
    staff_id = trim_space req.staff_id;
    customer_name = trim_space req.customer_name;
    customer_email = trim_space req.customer_email;
    customer_phone = trim_space req.customer_phone;
    start_time = start.instant;
    end_time = end.instant;
    status = "booked";
    cancelled_at = none;
    cancel_reason = "";
    created_at = 0;
  };
  start = start;
  end = end;
}

pub parse_times : Env → CreateRequest → Parsed
unfolding wish_of
parse_times env req = elim (env.parse_time req.start_time) [
  | none ↦ invalid (http_error 400 "invalid start_time")
  | some start ↦ elim (env.parse_time req.end_time) [
    | none ↦ invalid (http_error 400 "invalid end_time")
    | some end ↦
        if ltb start.instant end.instant
        then valid (wish_of req start end)
        else invalid (http_error 400 "end_time must be after start_time")
  ]
]

pub parse_json : Env → Option CreateRequest → Parsed
unfolding parse_times trim_space is_empty
parse_json env none = invalid (http_error 400 "invalid json body")
parse_json env (some req) =
    if is_empty (trim_space req.business_id)
      || is_empty (trim_space req.service_id)
      || is_empty (trim_space req.staff_id)
      || is_empty (trim_space req.customer_name)
    then invalid (http_error 400 "missing required fields")
    else parse_times env req

-- The handler up to the transaction.
unfoldable pub parse_create : Env → Request → Parsed
unfolding parse_json
parse_create env req =
    if req.method == "POST"
    then parse_json env req.json
    else invalid (http_error 405 "method not allowed")
