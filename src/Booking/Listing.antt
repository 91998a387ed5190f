-- ===== src/Booking/Listing.antt =====
-- services/booking-service/internal/handlers/booking.go: `List`, and ListByBusiness of
-- internal/storage/booking_repository.go.
use appt_remind.Base.{
  ℕ, Bool, ◌&&◌, Option, none, some, List, [], ◌∷◌, map, String, ◌==◌, leb, if◌then◌else◌, filter,
  take,
}
use appt_remind.Base.Int.{ℤ, pos, pos_part, is_pos, is_nonpos}
use appt_remind.Base.Text.{trim_space, is_empty}
use appt_remind.Booking.Model.{Appointment, ListItem, Response, list_json}
use appt_remind.Booking.Request.{http_error}

pub record ListEnv : Type 0 where
  pub refuses : Bool
  pub atoi : String → Option ℤ
  pub format_utc : ℕ → String

-- The header comes before the query's parameter.
pub record ListQuery : Type 0 where
  pub method : String
  pub business_header : String
  pub business_id : String
  pub limit : String

-- ORDER BY start_time DESC.
pub insert_late : Appointment → List Appointment → List Appointment
insert_late a [] = a ∷ []
insert_late a (b ∷ rows) =
    let rest = insert_late a rows in
    if leb b.start_time a.start_time then a ∷ b ∷ rows else b ∷ rest

pub latest_first : List Appointment → List Appointment
unfolding insert_late
latest_first [] = []
latest_first (a ∷ rows) = insert_late a (latest_first rows)

pub list_by_business : String → ℤ → List Appointment → List Appointment
unfolding latest_first
list_by_business business_id limit rows =
    take (if is_nonpos limit then 50 else pos_part limit)
      (latest_first (filter (λ a. a.business_id == business_id) rows))

pub limit_of : ListEnv → String → ℤ
unfolding trim_space is_empty
limit_of env raw =
    let checked = λ (n : ℤ). if is_pos n && leb (pos_part n) 200 then n else pos 50 in
    if is_empty (trim_space raw)
    then pos 50
    else elim (env.atoi (trim_space raw)) [ none ↦ pos 50 | some n ↦ checked n ]

pub to_list_item : ListEnv → Appointment → ListItem
to_list_item env a = record {
  appointment_id = a.id;
  staff_id = a.staff_id;
  service_id = a.service_id;
  start_time = env.format_utc a.start_time;
  end_time = env.format_utc a.end_time;
  status = a.status;
  cancelled_at = elim a.cancelled_at [ none ↦ "" | some t ↦ env.format_utc t ];
  created_at = env.format_utc a.created_at;
}

pub listed_business : ListQuery → String
unfolding trim_space is_empty
listed_business q =
    if is_empty (trim_space q.business_header)
    then trim_space q.business_id
    else trim_space q.business_header

pub list_appointments : ListEnv → ListQuery → List Appointment → Response
unfolding list_by_business limit_of to_list_item listed_business is_empty
list_appointments env q rows =
    if q.method == "GET"
    then (if is_empty (listed_business q)
        then http_error 400 "business_id required"
        else (if env.refuses then http_error 500 "failed to list appointments" else record {
          status = 200;
          body = list_json (
              map (to_list_item env)
                (list_by_business (listed_business q) (limit_of env q.limit) rows));
        }))
    else http_error 405 "method not allowed"
