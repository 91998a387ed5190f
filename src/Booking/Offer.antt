-- ===== src/Booking/Offer.antt =====
-- services/booking-service/internal/handlers/booking.go: `Slots`, resolveAvailabilityWindows and
-- minMaxWindows, and ListBookedIntervals of internal/storage/booking_repository.go.
-- A query parameter that is missing is the empty text. The clock is read once.
use appt_remind.Base.{
  ℕ, ◌+◌, ◌*◌, Bool, not, ◌&&◌, ◌||◌, Option, none, some, List, [], ◌∷◌, ◌++◌, map, String, ◌==◌,
  ltb, leb, eqb, if◌then◌else◌, filter,
}
use appt_remind.Base.Int.{ℤ, pos, pos_part, is_pos, is_nonpos, wrap64, scale}
use appt_remind.Base.Text.{trim_space, is_empty}
use appt_remind.Slots.{Interval, available_slots}
use appt_remind.Schedule.{minute}
use appt_remind.Availability.{AvailabilityConfig, nonempty_windows, single_window}
use appt_remind.Booking.Model.{Appointment, SlotItem, Response, slots_json, null_json}
use appt_remind.Booking.Request.{http_error}

-- `parse_day` is the first instant of a date in UTC, `parse_clock` the minutes of "15:04",
-- `atoi` strconv.Atoi. `refuses`: the query fails.
pub record OfferEnv : Type 0 where
  pub now : ℕ
  pub refuses : Bool
  pub scheduling : Option (String → String → String → String → Option AvailabilityConfig)
  pub parse_day : String → Option ℕ
  pub parse_clock : String → Option ℕ
  pub atoi : String → Option ℤ
  pub format_utc : ℕ → String

pub record OfferQuery : Type 0 where
  pub method : String
  pub business_id : String
  pub staff_id : String
  pub service_id : String
  pub date : String
  pub duration_minutes : String
  pub slot_step_minutes : String
  pub workday_start : String
  pub workday_end : String

-- What resolveAvailabilityWindows returns beside `true`: the windows, and minutes.
pub record Plan : Type 0 where
  pub windows : List Interval
  pub duration : ℤ
  pub step : ℤ

pub plan_of : List Interval → ℤ → ℤ → Option Plan
plan_of [] duration step = none
plan_of (w ∷ ws) duration step =
    some (record { windows = w ∷ ws; duration = duration; step = step })

abbrev pub or_default : ℤ → ℤ → ℤ
or_default z fallback = if is_nonpos z then fallback else z

-- The explicit windows, or without any the single one.
pub config_windows : List Interval → AvailabilityConfig → List Interval
config_windows [] cfg = single_window cfg
config_windows (w ∷ ws) cfg = nonempty_windows (w ∷ ws)

pub plan_config : AvailabilityConfig → Option Plan
unfolding plan_of config_windows
plan_config cfg =
    if cfg.is_working
    then plan_of (config_windows cfg.windows_utc cfg) (or_default cfg.duration_minutes (pos 30))
        (or_default cfg.slot_step_minutes (pos 15))
    else none

-- A count of minutes from 1 to `most`; none is given by the empty text.
pub minutes_param : OfferEnv → String → ℕ → ℕ → Option ℤ
unfolding trim_space is_empty
minutes_param env raw fallback most =
    let v = trim_space raw in
    let checked = λ (n : ℤ). if is_pos n && leb (pos_part n) most then some n else none in
    if is_empty v
    then some (pos fallback)
    else elim (env.atoi v) [ none ↦ none | some n ↦ checked n ]

pub text_or : String → String → String
unfolding trim_space is_empty
text_or raw fallback = if is_empty (trim_space raw) then fallback else trim_space raw

pub plan_day : ℕ → ℕ → ℕ → ℤ → ℤ → Option Plan
plan_day midnight opens closes duration step =
    let start = midnight + opens * minute in
    let end = midnight + closes * minute in
    if ltb start end
    then some (record {
      windows = record { start = start; end = end } ∷ [];
      duration = duration;
      step = step;
    })
    else none

infixl 5 ◌>>=◌
-- Go on unless there is nothing.
abbrev ◌>>=◌ : {A B : Type 0} → Option A → (A → Option B) → Option B
none >>= k = none
some a >>= k = k a

-- The fallback to the query's own working day.
pub plan_query : OfferEnv → OfferQuery → String → Option Plan
unfolding minutes_param text_or plan_day
plan_query env q date = do
  duration ← minutes_param env q.duration_minutes 30 480
  step ← minutes_param env q.slot_step_minutes 15 120
  midnight ← env.parse_day date
  opens ← env.parse_clock (text_or q.workday_start "09:00")
  closes ← env.parse_clock (text_or q.workday_end "17:00")
  plan_day midnight opens closes duration step

-- resolveAvailabilityWindows. A provider's error is logged, and the query decides.
pub resolve_plan : OfferEnv → OfferQuery → String → String → String → String → Option Plan
unfolding plan_config plan_query
resolve_plan env q business_id staff_id service_id date =
    let from_query = plan_query env q date in
    elim env.scheduling [
      | none ↦ from_query
      | some provider ↦ elim (provider business_id staff_id service_id date) [
        | some cfg ↦ plan_config cfg
        | none ↦ from_query
      ]
    ]

-- `min` and `max` after a window that counts. 0 is the zero time.
unfoldable pub earliest : ℕ → ℕ → ℕ
earliest low start = if eqb low 0 || ltb start low then start else low

unfoldable pub latest : ℕ → ℕ → ℕ
latest high end = if eqb high 0 || ltb high end then end else high

-- minMaxWindows from what the windows before have given.
unfoldable pub min_max : ℕ → ℕ → List Interval → Interval
unfolding earliest latest
min_max low high [] = record { start = low; end = high }
min_max low high (w ∷ ws) =
    let skipped = min_max low high ws in
    let taken = min_max (earliest low w.start) (latest high w.end) ws in
    if eqb w.start 0 || eqb w.end 0 || not (ltb w.start w.end) then skipped else taken

-- The WHERE clause of ListBookedIntervals.
unfoldable pub is_booked_in : String → String → ℕ → ℕ → Appointment → Bool
is_booked_in business_id staff_id start end a =
    a.business_id == business_id
    && a.staff_id == staff_id
    && a.status == "booked"
    && ltb a.start_time end
    && ltb start a.end_time

-- ORDER BY start_time.
unfoldable pub insert_row : Appointment → List Appointment → List Appointment
insert_row a [] = a ∷ []
insert_row a (b ∷ rows) =
    let rest = insert_row a rows in if leb a.start_time b.start_time then a ∷ b ∷ rows else b ∷ rest

unfoldable pub order_rows : List Appointment → List Appointment
unfolding insert_row
order_rows [] = []
order_rows (a ∷ rows) = insert_row a (order_rows rows)

unfoldable pub list_booked : String → String → ℕ → ℕ → List Appointment → List Appointment
unfolding is_booked_in order_rows
list_booked business_id staff_id start end rows =
    order_rows (filter (is_booked_in business_id staff_id start end) rows)

abbrev pub span : Appointment → Interval
span a = record { start = a.start_time; end = a.end_time }

-- time.Duration(minutes) * time.Minute.
abbrev pub duration_of_minutes : ℤ → ℤ
duration_of_minutes z = wrap64 (scale minute z)

-- The start times that the loop over the windows collects.
unfoldable pub starts : List Interval → ℤ → ℤ → List Interval → ℕ → List ℕ
starts [] duration step busy now = []
starts (w ∷ ws) duration step busy now =
    available_slots w.start w.end duration step busy now ++ starts ws duration step busy now

-- The start times of a plan among the rows, between the first and the last instant of its windows.
unfoldable pub plan_starts : String → String → Plan → List Appointment → ℕ → List ℕ
unfolding starts min_max list_booked
plan_starts business_id staff_id plan rows now =
    let hull = min_max 0 0 plan.windows in
    starts plan.windows (duration_of_minutes plan.duration) (duration_of_minutes plan.step)
      (map span (list_booked business_id staff_id hull.start hull.end rows)) now

abbrev pub ok_response : Response
ok_response = record { status = 200; body = slots_json [] }

-- A slice that nothing was appended to is nil, which json.Marshal writes as null.
pub slots_response : List SlotItem → Response
slots_response [] = record { status = 200; body = null_json }
slots_response (s ∷ ss) = record { status = 200; body = slots_json (s ∷ ss) }

pub to_item : OfferEnv → ℤ → ℕ → SlotItem
to_item env duration t = record {
  start_time = env.format_utc t;
  end_time = env.format_utc (t + pos_part duration);
}

pub offer_plan : OfferEnv → String → String → List Appointment → Option Plan → Response
unfolding plan_starts slots_response to_item min_max
offer_plan env business_id staff_id rows none = ok_response
offer_plan env business_id staff_id rows (some plan) =
    let hull = min_max 0 0 plan.windows in
    if eqb hull.start 0 || eqb hull.end 0 || not (ltb hull.start hull.end)
    then ok_response
    else (if env.refuses
        then http_error 500 "failed to load booked slots"
        else slots_response (
            map (to_item env (duration_of_minutes plan.duration))
              (plan_starts business_id staff_id plan rows env.now)))

-- The handler.
pub offer : OfferEnv → OfferQuery → List Appointment → Response
unfolding trim_space is_empty offer_plan resolve_plan
offer env q rows =
    let business_id = trim_space q.business_id in
    let staff_id = trim_space q.staff_id in
    let service_id = trim_space q.service_id in
    let date = trim_space q.date in
    if q.method == "GET"
    then (if is_empty business_id || is_empty staff_id || is_empty date || is_empty service_id
        then http_error 400 "business_id, staff_id, service_id, and date are required"
        else offer_plan env business_id staff_id rows
            (resolve_plan env q business_id staff_id service_id date))
    else http_error 405 "method not allowed"
