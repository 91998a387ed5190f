-- ===== src/Schedule/Admin.antt =====
-- services/business-service/internal/handlers/http.go: the handlers that change a staff member's
-- schedule, with their statements of internal/storage/repository.go.
-- A statement that the database refuses is told by `refuses`.
use appt_remind.Base.{
  ℕ, Bool, true, false, not, ◌&&◌, ◌||◌, Option, none, some, List, [], ◌∷◌, String, ◌==◌, ltb, eqb,
  if◌then◌else◌,
}
use appt_remind.Base.Int.{ℤ, pos, negsuc, pos_part, is_nonpos}
use appt_remind.Base.Text.{trim_space, is_empty}
use appt_remind.TimeOff.{TimeOff}
use appt_remind.Schedule.Store.{Staff, WorkingHours, employs}

pub data AdminOp : Type 0 where
  exists_op upsert_op insert_op delete_op : AdminOp

-- `parse_time` is time.Parse with RFC3339, in UTC.
pub record AdminEnv : Type 0 where
  pub refuses : AdminOp → Bool
  pub fresh_id : String
  pub parse_time : String → Option ℕ

-- A row of staff_time_off, whose id the subtraction does not read.
pub record Entry : Type 0 where
  pub id : String
  pub block : TimeOff

pub record Book : Type 0 where
  pub staff : List Staff
  pub working_hours : List WorkingHours
  pub entries : List Entry

-- The status, and the text of http.Error or the new id.
pub record Answer : Type 0 where
  pub status : ℕ
  pub text : String

abbrev pub reject : ℕ → String → Book → Answer × Book
reject status text b = (record { status = status; text = text }, b)

-- `h.staff_id = $1 AND h.weekday = $2`, the key of staff_working_hours.
unfoldable pub same_day : WorkingHours → WorkingHours → Bool
same_day a b = a.staff_id == b.staff_id && eqb a.weekday b.weekday

-- INSERT … ON CONFLICT (staff_id, weekday) DO UPDATE.
unfoldable pub put_hours : WorkingHours → List WorkingHours → List WorkingHours
unfolding same_day
put_hours h [] = h ∷ []
put_hours h (k ∷ rows) = let rest = put_hours h rows in if same_day h k then h ∷ rows else k ∷ rest

-- UpsertWorkingHours of the repository: an error is `none`, no such member of staff included.
unfoldable pub upsert_hours : AdminEnv → String → WorkingHours → Book → Option Book
unfolding put_hours
upsert_hours env business_id h b =
    if env.refuses exists_op
      || not (employs b.staff business_id h.staff_id)
      || env.refuses upsert_op
    then none
    else some (record b { working_hours = put_hours h b.working_hours })

pub record HoursRequest : Type 0 where
  pub weekday : ℤ
  pub is_working : Bool
  pub start_minute : ℤ
  pub end_minute : ℤ

-- A call: the method, the header with the business, the query's parameter and the body.
pub record HoursCall : Type 0 where
  pub method : String
  pub business_id : String
  pub staff_id : String
  pub json : Option HoursRequest

-- `z < 0`.
abbrev pub is_negative : ℤ → Bool
is_negative (pos n) = false
is_negative (negsuc n) = true

abbrev pub below : ℤ → ℕ → Bool
below (pos n) k = ltb n k
below (negsuc n) k = true

unfoldable pub bad_minutes : ℤ → ℤ → Bool
bad_minutes start end =
    is_negative start
    || not (below start 1440)
    || is_nonpos end
    || not (below end 1441)
    || not (ltb (pos_part start) (pos_part end))

abbrev pub answer_hours : Book → Option Book → Answer × Book
answer_hours b none = reject 500 "failed to upsert working hours" b
answer_hours b (some after) = (record { status = 204; text = "" }, after)

unfoldable pub hours_row : String → HoursRequest → WorkingHours
hours_row staff_id req = record {
  staff_id = staff_id;
  weekday = pos_part req.weekday;
  is_working = req.is_working;
  start_minute = if req.is_working then pos_part req.start_minute else 0;
  end_minute = if req.is_working then pos_part req.end_minute else 0;
}

unfoldable pub set_hours : AdminEnv → String → String → Option HoursRequest → Book → Answer × Book
unfolding bad_minutes upsert_hours hours_row
set_hours env business_id staff_id none b = reject 400 "invalid json body" b
set_hours env business_id staff_id (some req) b =
    if is_negative req.weekday || not (below req.weekday 7)
    then reject 400 "weekday must be between 0 and 6" b
    else (if req.is_working && bad_minutes req.start_minute req.end_minute
        then reject 400 "invalid start_minute/end_minute" b
        else answer_hours b (upsert_hours env business_id (hours_row staff_id req) b))

-- The handler UpsertWorkingHours.
unfoldable pub upsert_working_hours : AdminEnv → HoursCall → Book → Answer × Book
unfolding set_hours trim_space is_empty
upsert_working_hours env call b =
    if call.method == "PUT"
    then (if is_empty (trim_space call.business_id)
        then reject 400 "missing X-Business-Id" b
        else (if is_empty (trim_space call.staff_id)
            then reject 400 "staff_id is required" b
            else set_hours env (trim_space call.business_id) (trim_space call.staff_id) call.json
                b))
    else reject 405 "method not allowed" b
