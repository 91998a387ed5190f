-- ===== src/Schedule/Entries.antt =====
-- services/business-service/internal/handlers/http.go: CreateTimeOff and DeleteTimeOff, with their
-- statements of internal/storage/repository.go. The reason of an entry is left out.
use appt_remind.Base.{
  ℕ, Bool, false, not, ◌&&◌, ◌||◌, Option, none, some, List, [], ◌∷◌, String, ◌==◌, ltb,
  if◌then◌else◌,
}
use appt_remind.Base.Text.{trim_space, is_empty}
use appt_remind.TimeOff.{TimeOff}
use appt_remind.Schedule.Store.{Staff, employs}
use appt_remind.Schedule.Admin.{
  AdminEnv, exists_op, insert_op, delete_op, Entry, Book, Answer, reject,
}

-- The exclusion constraint on staff_time_off: an entry of the same staff member that overlaps.
unfoldable pub overlaps_entry : TimeOff → List Entry → Bool
overlaps_entry t [] = false
overlaps_entry t (e ∷ entries) =
    (t.staff_id == e.block.staff_id
      && ltb t.start_time e.block.end_time
      && ltb e.block.start_time t.end_time)
    || overlaps_entry t entries

-- What CreateTimeOff of the repository gives.
pub data Inserted : Type 0 where
  inserted : Book → Inserted
  conflict failed : Inserted

unfoldable pub insert_entry : AdminEnv → String → TimeOff → Book → Inserted
unfolding overlaps_entry
insert_entry env business_id t b =
    if env.refuses exists_op
      || not (employs b.staff business_id t.staff_id)
      || env.refuses insert_op
    then failed
    else (if overlaps_entry t b.entries
        then conflict
        else inserted (record b { entries = record { id = env.fresh_id; block = t } ∷ b.entries }))

pub record OffRequest : Type 0 where
  pub start_time : String
  pub end_time : String

pub record OffCall : Type 0 where
  pub method : String
  pub business_id : String
  pub staff_id : String
  pub json : Option OffRequest

abbrev pub answer_entry : AdminEnv → Book → Inserted → Answer × Book
answer_entry env b (inserted after) = (record { status = 201; text = env.fresh_id }, after)
answer_entry env b conflict = reject 409 "time off overlaps existing entry" b
answer_entry env b failed = reject 500 "failed to create time off" b

-- From the parsed times on.
unfoldable pub add_times : AdminEnv → String → String → Option ℕ → Option ℕ → Book → Answer × Book
unfolding insert_entry
add_times env business_id staff_id none end b = reject 400 "invalid start_time" b
add_times env business_id staff_id (some start) none b = reject 400 "invalid end_time" b
add_times env business_id staff_id (some start) (some end) b =
    if ltb start end
    then answer_entry env b (
        insert_entry env business_id
          (record { staff_id = staff_id; start_time = start; end_time = end }) b)
    else reject 400 "end_time must be after start_time" b

unfoldable pub add_entry : AdminEnv → String → String → Option OffRequest → Book → Answer × Book
unfolding add_times trim_space
add_entry env business_id staff_id none b = reject 400 "invalid json body" b
add_entry env business_id staff_id (some req) b =
    add_times env business_id staff_id (env.parse_time (trim_space req.start_time))
      (env.parse_time (trim_space req.end_time)) b

-- The handler CreateTimeOff.
unfoldable pub create_time_off : AdminEnv → OffCall → Book → Answer × Book
unfolding add_entry trim_space is_empty
create_time_off env call b =
    if call.method == "POST"
    then (if is_empty (trim_space call.business_id)
        then reject 400 "missing X-Business-Id" b
        else (if is_empty (trim_space call.staff_id)
            then reject 400 "staff_id is required" b
            else add_entry env (trim_space call.business_id) (trim_space call.staff_id) call.json
                b))
    else reject 405 "method not allowed" b

-- The rows that DELETE … USING staff matches, and the others.
pub is_deleted : List Staff → String → String → Entry → Bool
is_deleted staff business_id id e = employs staff business_id e.block.staff_id && e.id == id

pub without : List Staff → String → String → List Entry → List Entry
unfolding is_deleted
without staff business_id id [] = []
without staff business_id id (e ∷ entries) =
    let rest = without staff business_id id entries in
    if is_deleted staff business_id id e then rest else e ∷ rest

pub any_deleted : List Staff → String → String → List Entry → Bool
unfolding is_deleted
any_deleted staff business_id id [] = false
any_deleted staff business_id id (e ∷ entries) =
    is_deleted staff business_id id e || any_deleted staff business_id id entries

-- The handler DeleteTimeOff. No row is an error of the repository like any other.
pub delete_time_off : AdminEnv → String → String → String → Book → Answer × Book
unfolding without any_deleted trim_space is_empty
delete_time_off env method business_header raw_id b =
    let business_id = trim_space business_header in
    let id = trim_space raw_id in
    if method == "DELETE"
    then (if is_empty business_id
        then reject 400 "missing X-Business-Id" b
        else (if is_empty id
            then reject 400 "id is required" b
            else (if env.refuses delete_op || not (any_deleted b.staff business_id id b.entries)
                then reject 500 "failed to delete time off" b
                else (
                  record { status = 204; text = "" },
                  record b { entries = without b.staff business_id id b.entries },
                ))))
    else reject 405 "method not allowed" b
