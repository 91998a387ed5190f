-- ===== src/Schedule/Windows.antt =====
-- What the response says of a day, in terms of its working hours and its time-off blocks.
use appt_remind.Base.{ℕ, ◌+◌, ◌*◌, ◌≡◌, ◌<◌, true, false, some, lt→ltb}
use appt_remind.Schedule.Store.{Repository, WorkingHours, get_working_hours, list_time_off}
use appt_remind.Schedule.{
  Calendar, ConfigRequest, minute, prepared, zone_for, is_incomplete, with_blocks, with_hours,
  with_day, get_availability_config,
}

-- A request that reaches the time-off query: its day is worked from `start` to `end`.
pub record IsWorkday (cal : Calendar) (r : Repository) (req : ConfigRequest) (start end : ℕ)
    : Type 0 where
  pub complete : is_incomplete req ≡ false
  pub midnight : ℕ
  pub weekday : ℕ
  pub hours : WorkingHours
  pub day : cal.parse_day (zone_for cal r req) req.date ≡ some (midnight, weekday)
  pub found : get_working_hours r req.business_id req.staff_id weekday ≡ some hours
  pub working : hours.is_working ≡ true
  pub starts : start ≡ midnight + hours.start_minute * minute
  pub ends : end ≡ midnight + hours.end_minute * minute
  pub forward : start < end

-- On a working day the response is decided by the answer to the time-off query.
pub get_availability_config-workday :
    (cal : Calendar) (r : Repository) (req : ConfigRequest) (start end : ℕ)
    → IsWorkday cal r req start end
    → get_availability_config cal (some r) req
      ≡ with_blocks
          (prepared cal r req)
          start
          end
          (list_time_off r req.business_id req.staff_id start end 500)
unfolding get_availability_config with_day with_hours
get_availability_config-workday cal r req start end w = rw (
  w.complete,
  w.day,
  with_day,
  w.found,
  with_hours,
  w.working,
  ← w.starts,
  ← w.ends,
  lt→ltb start end w.forward,
)
