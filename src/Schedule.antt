-- ===== src/Schedule.antt =====
-- services/business-service/internal/grpcserver/server.go: `GetAvailabilityConfig`.
-- The response's copies of the request's ids are left out.
pub mod Store
pub mod Admin
pub mod Entries
pub mod Roster
pub mod Reads
pub mod Week
pub mod Windows
pub mod Tests
mod RosterTests
use appt_remind.Base.{
  ℕ, zero, suc, ◌+◌, ◌*◌, ◌≡◌, Bool, true, false, not, ◌&&◌, ◌||◌, Option, none, some, List, [],
  ◌∷◌, map, String, ◌==◌, ltb, leb, eqb, if◌then◌else◌, filter, take,
}
use appt_remind.Base.Int.{ℤ, pos, negsuc, is_pos}
use appt_remind.Base.Text.{trim_space, is_empty}
use appt_remind.Slots.{Interval}
use appt_remind.TimeOff.{TimeOff, subtract_blocks}
use Store.{
  Repository, Profile, WorkingHours, get_or_create_profile, get_service_duration, get_working_hours,
  list_time_off,
}

-- time.LoadLocation and time.ParseInLocation: whether a zone is known, and the first instant of a
-- date in a zone with its weekday, Sunday being 0.
pub record Calendar : Type 0 where
  pub knows_zone : String → Bool
  pub parse_day : String → String → Option (ℕ × ℕ)

pub record ConfigRequest : Type 0 where
  pub business_id : String
  pub staff_id : String
  pub service_id : String
  pub date : String

-- An AvailabilityWindow of the protocol: both ends may be missing.
pub record WireWindow : Type 0 where
  pub start_utc : Option ℕ
  pub end_utc : Option ℕ

pub record ConfigResponse : Type 0 where
  pub timezone : String
  pub duration_minutes : ℤ
  pub slot_step_minutes : ℤ
  pub is_working : Bool
  pub work_start_utc : Option ℕ
  pub work_end_utc : Option ℕ
  pub windows_utc : List WireWindow

-- Nanoseconds in a minute.
abbrev pub minute : ℕ
minute = 60000000000

-- The response to a request with a missing field.
pub idle : ConfigResponse
idle = record {
  timezone = "UTC";
  duration_minutes = pos 0;
  slot_step_minutes = pos 0;
  is_working = false;
  work_start_utc = none;
  work_end_utc = none;
  windows_utc = [];
}

pub defaults : ConfigResponse
defaults = record {
  timezone = "UTC";
  duration_minutes = pos 30;
  slot_step_minutes = pos 15;
  is_working = true;
  work_start_utc = none;
  work_end_utc = none;
  windows_utc = [];
}

unfoldable pub to_wire : Interval → WireWindow
to_wire w = record { start_utc = some w.start; end_utc = some w.end }

-- From the time-off query on. If it fails, the raw working hours stand.
unfoldable pub with_blocks : ConfigResponse → ℕ → ℕ → Option (List TimeOff) → ConfigResponse
unfolding to_wire
with_blocks resp start end none = record resp {
  work_start_utc = some start;
  work_end_utc = some end;
}
with_blocks resp start end (some blocks) = record resp {
  work_start_utc = some start;
  work_end_utc = some end;
  windows_utc = map to_wire (subtract_blocks start end blocks);
}

-- From the working hours of the day on.
pub with_hours :
    Repository → ConfigRequest → ConfigResponse → ℕ → Option WorkingHours → ConfigResponse
unfolding with_blocks list_time_off
with_hours r req resp midnight none = record resp { is_working = false }
with_hours r req resp midnight (some wh) =
    let start = midnight + wh.start_minute * minute in
    let end = midnight + wh.end_minute * minute in
    if wh.is_working
    then (if ltb start end
        then with_blocks resp start end (list_time_off r req.business_id req.staff_id start end 500)
        else record resp { is_working = false })
    else record resp { is_working = false }

-- From the date on.
pub with_day : Repository → ConfigRequest → ConfigResponse → Option (ℕ × ℕ) → ConfigResponse
unfolding with_hours get_working_hours
with_day r req resp none = record resp { is_working = false }
with_day r req resp (some (midnight, weekday)) =
    with_hours r req resp midnight (get_working_hours r req.business_id req.staff_id weekday)

-- The profile's time zone, if it has one.
pub zone_of : Option Profile → String → String
zone_of none fallback = fallback
zone_of (some p) fallback =
    if is_empty (trim_space p.timezone) then fallback else trim_space p.timezone

pub duration_of : Option ℤ → ℤ → ℤ
duration_of none fallback = fallback
duration_of (some d) fallback = if is_pos d then d else fallback

-- The zone of the profile, or UTC where it has none or an unknown one.
pub zone_for : Calendar → Repository → ConfigRequest → String
unfolding zone_of get_or_create_profile
zone_for cal r req =
    let wish = zone_of (get_or_create_profile r req.business_id) "UTC" in
    if cal.knows_zone wish then wish else "UTC"

-- `resp` when the date is parsed.
unfoldable pub prepared : Calendar → Repository → ConfigRequest → ConfigResponse
unfolding defaults zone_for duration_of get_service_duration
prepared cal r req = record defaults {
  timezone = zone_for cal r req;
  duration_minutes = duration_of (get_service_duration r req.business_id req.service_id) (pos 30);
}

pub is_incomplete : ConfigRequest → Bool
unfolding is_empty
is_incomplete req =
    is_empty req.business_id
    || is_empty req.staff_id
    || is_empty req.service_id
    || is_empty req.date

-- A server that has no repository is `none`.
pub get_availability_config : Calendar → Option Repository → ConfigRequest → ConfigResponse
unfolding idle defaults with_day prepared is_incomplete
get_availability_config cal repo req = if is_incomplete req then idle else elim repo [
  | none ↦ record defaults { is_working = false }
  | some r ↦ with_day r req (prepared cal r req) (cal.parse_day (zone_for cal r req) req.date)
]
