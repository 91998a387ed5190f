-- ===== src/Schedule/Tests.antt =====
-- Runs of `GetAvailabilityConfig`. Availability/Tests goes on from these fixtures.
use appt_remind.Base.{ℕ, refl, some, true, false, List, [], ◌∷◌, arith}
use appt_remind.TimeOff.{TimeOff}
use appt_remind.Schedule.Store.{Repository, default_hours, get_working_hours}
use appt_remind.Schedule.{Calendar, ConfigRequest, is_incomplete}
use appt_remind.Schedule.Windows.{IsWorkday}

-- Every date is a Monday that begins at instant 1000.
abbrev pub utc_only : Calendar
utc_only = record { knows_zone = λ z. true; parse_day = λ z d. some (1000, 1) }

abbrev pub whole_day : TimeOff
whole_day = record { staff_id = "ann"; start_time = 0; end_time = 86400000001000 }

abbrev pub lunch : TimeOff
lunch = record { staff_id = "ann"; start_time = 43200000001000; end_time = 46800000001000 }

-- One member of staff, with default hours and these blocks.
abbrev pub shop : List TimeOff → Repository
shop blocks = record {
  tables = record {
    staff = record { id = "ann"; business_id = "b" } ∷ [];
    working_hours = [];
    time_off = blocks;
    profiles = [];
    services = [];
  };
  refuses = λ q. false;
}

abbrev pub on_monday : ConfigRequest
on_monday = record { business_id = "b"; staff_id = "ann"; service_id = "cut"; date = "2026-01-05" }

abbrev pub opens : ℕ
opens = 32400000001000

abbrev pub closes : ℕ
closes = 61200000001000

pub shop-IsWorkday :
    (blocks : List TimeOff) → IsWorkday utc_only (shop blocks) on_monday opens closes
unfolding is_incomplete get_working_hours
shop-IsWorkday blocks = record {
  complete = refl;
  midnight = 1000;
  weekday = 1;
  hours = default_hours "ann" 1;
  day = refl;
  found = refl;
  working = unfold default_hours in refl;
  starts = unfold default_hours in refl;
  ends = unfold default_hours in refl;
  forward = omega arith;
}
