-- ===== src/Availability/Tests.antt =====
-- Runs of the booking side of availability, on the fixtures of Schedule/Tests.
use appt_remind.Base.{
  ℕ, ◌≤◌, ◌<◌, ◌≡◌, refl, ◌↔◌, inl, inr, Option, some, none, true, [], ◌∷◌, String, arith, Any,
}
use appt_remind.Base.Int.{pos}
use appt_remind.TimeOff.Cover.{Covered, IsWorked}
use appt_remind.Schedule.{get_availability_config}
use appt_remind.Schedule.Store.{list_time_off}
use appt_remind.Schedule.Tests.{
  utc_only, whole_day, lunch, shop, on_monday, opens, closes, shop-IsWorkday,
}
use appt_remind.Availability.{
  AvailabilityConfig, decode_config, windows_from_config, validate_booking, candidate_dates, inside,
  outside,
}
use appt_remind.Availability.Validate.{Accepts, validate_booking-inside, validate_booking-outside}
use appt_remind.Availability.Blocked.{windows_from_config-Covered, windows_from_config_blocked}

-- Every day is worked from 100 to 200.
abbrev daily : String → Option AvailabilityConfig
daily date = some (record {
  is_working = true;
  work_start_utc = 100;
  work_end_utc = 200;
  windows_utc = [];
  duration_minutes = pos 30;
  slot_step_minutes = pos 15;
  timezone = "UTC";
})

abbrev one_date : ℕ → String
one_date t = "2026-01-05"

validate_booking-inside_example :
    (validate_booking one_date (some daily) 120 150 ≡ inside)
    ↔ Any (λ d. Accepts 120 150 (daily d)) (candidate_dates one_date 120)
validate_booking-inside_example = validate_booking-inside one_date daily 120 150 (omega arith)

refused_late : validate_booking one_date (some daily) 180 210 ≡ outside
unfolding validate_booking
refused_late = refl

validate_booking-outside_example :
    (¬ Any (λ d. daily d ≡ none) (candidate_dates one_date 180))
    × (¬ Any (λ d. Accepts 180 210 (daily d)) (candidate_dates one_date 180))
validate_booking-outside_example =
    validate_booking-outside one_date daily 180 210 (omega arith) refused_late

found_block : list_time_off (shop (lunch ∷ [])) "b" "ann" opens closes 500 ≡ some (lunch ∷ [])
unfolding list_time_off
found_block = refl

found_closed :
    list_time_off (shop (whole_day ∷ [])) "b" "ann" opens closes 500 ≡ some (whole_day ∷ [])
unfolding list_time_off
found_closed = refl

windows_from_config-Covered_example :
    Covered 50000000000000 (
      windows_from_config
        (decode_config (get_availability_config utc_only (some (shop (lunch ∷ []))) on_monday)))
    ↔ ((opens ≤ 50000000000000) × (50000000000000 < closes) × IsWorked 50000000000000 (lunch ∷ []))
windows_from_config-Covered_example =
    windows_from_config-Covered utc_only (shop (lunch ∷ [])) on_monday opens closes (lunch ∷ [])
      (omega arith) (shop-IsWorkday (lunch ∷ [])) found_block opens 50000000000000 (omega arith)
      (omega arith) (inl (omega arith), tt)

closed_all_day : (x : ℕ) → opens ≤ x → x < closes → ¬ IsWorked x (whole_day ∷ [])
closed_all_day x a b (inl h, _) = omega arith
closed_all_day x a b (inr h, _) = omega arith

windows_from_config_blocked_example :
    let cfg =
      decode_config (get_availability_config utc_only (some (shop (whole_day ∷ []))) on_monday) in
    (cfg.is_working ≡ true)
    × (windows_from_config cfg ≡ record { start = opens; end = closes } ∷ [])
windows_from_config_blocked_example =
    windows_from_config_blocked utc_only (shop (whole_day ∷ [])) on_monday opens closes
      (whole_day ∷ []) (omega arith) (shop-IsWorkday (whole_day ∷ [])) found_closed closed_all_day
