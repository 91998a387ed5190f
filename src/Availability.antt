-- ===== src/Availability.antt =====
-- services/booking-service: the availability configuration that booking reads.
-- internal/scheduling/provider_grpc.go decodes it, and internal/handlers/booking.go draws windows
-- from it, checks a booking against them and resolves the windows of a day.
-- An instant is the number of nanoseconds since Go's zero time, so `IsZero` is a test for 0.
pub mod Validate
pub mod Blocked
mod Tests
use appt_remind.Base.{
  ℕ, ◌≡◌, refl, ◌⊎◌, inl, inr, ◌+◌, ◌-◌, Bool, true, false, not, ◌&&◌, ◌||◌, Option, none, some,
  List, [], ◌∷◌, String, ◌==◌, ltb, leb, eqb, if◌then◌else◌,
}
use appt_remind.Base.Int.{ℤ, pos, negsuc, is_nonpos}
use appt_remind.Base.Text.{is_empty}
use appt_remind.Slots.{Interval}
use appt_remind.Schedule.{WireWindow, ConfigResponse, minute}

pub record AvailabilityConfig : Type 0 where
  pub is_working : Bool
  pub work_start_utc : ℕ
  pub work_end_utc : ℕ
  pub windows_utc : List Interval
  pub duration_minutes : ℤ
  pub slot_step_minutes : ℤ
  pub timezone : String

-- A timestamp that is missing leaves Go's zero time.
pub or_zero : Option ℕ → ℕ
or_zero none = 0
or_zero (some t) = t

-- `resp.GetWindowsUtc()`: windows with a missing end, or that end no later than they start, are
-- skipped.
pub decode_windows : List WireWindow → List Interval
decode_windows [] = []
decode_windows (w ∷ ws) =
    let rest = decode_windows ws in
    elim w.start_utc [
      | none ↦ rest
      | some s ↦ elim w.end_utc [
        | none ↦ rest
        | some e ↦ if ltb s e then record { start = s; end = e } ∷ rest else rest
      ]
    ]

pub decode_config : ConfigResponse → AvailabilityConfig
unfolding or_zero decode_windows
decode_config resp = record {
  is_working = resp.is_working;
  work_start_utc = or_zero resp.work_start_utc;
  work_end_utc = or_zero resp.work_end_utc;
  windows_utc = decode_windows resp.windows_utc;
  duration_minutes = resp.duration_minutes;
  slot_step_minutes = resp.slot_step_minutes;
  timezone = resp.timezone;
}

-- The windows that end after they start.
pub nonempty_windows : List Interval → List Interval
nonempty_windows [] = []
nonempty_windows (w ∷ ws) =
    let rest = nonempty_windows ws in if ltb w.start w.end then w ∷ rest else rest

-- The single window of the compatibility fields.
pub single_window : AvailabilityConfig → List Interval
single_window cfg =
    if eqb cfg.work_start_utc 0 || eqb cfg.work_end_utc 0
    then []
    else (if ltb cfg.work_start_utc cfg.work_end_utc
        then record { start = cfg.work_start_utc; end = cfg.work_end_utc } ∷ []
        else [])

pub choose_windows : List Interval → AvailabilityConfig → List Interval
unfolding nonempty_windows single_window
choose_windows [] cfg = single_window cfg
choose_windows (w ∷ ws) cfg = nonempty_windows (w ∷ ws)

pub windows_from_config : AvailabilityConfig → List Interval
unfolding choose_windows
windows_from_config cfg = choose_windows cfg.windows_utc cfg

-- The inner loop of validateBookingWithinAvailability.
pub fits_window : ℕ → ℕ → List Interval → Bool
fits_window start end [] = false
fits_window start end (w ∷ ws) =
    let rest = fits_window start end ws in
    if ltb w.start w.end && not (ltb start w.start) && not (ltb w.end end) then true else rest

-- `seen` holds the strings that are out already.
pub contains : String → List String → Bool
contains s [] = false
contains s (t ∷ ts) = s == t || contains s ts

pub unique_from : List String → List String → List String
unfolding contains is_empty
unique_from seen [] = []
unique_from seen (s ∷ ss) =
    let kept = unique_from (s ∷ seen) ss in
    let skipped = unique_from seen ss in if is_empty s || contains s seen then skipped else s ∷ kept

pub unique_strings : List String → List String
unfolding unique_from
unique_strings ss = unique_from [] ss

-- What the check says. The error of the last date that could not be read is not kept.
pub data Verdict : Type 0 where
  inside outside unreadable : Verdict

-- The outer loop: `failed` is `lastErr != nil`. A provider's error is `none`.
pub validate_dates : (String → Option AvailabilityConfig) → ℕ → ℕ → Bool → List String → Verdict
unfolding fits_window windows_from_config
validate_dates provider start end failed [] = if failed then unreadable else outside
validate_dates provider start end failed (d ∷ ds) =
    let later = validate_dates provider start end failed ds in
    let failing = validate_dates provider start end true ds in
    elim (provider d) [
      | none ↦ failing
      | some cfg ↦
          if cfg.is_working && fits_window start end (windows_from_config cfg)
          then inside
          else later
    ]

-- Nanoseconds in a day.
abbrev pub day : ℕ
day = 86400000000000

-- `startUTC` less a day stops at the zero time. `format_date` is Format("2006-01-02") in UTC.
pub candidate_dates : (ℕ → String) → ℕ → List String
unfolding unique_strings
candidate_dates format_date start =
    unique_strings (format_date (start - day) ∷ format_date start ∷ format_date (start + day) ∷ [])

-- Without a scheduling provider every booking passes.
unfoldable pub validate_booking :
    (ℕ → String) → Option (String → Option AvailabilityConfig) → ℕ → ℕ → Verdict
unfolding validate_dates candidate_dates
validate_booking format_date none start end = inside
validate_booking format_date (some provider) start end =
    if ltb start end
    then validate_dates provider start end false (candidate_dates format_date start)
    else outside

pub Verdict-cases : (v : Verdict) → (v ≡ inside) ⊎ (v ≡ outside) ⊎ (v ≡ unreadable)
Verdict-cases inside = inl refl
Verdict-cases outside = inr (inl refl)
Verdict-cases unreadable = inr (inr refl)
