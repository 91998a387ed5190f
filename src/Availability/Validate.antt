-- ===== src/Availability/Validate.antt =====
-- validateBookingWithinAvailability against its description.
use appt_remind.Base.{
  ℕ, ◌≤◌, ◌<◌, ◌≡◌, refl, sym, ◌∙◌, ◌≢◌, ◌↔◌, inl, inr, Bool, true, false, Option, none, some, List,
  [], ◌∷◌, String, arith, Any, Option-cases,
}
use appt_remind.Slots.{Interval}
use appt_remind.Availability.{
  AvailabilityConfig, Verdict, inside, outside, fits_window, windows_from_config, validate_dates,
  validate_booking, candidate_dates,
}

outside≢inside : Verdict.outside ≢ inside
outside≢inside e = cc

-- One of the windows holds all of [start, end).
abbrev pub Held : ℕ → ℕ → List Interval → Type 0
Held start end = Any (λ w. (w.start ≤ start) × (end ≤ w.end))

fits_window-Held :
    (start end : ℕ) (ws : List Interval)
    → start < end
    → (fits_window start end ws ≡ true) ↔ Held start end ws
unfolding fits_window
fits_window-Held start end [] h = ((λ e. cc), λ e. absurd e)
fits_window-Held start end (w ∷ ws) h = ground (arith, fits_window-Held start end ws h)

-- What a provider's answer says of a booking: the day is worked, and a window holds it.
abbrev pub Accepts : ℕ → ℕ → Option AvailabilityConfig → Type 0
Accepts start end none = ⊥
Accepts start end (some cfg) = (cfg.is_working ≡ true) × Held start end (windows_from_config cfg)

module _ (provider : String → Option AvailabilityConfig) (start end : ℕ)
    (forward : start < end) where
  abbrev Admitted : List String → Type 0
  Admitted = Any (λ d. Accepts start end (provider d))

  abbrev Unread : List String → Type 0
  Unread = Any (λ d. provider d ≡ none)

  validate_dates-inside :
      (failed : Bool) (ds : List String)
      → (validate_dates provider start end failed ds ≡ inside) ↔ Admitted ds
  unfolding validate_dates
  validate_dates-inside true [] = ((λ e. cc), λ e. absurd e)
  validate_dates-inside false [] = ((λ e. cc), λ e. absurd e)
  validate_dates-inside failed (d ∷ ds) = elim (Option-cases (provider d)) [
    | inl e ↦ rw (e, validate_dates) (ground (arith, validate_dates-inside true ds))
    | inr (cfg, e) ↦
        rw (e, validate_dates)
          (ground (
            arith,
            validate_dates-inside failed ds,
            fits_window-Held start end (windows_from_config cfg) forward,
          ))
  ]

  -- A date that can be read and does not accept leaves the verdict to the later dates.
  outside_later :
      (d : String) (ds : List String) (failed : Bool) (cfg : AvailabilityConfig)
      → provider d ≡ some cfg
      → validate_dates provider start end failed (d ∷ ds) ≡ outside
      → validate_dates provider start end failed ds ≡ outside
  unfolding validate_dates
  outside_later d ds failed cfg e h = let k = rw (e, validate_dates) at h in ground arith

  validate_dates-outside :
      (failed : Bool) (ds : List String)
      → validate_dates provider start end failed ds ≡ outside
      → (failed ≡ false) × ¬ Unread ds
  unfolding validate_dates
  validate_dates-outside true [] h = cc
  validate_dates-outside false [] h = (refl, λ u. u)
  validate_dates-outside failed (d ∷ ds) h = elim (Option-cases (provider d)) [
    | inl e ↦ ground (arith, validate_dates-outside true ds (rw (e, validate_dates) at h))
    | inr (cfg, e) ↦
        let (readable, rest) =
          validate_dates-outside failed ds (outside_later d ds failed cfg e h) in
        (readable, λ u. elim u [ inl x ↦ ground arith | inr y ↦ rest y ])
  ]

-- A booking that ends after it starts passes exactly when one of the candidate dates is a working
-- day with a window that holds all of it.
pub validate_booking-inside :
    (format_date : ℕ → String) (provider : String → Option AvailabilityConfig) (start end : ℕ)
    → start < end
    → (validate_booking format_date (some provider) start end ≡ inside)
      ↔ Any (λ d. Accepts start end (provider d)) (candidate_dates format_date start)
unfolding validate_booking
validate_booking-inside format_date provider start end h =
    ground
      (arith, validate_dates-inside provider start end h false (candidate_dates format_date start))

-- A booking is refused as outside only if every candidate date could be read, and none accepts it.
pub validate_booking-outside :
    (format_date : ℕ → String) (provider : String → Option AvailabilityConfig) (start end : ℕ)
    → start < end
    → validate_booking format_date (some provider) start end ≡ outside
    → (¬ Any (λ d. provider d ≡ none) (candidate_dates format_date start))
      × (¬ Any (λ d. Accepts start end (provider d)) (candidate_dates format_date start))
unfolding validate_booking
validate_booking-outside format_date provider start end h v = (
  (validate_dates-outside provider start end h false (candidate_dates format_date start)
      (ground arith)).1,
  λ a.
      outside≢inside
        (sym v ∙ ground (arith, (validate_booking-inside format_date provider start end h).1 a)),
)
