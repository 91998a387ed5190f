-- ===== src/Booking/OfferTests.antt =====
-- Runs of the slot listing.
use appt_remind.Base.{◌*◌, ◌↔◌, none, List, [], ◌∷◌, arith, Any}
use appt_remind.Base.Int.{pos}
use appt_remind.Slots.{Interval}
use appt_remind.Slots.Exact.{Offered}
use appt_remind.Schedule.{minute}
use appt_remind.Booking.Model.{Appointment}
use appt_remind.Booking.Offer.{plan_starts}
use appt_remind.Booking.Offered.{IsOpen, plan_starts-exact}

abbrev booked_row : Appointment
booked_row = record {
  id = "a1";
  business_id = "b";
  service_id = "cut";
  staff_id = "ann";
  customer_name = "Eve";
  customer_email = "";
  customer_phone = "";
  start_time = 1800000001000;
  end_time = 3600000001000;
  status = "booked";
  cancelled_at = none;
  cancel_reason = "";
  created_at = 1;
}

-- One hour, of which the second half is booked.
abbrev one_hour : List Interval
one_hour = record { start = 1000; end = 3600000001000 } ∷ []

plan_starts-exact_example :
    Offered 1000 (
      plan_starts "b" "ann"
        (record { windows = one_hour; duration = pos 30; step = pos 15 })
        (booked_row ∷ [])
        0)
    ↔ Any (IsOpen "b" "ann" (minute * 30) (minute * 15) (booked_row ∷ []) 0 1000) one_hour
plan_starts-exact_example =
    plan_starts-exact "b" "ann" one_hour 30 15 (booked_row ∷ []) 0 1000 (omega arith) (omega arith)
      (omega arith) (omega arith) ((omega arith, omega arith), tt)
