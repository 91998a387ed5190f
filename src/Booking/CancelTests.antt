-- ===== src/Booking/CancelTests.antt =====
-- Runs of cancelling among several rows.
use appt_remind.Base.{◌≡◌, ◌≢◌, refl, ◌⊎◌, eq_iff, none, some, [], ◌∷◌, ◌++◌, String, false}
use appt_remind.Base.Text.{trim_space, is_empty}
use appt_remind.Booking.Model.{Appointment, Db, cancelled_json}
use appt_remind.Booking.Cancel.{CancelEnv, CancelRequest, CancelCall, cancel, format_utc}
use appt_remind.Booking.CancelRow.{AreKeyed, OneCancelled, cancel-OneCancelled}
use appt_remind.Booking.CancelDone.{IsCancellable, cancel-IsCancellable}

abbrev row_of : String → Appointment
row_of id = record {
  id = id;
  business_id = "b";
  service_id = "cut";
  staff_id = "ann";
  customer_name = "Eve";
  customer_email = "";
  customer_phone = "";
  start_time = 500;
  end_time = 1000;
  status = "booked";
  cancelled_at = none;
  cancel_reason = "";
  created_at = 1;
}

abbrev two_rows : Db
two_rows = record {
  appointments = row_of "a1" ∷ row_of "a2" ∷ [];
  keys = [];
  entitlements = [];
  outbox = [];
}

abbrev calm : CancelEnv
calm = record { fails = λ op. false; now = 20; format_time = λ t. "time" }

abbrev second : CancelRequest
second = record { business_id = "b"; appointment_id = " a2"; reason = "ill " }

abbrev withdrawn : CancelCall
withdrawn = record { method = "POST"; json = some second }

two_ids : ◌≢◌ {A = String} "a2" "a1"
two_ids e = let f = (eq_iff "a2" "a1").1 e in cc

two_rows-AreKeyed : AreKeyed two_rows.appointments
two_rows-AreKeyed = ((two_ids, tt), (tt, tt))

withdrawn-IsCancellable : IsCancellable calm withdrawn second (row_of "a2")
unfolding trim_space is_empty
withdrawn-IsCancellable = record {
  calm = λ op. refl;
  posted = refl;
  json = refl;
  business_named = refl;
  id_named = refl;
  by_business = refl;
  by_id = refl;
  booked = refl;
}

cancel-OneCancelled_example :
    ((cancel calm withdrawn two_rows).1.appointments ≡ two_rows.appointments)
    ⊎ ((req : CancelRequest) × (withdrawn.json ≡ some req)
        × OneCancelled
            (trim_space req.business_id)
            (trim_space req.appointment_id)
            (trim_space req.reason)
            20
            two_rows.appointments
            (cancel calm withdrawn two_rows).1.appointments)
cancel-OneCancelled_example = cancel-OneCancelled calm withdrawn two_rows two_rows-AreKeyed

cancel-IsCancellable_example :
    ((cancel calm withdrawn two_rows).0
      ≡ record { status = 200; body = cancelled_json "a2" "cancelled" (format_utc calm 20) })
    × ((cancel calm withdrawn two_rows).1.appointments
        ≡ (row_of "a1" ∷ [])
          ++ record (row_of "a2") {
            status = "cancelled";
            cancelled_at = some 20;
            cancel_reason = trim_space second.reason;
          }
            ∷ [])
cancel-IsCancellable_example =
    cancel-IsCancellable calm withdrawn second (row_of "a2") (row_of "a1" ∷ []) [] two_rows refl
      two_rows-AreKeyed withdrawn-IsCancellable
