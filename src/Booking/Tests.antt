-- ===== src/Booking/Tests.antt =====
-- Runs of booking and cancelling.
use appt_remind.Base.{
  arith, ◌≡◌, refl, ◌⊎◌, false, Option, none, some, [], ◌∷◌, String, ◌==◌, if◌then◌else◌,
}
use appt_remind.Base.Text.{trim_space, is_empty}
use appt_remind.Tx.{exec, commit}
use appt_remind.Availability.{validate_booking}
use appt_remind.Booking.Model.{created_json, Appointment, Db}
use appt_remind.Booking.Store.{
  clashes_any, has_id, find_entitlements, is_counted, select_key, insert_key, get_entitlements,
  count_booked, insert_appointment, insert_event, finalize_key, get_appointment, cancel_appointment,
}
use appt_remind.Booking.Request.{Env, Stamp, Request, Wish, valid, parse_create}
use appt_remind.Booking.Create.{create, monthly_max}
use appt_remind.Booking.Stored.{row, Stored}
use appt_remind.Booking.Atomic.{create-Stored}
use appt_remind.Booking.Succeeds.{IsBookable, create-IsBookable}
use appt_remind.Booking.Limit.{IsWithinLimit, create-IsWithinLimit}
use appt_remind.Booking.Overlap.{NoOverlap, create-NoOverlap}
use appt_remind.Booking.Cancel.{CancelEnv, CancelRequest, CancelCall, cancel}
use appt_remind.Booking.Cancelled.{Cancelled, cancel-Cancelled}

-- A written time is 1000 for "one" and 2000 for any other text.
abbrev read_time : String → Option Stamp
read_time s = some (record { instant = if s == "one" then 1000 else 2000; zone = "UTC" })

-- No statement fails, no provider is set, and reminders are due 100 and 5000 before the start.
abbrev calm : Env
calm = record {
  fails = λ op. false;
  now = 10;
  fresh_id = "a2";
  parse_time = read_time;
  format_time = λ t. "time";
  format_date = λ t. "date";
  month_start = λ t. 0;
  month_end = λ t. 9000;
  scheduling = none;
  policy = none;
  default_offsets = 100 ∷ 5000 ∷ [];
}

abbrev asked : Request
asked = record {
  method = "POST";
  json = some (record {
    business_id = "b";
    service_id = "cut";
    staff_id = "ann";
    customer_name = "Bob";
    customer_email = "bob@example.org";
    customer_phone = "";
    start_time = "one";
    end_time = "two";
  });
  idempotency_key = "k1";
}

-- A booked row of the same member of staff, just before.
abbrev earlier : Appointment
earlier = record {
  id = "a1";
  business_id = "b";
  service_id = "cut";
  staff_id = "ann";
  customer_name = "Eve";
  customer_email = "";
  customer_phone = "";
  start_time = 500;
  end_time = 1000;
  status = "booked";
  cancelled_at = none;
  cancel_reason = "";
  created_at = 1;
}

abbrev one_row : Db
one_row = record { appointments = earlier ∷ []; keys = []; entitlements = []; outbox = [] }

answered_created : (create calm asked one_row).0.status ≡ 201
unfolding create exec commit trim_space is_empty select_key insert_key get_entitlements count_booked
    insert_appointment insert_event finalize_key
answered_created = refl

create-Stored_example :
    ((create calm asked one_row).1 ≡ one_row)
    ⊎ ((wish : Wish) × (parse_create calm asked ≡ valid wish)
        × Stored calm wish
            (trim_space asked.idempotency_key)
            one_row
            (create calm asked one_row).0
            (create calm asked one_row).1)
create-Stored_example = create-Stored calm asked one_row

create-NoOverlap_example : NoOverlap (create calm asked one_row).1.appointments
create-NoOverlap_example = create-NoOverlap calm asked one_row (tt, tt)

abbrev calm_cancel : CancelEnv
calm_cancel = record { fails = λ op. false; now = 20; format_time = λ t. "time" }

abbrev withdrawn : CancelCall
withdrawn = record {
  method = "POST";
  json = some (record { business_id = "b"; appointment_id = "a1"; reason = "ill" });
}

answered_cancelled : (cancel calm_cancel withdrawn one_row).0.status ≡ 200
unfolding cancel exec commit trim_space is_empty get_appointment cancel_appointment insert_event
answered_cancelled = refl

cancel-Cancelled_example :
    ((cancel calm_cancel withdrawn one_row).1 ≡ one_row)
    ⊎ ((req : CancelRequest) × (withdrawn.json ≡ some req)
        × Cancelled calm_cancel
            (trim_space req.business_id)
            (trim_space req.appointment_id)
            (trim_space req.reason)
            one_row
            (cancel calm_cancel withdrawn one_row).0
            (cancel calm_cancel withdrawn one_row).1)
cancel-Cancelled_example = cancel-Cancelled calm_cancel withdrawn one_row

abbrev asked_keyless : Request
asked_keyless = record asked { idempotency_key = "" }

abbrev asked_wish : Wish
asked_wish = record {
  appt = record {
    id = "";
    business_id = "b";
    service_id = "cut";
    staff_id = "ann";
    customer_name = "Bob";
    customer_email = "bob@example.org";
    customer_phone = "";
    start_time = 1000;
    end_time = 2000;
    status = "booked";
    cancelled_at = none;
    cancel_reason = "";
    created_at = 0;
  };
  start = record { instant = 1000; zone = "UTC" };
  end = record { instant = 2000; zone = "UTC" };
}

parsed_wish : parse_create calm asked_keyless ≡ valid asked_wish
unfolding parse_create trim_space is_empty
parsed_wish = refl

asked_wish-IsBookable :
    IsBookable calm asked_wish (trim_space asked_keyless.idempotency_key) one_row
unfolding trim_space is_empty validate_booking clashes_any has_id monthly_max find_entitlements
    is_counted
asked_wish-IsBookable = record {
  calm = λ op. refl;
  keyless = refl;
  available = refl;
  below_limit = omega arith;
  no_clash = refl;
  new_id = refl;
}

create-IsBookable_example :
    ((create calm asked_keyless one_row).0 ≡ record { status = 201; body = created_json "a2" })
    × ((create calm asked_keyless one_row).1.appointments
        ≡ row calm asked_wish ∷ one_row.appointments)
create-IsBookable_example =
    create-IsBookable calm asked_keyless one_row asked_wish parsed_wish asked_wish-IsBookable

create-IsWithinLimit_example :
    ((create calm asked one_row).1 ≡ one_row)
    ⊎ ((wish : Wish) × (parse_create calm asked ≡ valid wish)
        × IsWithinLimit calm wish (create calm asked one_row).1)
create-IsWithinLimit_example = create-IsWithinLimit calm asked one_row
