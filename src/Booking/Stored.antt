-- ===== src/Booking/Stored.antt =====
-- What a booking leaves behind: the description that `Create` is held to.
use appt_remind.Base.{
  ℕ, ◌+◌, ◌-◌, ◌<◌, ◌≡◌, ◌⊎◌, true, false, none, some, List, [], ◌∷◌, ◌++◌, String, ltb,
  if◌then◌else◌, count,
}
use appt_remind.Base.Text.{trim_space, is_empty}
use appt_remind.Availability.{inside, validate_booking}
use appt_remind.Booking.Model.{Appointment, Event, Response, created_json, IdempotencyRecord, Db}
use appt_remind.Booking.Store.{find_key, find_entitlements, is_counted, clashes_any, has_id}
use appt_remind.Booking.Request.{Env, Wish}
use appt_remind.Booking.Create.{
  monthly_max, booked_event, reminder_event, offsets_for, provider_for,
}

-- The row of the appointment.
abbrev pub row : Env → Wish → Appointment
row env wish = record wish.appt {
  id = env.fresh_id;
  cancelled_at = none;
  cancel_reason = "";
  created_at = env.now;
}

-- A reminder on one channel, if the customer can be reached there.
abbrev pub reminder_on : Env → Wish → String → ℕ → String → String → List Event
reminder_on env wish id remind_at channel recipient =
    if is_empty (trim_space recipient)
    then []
    else reminder_event env wish id remind_at channel recipient ∷ []

abbrev pub reminders_at : Env → Wish → String → ℕ → List Event
reminders_at env wish id remind_at =
    reminder_on env wish id remind_at "email" wish.appt.customer_email
    ++ reminder_on env wish id remind_at "sms" wish.appt.customer_phone

-- The reminders of the offsets that are not due before now, by mail and then by phone.
abbrev pub reminders : Env → Wish → String → List ℕ → List Event
reminders env wish id [] = []
reminders env wish id (offset ∷ offsets) =
    let rest = reminders env wish id offsets in
    if ltb wish.appt.start_time (env.now + offset)
    then rest
    else reminders_at env wish id (wish.appt.start_time - offset) ++ rest

-- The key's record holds the answer, if the request has a key.
abbrev pub IsFinal :
    Wish → String → String → List IdempotencyRecord → List IdempotencyRecord → Type 0
IsFinal wish key id before after =
    ((is_empty key ≡ true) × (after ≡ before))
    ⊎ ((r : IdempotencyRecord) × (is_empty key ≡ false)
        × (find_key wish.appt.business_id key after
            ≡ some (record r {
              appointment_id = id;
              status_code = 201;
              response_payload = some (created_json id);
            })))

-- A booking is stored: the checks passed on the rows before, and the row, the events and the key's
-- record are there after.
pub record Stored (env : Env) (wish : Wish) (key : String) (before : Db) (r : Response) (after : Db)
    : Type 0 where
  pub answered : r ≡ record { status = 201; body = created_json env.fresh_id }
  pub available :
      validate_booking env.format_date
        (provider_for env wish)
        wish.appt.start_time
        wish.appt.end_time
      ≡ inside
  pub below_limit :
      count
        (is_counted wish.appt.business_id
          (env.month_start wish.appt.start_time)
          (env.month_end wish.appt.start_time))
        before.appointments
      < monthly_max (find_entitlements wish.appt.business_id before.entitlements)
  pub no_clash : clashes_any (row env wish) before.appointments ≡ false
  pub new_id : has_id env.fresh_id before.appointments ≡ false
  pub appointments : after.appointments ≡ row env wish ∷ before.appointments
  pub entitlements : after.entitlements ≡ before.entitlements
  pub events :
      after.outbox
      ≡ before.outbox
        ++ booked_event env wish env.fresh_id
          ∷ reminders env wish env.fresh_id (offsets_for env wish.appt.business_id)
  pub key_record : IsFinal wish key env.fresh_id before.keys after.keys
