-- ===== src/Booking/Create.antt =====
-- services/booking-service/internal/handlers/booking.go: `Create` and what it calls.
-- json.Marshal of a map of texts does not fail, so its error branches are left out.
use appt_remind.Base.{
  ℕ, ◌+◌, ◌-◌, Bool, true, false, not, ◌&&◌, Option, none, some, List, [], ◌∷◌, String, ltb, leb,
  if◌then◌else◌,
}
use appt_remind.Base.Int.{pos_part, is_pos}
use appt_remind.Base.Text.{trim_space, is_empty}
use appt_remind.Tx.{
  Result, ok, err, no_rows, exclusion_violation, Tx, Outcome, reply, next, begin, commit, run,
  answer, expect, close, ◌>>=◌, ◌>>◌,
}
use appt_remind.Availability.{
  AvailabilityConfig, Verdict, inside, outside, unreadable, validate_booking,
}
use appt_remind.Booking.Model.{
  Event, Body, error_json, created_json, empty, booked, reminder, Response, IdempotencyRecord,
  Entitlements, Db,
}
use appt_remind.Booking.Request.{
  begin_op, select_op, insert_key_op, reselect_op, entitlements_op, count_op, insert_op, event_op,
  finalize_op, commit_op, reminder_op, Env, Request, http_error, Wish, Parsed, valid, invalid,
  format_utc, parse_create,
}
use appt_remind.Booking.Store.{
  select_key, insert_key, finalize_key, insert_appointment, get_entitlements, count_booked,
  insert_event,
}

abbrev pub Flow : Type 0 → Type 0
Flow A = Tx Db → Outcome Response Db A

-- The second select of LockIdempotencyKey, and the row that it finds.
unfoldable pub reselected : Result IdempotencyRecord → Flow (Result (IdempotencyRecord × Bool))
reselected (err e) = next (err e)
reselected (ok rec) = next (ok (rec, false))

unfoldable pub inserted_key :
    Env → String → String → Result (Unit {0}) → Flow (Result (IdempotencyRecord × Bool))
unfolding reselected
inserted_key env business_id key (err e) = next (err e)
inserted_key env business_id key (ok _) =
    run (env.fails reselect_op) (select_key business_id key) >>= reselected

unfoldable pub selected_key :
    Env → String → String → Result IdempotencyRecord → Flow (Result (IdempotencyRecord × Bool))
unfolding inserted_key
selected_key env business_id key (ok rec) = next (ok (rec, true))
selected_key env business_id key (err no_rows) =
    run (env.fails insert_key_op) (insert_key business_id key) >>= inserted_key env business_id key
selected_key env business_id key (err e) = next (err e)

-- LockIdempotencyKey: the record, and whether it was there before.
unfoldable pub lock_key : Env → String → String → Flow (Result (IdempotencyRecord × Bool))
unfolding selected_key
lock_key env business_id key =
    run (env.fails select_op) (select_key business_id key) >>= selected_key env business_id key

-- The answer to a repeated request, if the key's record is final.
pub replay : IdempotencyRecord → Bool → Option Response
unfolding is_empty
replay rec existed =
    let body : Body = elim rec.response_payload [
      | some b ↦ b
      | none ↦ created_json rec.appointment_id
    ] in
    if existed && not (is_empty rec.appointment_id) && ltb 0 rec.status_code
    then some (record { status = rec.status_code; body = body })
    else none

abbrev pub reply_or_go : Option Response → Flow (Unit {0})
reply_or_go (some r) = answer r
reply_or_go none = next tt

unfoldable pub locked_key : Result (IdempotencyRecord × Bool) → Flow (Unit {0})
unfolding replay
locked_key (err e) = answer (http_error 500 "failed to lock idempotency key")
locked_key (ok (rec, existed)) = reply_or_go (replay rec existed)

-- The key is looked up only if the header holds one.
unfoldable pub check_key : Env → String → String → Flow (Unit {0})
unfolding lock_key locked_key
check_key env business_id key =
    if is_empty key then next tt else (lock_key env business_id key >>= locked_key)

abbrev pub is_ok : {A : Type 0} → Result A → Bool
is_ok (ok a) = true
is_ok (err e) = false

-- finalizeIdempotencyError: whether the error is recorded.
unfoldable pub finalize_error : Env → String → String → ℕ → String → Flow Bool
finalize_error env business_id key status text =
    run (env.fails finalize_op) (finalize_key business_id key "" status (error_json text))
    >>= λ done. next (is_ok done)

-- With the error recorded the handler commits and returns without writing an answer, which
-- net/http sends as an empty 200.
unfoldable pub refused : Env → ℕ → String → Bool → Flow (Unit {0})
refused env status text false t = answer (http_error status text) t
refused env status text true t =
    reply (record { status = 200; body = empty }) (commit (env.fails commit_op) t).1

-- An error that is recorded under the key, if there is one.
unfoldable pub refuse : Env → String → String → ℕ → String → Flow (Unit {0})
unfolding finalize_error is_empty refused
refuse env business_id key status text =
    if is_empty key
    then answer (http_error status text)
    else (finalize_error env business_id key status text >>= refused env status text)

unfoldable pub judged : Env → Wish → String → Verdict → Flow (Unit {0})
unfolding refuse
judged env wish key inside = next tt
judged env wish key unreadable = answer (http_error 503 "availability service unavailable")
judged env wish key outside =
    refuse env wish.appt.business_id key 422 "requested time is outside business availability"

-- The scheduling provider for the booking's business, staff member and service.
abbrev pub provider_for : Env → Wish → Option (String → Option AvailabilityConfig)
provider_for env wish = elim env.scheduling [
  | none ↦ none
  | some p ↦ some (p wish.appt.business_id wish.appt.staff_id wish.appt.service_id)
]

unfoldable pub check_availability : Env → Wish → String → Flow (Unit {0})
unfolding judged validate_booking
check_availability env wish key = judged env wish key (
    validate_booking env.format_date (provider_for env wish) wish.appt.start_time
      wish.appt.end_time)

-- enforceMonthlyAppointmentLimit: whether the month is full. The default is the free tier's 200.
unfoldable pub monthly_max : Option Entitlements → ℕ
monthly_max none = 200
monthly_max (some e) =
    if is_pos e.max_monthly_appointments then pos_part e.max_monthly_appointments else 200

unfoldable pub counted : Option Entitlements → Result ℕ → Flow (Result Bool)
unfolding monthly_max
counted found (err e) = next (err e)
counted found (ok n) = next (ok (leb (monthly_max found) n))

unfoldable pub entitled : Env → String → ℕ → Result (Option Entitlements) → Flow (Result Bool)
unfolding counted
entitled env business_id start (err e) = next (err e)
entitled env business_id start (ok found) =
    run (env.fails count_op)
      (count_booked business_id (env.month_start start) (env.month_end start))
    >>= counted found

unfoldable pub month_is_full : Env → String → ℕ → Flow (Result Bool)
unfolding entitled
month_is_full env business_id start =
    run (env.fails entitlements_op) (get_entitlements business_id)
    >>= entitled env business_id start

unfoldable pub limited : Env → Wish → String → Result Bool → Flow (Unit {0})
unfolding refuse
limited env wish key (err e) = answer (http_error 500 "entitlements check failed")
limited env wish key (ok false) = next tt
limited env wish key (ok true) =
    refuse env wish.appt.business_id key 402 "monthly appointment limit reached (upgrade required)"

unfoldable pub check_limit : Env → Wish → String → Flow (Unit {0})
unfolding month_is_full limited
check_limit env wish key =
    month_is_full env wish.appt.business_id wish.appt.start_time >>= limited env wish key

-- The error of an insert decides the answer.
unfoldable pub insert_error : Result String → Flow String
insert_error (ok id) = next id
insert_error (err exclusion_violation) = answer (http_error 409 "time slot already booked")
insert_error (err e) = answer (http_error 500 "failed to create appointment")

pub booked_event : Env → Wish → String → Event
booked_event env wish id =
    let appt = wish.appt in
    record {
      aggregate_type = "appointment";
      aggregate_id = id;
      event_type = "booking.appointment.booked.v1";
      payload =
          booked id appt.business_id appt.staff_id appt.service_id appt.customer_email
            appt.customer_phone (env.format_time wish.start) (env.format_time wish.end);
    }

pub reminder_event : Env → Wish → String → ℕ → String → String → Event
reminder_event env wish id remind_at channel recipient =
    let appt = wish.appt in
    record {
      aggregate_type = "appointment";
      aggregate_id = id;
      event_type = "booking.reminder.requested.v1";
      payload =
          reminder id appt.business_id channel recipient (format_utc env remind_at)
            appt.customer_name appt.service_id (format_utc env appt.start_time);
    }

-- enqueueReminder: an error is logged, and the handler goes on.
unfoldable pub enqueue_reminder : Env → Wish → String → ℕ → String → String → Flow (Unit {0})
unfolding trim_space is_empty reminder_event
enqueue_reminder env wish id remind_at channel recipient =
    if is_empty (trim_space recipient)
    then next tt
    else (run (env.fails (reminder_op remind_at channel))
          (insert_event (reminder_event env wish id remind_at channel recipient))
        >>= λ logged. next tt)

-- The two reminders of one offset.
unfoldable pub enqueue_both : Env → Wish → String → ℕ → Flow (Unit {0})
unfolding enqueue_reminder
enqueue_both env wish id remind_at =
    enqueue_reminder env wish id remind_at "email" wish.appt.customer_email
    >> enqueue_reminder env wish id remind_at "sms" wish.appt.customer_phone

-- The loop over the offsets. A reminder that would be due before now is skipped.
unfoldable pub enqueue_reminders : Env → Wish → String → List ℕ → Flow (Unit {0})
unfolding enqueue_both
enqueue_reminders env wish id [] = next tt
enqueue_reminders env wish id (offset ∷ offsets) =
    let rest = enqueue_reminders env wish id offsets in
    if ltb wish.appt.start_time (env.now + offset)
    then rest
    else (enqueue_both env wish id (wish.appt.start_time - offset) >> rest)

-- The policy's offsets if it has any, and the defaults otherwise.
pub offsets_for : Env → String → List ℕ
offsets_for env business_id =
    let chosen = λ (found : Option (List ℕ)). elim found as (λ _. List ℕ) [
      | some (o ∷ os) ↦ o ∷ os
      | _ ↦ env.default_offsets
    ] in
    elim env.policy [ none ↦ env.default_offsets | some p ↦ chosen (p business_id) ]

unfoldable pub finalize : Env → Wish → String → String → Flow (Unit {0})
unfolding is_empty
finalize env wish key id =
    if is_empty key
    then next tt
    else (run (env.fails finalize_op)
          (finalize_key wish.appt.business_id key id 201 (created_json id))
        >>= expect (http_error 500 "failed to finalize idempotency key"))

unfoldable pub commit_created : Env → String → Flow Response
commit_created env id t =
    let (done, u) = commit (env.fails commit_op) t in
    if done
    then reply (record { status = 201; body = created_json id }) u
    else reply (http_error 500 "failed to commit") u

unfoldable pub write_booked : Env → Wish → String → Flow (Unit {0})
unfolding booked_event
write_booked env wish id =
    run (env.fails event_op) (insert_event (booked_event env wish id))
    >>= expect (http_error 500 "failed to write outbox event")

-- The handler from the new id on.
unfoldable pub announce : Env → Wish → String → String → Flow Response
unfolding write_booked enqueue_reminders offsets_for finalize commit_created
announce env wish key id = do
  write_booked env wish id
  enqueue_reminders env wish id (offsets_for env wish.appt.business_id)
  finalize env wish key id
  commit_created env id

unfoldable pub place : Env → Wish → Flow String
unfolding insert_error
place env wish =
    run (env.fails insert_op) (insert_appointment wish.appt env.fresh_id env.now) >>= insert_error

-- The handler from the insert on.
unfoldable pub store_booking : Env → Wish → String → Flow Response
unfolding place announce
store_booking env wish key = place env wish >>= announce env wish key

-- The handler from the key on.
unfoldable pub book : Env → Wish → String → Flow Response
unfolding check_key check_availability check_limit store_booking
book env wish key = do
  check_key env wish.appt.business_id key
  check_availability env wish key
  check_limit env wish key
  store_booking env wish key

unfoldable pub serve : Env → Request → Db → Parsed → Response × Db
unfolding book
serve env req db (invalid r) = (r, db)
serve env req db (valid wish) =
    if env.fails begin_op
    then (http_error 500 "db error", db)
    else close (book env wish (trim_space req.idempotency_key) (begin db))

unfoldable pub create : Env → Request → Db → Response × Db
unfolding parse_create serve
create env req db = serve env req db (parse_create env req)
