-- ===== src/Schedule/Week.antt =====
-- What GetWorkingHours reads of a week after the handler UpsertWorkingHours.
use appt_remind.Base.{
  ℕ, ◌≡◌, refl, ◌⊎◌, inl, inr, true, false, some, String, arith, Bool-cases, ap, ◌∙◌, ◌==◌,
  if◌then◌else◌, ◌&&◌, ◌||◌, eqb, not,
}
use appt_remind.Base.Int.{ℤ, pos, negsuc, pos_part}
use appt_remind.Base.Text.{trim_space}
use appt_remind.Schedule.Store.{WorkingHours, employs, get_working_hours}
use appt_remind.Schedule.Admin.{
  AdminEnv, Book, HoursRequest, HoursCall, put_hours, upsert_hours, bad_minutes, hours_row,
  set_hours, upsert_working_hours, is_negative, below,
}
use appt_remind.Schedule.Reads.{as_repository, put_hours-get}

upsert_hours-put :
    (env : AdminEnv) (business_id : String) (h : WorkingHours) (b after : Book)
    → upsert_hours env business_id h b ≡ some after
    → (employs b.staff business_id h.staff_id ≡ true)
      × (after ≡ record b { working_hours = put_hours h b.working_hours })
unfolding upsert_hours
upsert_hours-put env business_id h b after e = ground arith

upsert_hours-get :
    (env : AdminEnv) (business_id other : String) (day : ℕ) (h : WorkingHours) (b after : Book)
    → upsert_hours env business_id h b ≡ some after
    → get_working_hours (as_repository after) business_id other day ≡ (
        if other == h.staff_id && eqb day h.weekday
        then some h
        else get_working_hours (as_repository b) business_id other day)
upsert_hours-get env business_id other day h b after e =
    let put = upsert_hours-put env business_id h b after e in
    ap (λ x. get_working_hours (as_repository x) business_id other day) put.1
    ∙ put_hours-get business_id other day h b put.0

set_hours-accepted :
    (env : AdminEnv) (business_id staff_id : String) (req : HoursRequest) (b : Book)
    → (set_hours env business_id staff_id (some req) b).0.status ≡ 204
    → upsert_hours env business_id (hours_row staff_id req) b
      ≡ some (set_hours env business_id staff_id (some req) b).1
unfolding set_hours
set_hours-accepted env business_id staff_id req b e = ground arith

upsert_working_hours-accepted :
    (env : AdminEnv) (call : HoursCall) (b : Book)
    → (upsert_working_hours env call b).0.status ≡ 204
    → upsert_working_hours env call b
      ≡ set_hours env (trim_space call.business_id) (trim_space call.staff_id) call.json b
unfolding upsert_working_hours
upsert_working_hours-accepted env call b e = ground arith

-- The hours that the request says, in numbers, with no minutes if the day is not worked.
pub record AsAsked (req : HoursRequest) (sid : String) (h : WorkingHours) : Type 0 where
  pub staff_id : h.staff_id ≡ sid
  pub weekday : req.weekday ≡ pos h.weekday
  pub is_working : h.is_working ≡ req.is_working
  pub minutes :
      ((req.is_working ≡ true)
        × (req.start_minute ≡ pos h.start_minute)
        × (req.end_minute ≡ pos h.end_minute))
      ⊎ ((req.is_working ≡ false) × (h.start_minute ≡ 0) × (h.end_minute ≡ 0))

not_negative : (z : ℤ) → is_negative z ≡ false → z ≡ pos (pos_part z)
not_negative (pos n) e = refl
not_negative (negsuc n) e = cc

hours_row-AsAsked :
    (staff_id : String) (req : HoursRequest)
    → is_negative req.weekday || not (below req.weekday 7) ≡ false
    → req.is_working && bad_minutes req.start_minute req.end_minute ≡ false
    → AsAsked req staff_id (hours_row staff_id req)
unfolding hours_row bad_minutes
hours_row-AsAsked staff_id req w m = record {
  staff_id = refl;
  weekday = not_negative req.weekday (ground arith);
  is_working = refl;
  minutes = elim (Bool-cases req.is_working) [
    | inl on ↦ rw on (
        inl (
          refl,
          not_negative req.start_minute (ground arith),
          not_negative req.end_minute (ground arith),
        ))
    | inr off ↦ rw off (inr (refl, refl, refl))
  ];
}

set_hours-guards :
    (env : AdminEnv) (business_id staff_id : String) (req : HoursRequest) (b : Book)
    → (set_hours env business_id staff_id (some req) b).0.status ≡ 204
    → (is_negative req.weekday || not (below req.weekday 7) ≡ false)
      × (req.is_working && bad_minutes req.start_minute req.end_minute ≡ false)
unfolding set_hours
set_hours-guards env business_id staff_id req b e = ground arith

-- When the handler accepts the hours of a day, what its business then reads of this day of this member of staff
-- are hours with the weekday, the minutes and the mark of the request, the minutes 0 if the day is
-- not worked; what it reads of any other day, or of any other member of staff, is what it read before.
pub upsert_working_hours-get :
    (env : AdminEnv) (call : HoursCall) (req : HoursRequest) (b : Book) (other : String) (day : ℕ)
    → call.json ≡ some req
    → (upsert_working_hours env call b).0.status ≡ 204
    → let bid = trim_space call.business_id in
      let sid = trim_space call.staff_id in
      let after = (upsert_working_hours env call b).1 in
      (h : WorkingHours) × AsAsked req sid h
      × (get_working_hours (as_repository after) bid other day ≡ (
          if other == sid && eqb day h.weekday
          then some h
          else get_working_hours (as_repository b) bid other day))
unfolding hours_row
upsert_working_hours-get env call req b other day j e =
    let same = upsert_working_hours-accepted env call b e in
    let bid = trim_space call.business_id in
    let sid = trim_space call.staff_id in
    let ok = rw (same, j) at e in
    let guards = set_hours-guards env bid sid req b ok in
    (
      hours_row sid req,
      hours_row-AsAsked sid req guards.0 guards.1,
      rw (same, j)
          (upsert_hours-get env bid other day (hours_row sid req) b _
            (set_hours-accepted env bid sid req b ok)),
    )
