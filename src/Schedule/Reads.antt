-- ===== src/Schedule/Reads.antt =====
-- GetWorkingHours after the statement of UpsertWorkingHours, of the schedule's repository.
use appt_remind.Base.{
  ℕ, ◌≡◌, refl, inl, inr, true, false, some, List, [], ◌∷◌, String, arith, Bool-cases, eq_iff,
  eq_refl, ◌==◌, Bool, sym, subst, if◌then◌else◌, ◌&&◌, eqb,
}
use appt_remind.Schedule.Store.{Repository, WorkingHours, Staff, first, employs, get_working_hours}
use appt_remind.Schedule.Admin.{Book, same_day, put_hours}

-- The rows that GetWorkingHours reads.
abbrev pub as_repository : Book → Repository
as_repository b = record {
  tables = record {
    staff = b.staff;
    working_hours = b.working_hours;
    time_off = [];
    profiles = [];
    services = [];
  };
  refuses = λ q. false;
}

other_day :
    (staff : List Staff) (business_id : String) (h k : WorkingHours)
    → same_day h k ≡ false
    → k.staff_id == h.staff_id && eqb k.weekday h.weekday && employs staff business_id h.staff_id
      ≡ false
unfolding same_day
other_day staff business_id h k e =
    ground (arith, eq_iff h.staff_id k.staff_id, eq_iff k.staff_id h.staff_id)

first-put_hours :
    (staff : List Staff) (business_id : String) (h : WorkingHours) (rows : List WorkingHours)
    → employs staff business_id h.staff_id ≡ true
    → first
        (λ k.
          k.staff_id == h.staff_id
          && eqb k.weekday h.weekday
          && employs staff business_id h.staff_id)
        (put_hours h rows)
      ≡ some h
unfolding first put_hours same_day
first-put_hours staff business_id h [] e = rw (eq_refl h.staff_id, e) (ground arith)
first-put_hours staff business_id h (k ∷ rows) e =
    let rest = first-put_hours staff business_id h rows e in
    elim (Bool-cases (same_day h k)) [
      | inl f ↦ rw f (rw (eq_refl h.staff_id, e) (ground arith))
      | inr f ↦ rw (f, other_day staff business_id h k f) rest
    ]

-- What is read of any other day stays.
first-put_other :
    (staff : List Staff) (business_id other : String) (day : ℕ) (h : WorkingHours)
    (rows : List WorkingHours)
    → other == h.staff_id && eqb day h.weekday ≡ false
    → let asked : WorkingHours → Bool =
        λ k. k.staff_id == other && eqb k.weekday day && employs staff business_id other in
      first asked (put_hours h rows) ≡ first asked rows
unfolding first put_hours same_day
first-put_other staff business_id other day h [] e =
    ground (arith, eq_iff h.staff_id other, eq_iff other h.staff_id)
first-put_other staff business_id other day h (k ∷ rows) e =
    let rest = first-put_other staff business_id other day h rows e in
    ground (
      arith,
      eq_iff h.staff_id other,
      eq_iff other h.staff_id,
      eq_iff k.staff_id other,
      eq_iff h.staff_id k.staff_id,
    )

asked_day :
    (other : String) (day : ℕ) (h : WorkingHours)
    → other == h.staff_id && eqb day h.weekday ≡ true
    → (other ≡ h.staff_id) × (day ≡ h.weekday)
asked_day other day h e = ground (arith, eq_iff other h.staff_id)

first-put_asked :
    (staff : List Staff) (business_id other : String) (day : ℕ) (h : WorkingHours)
    (rows : List WorkingHours)
    → employs staff business_id h.staff_id ≡ true
    → h.staff_id ≡ other
    → h.weekday ≡ day
    → first
        (λ k. k.staff_id == other && eqb k.weekday day && employs staff business_id other)
        (put_hours h rows)
      ≡ some h
first-put_asked staff business_id other day h rows e s d =
    subst
      (λ x.
        first (λ k. k.staff_id == x && eqb k.weekday day && employs staff business_id x)
          (put_hours h rows)
        ≡ some h)
      s
      (subst
        (λ y.
          first
            (λ k.
              k.staff_id == h.staff_id && eqb k.weekday y && employs staff business_id h.staff_id)
            (put_hours h rows)
          ≡ some h)
        d (first-put_hours staff business_id h rows e))

-- What is read of a day after the hours of one day are put.
pub put_hours-get :
    (business_id other : String) (day : ℕ) (h : WorkingHours) (b : Book)
    → employs b.staff business_id h.staff_id ≡ true
    → get_working_hours
        (as_repository (record b { working_hours = put_hours h b.working_hours }))
        business_id
        other
        day
      ≡ (if other == h.staff_id && eqb day h.weekday
          then some h
          else get_working_hours (as_repository b) business_id other day)
unfolding get_working_hours
put_hours-get business_id other day h b known =
    elim (Bool-cases (other == h.staff_id && eqb day h.weekday)) [
      | inl here ↦
          let same = asked_day other day h here in
          rw
            (
              here,
              first-put_asked b.staff business_id other day h b.working_hours known (sym same.0)
                  (sym same.1),
            )
            refl
      | inr away ↦
          rw (away, first-put_other b.staff business_id other day h b.working_hours away) refl
    ]
