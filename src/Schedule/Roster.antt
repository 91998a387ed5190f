-- ===== src/Schedule/Roster.antt =====
-- What the schedule handlers keep: hours that fit the day, and time off that does not overlap.
use appt_remind.Base.{
  ℕ, ◌≤◌, ◌<◌, ◌≡◌, refl, ◌≢◌, ◌⊎◌, inl, inr, true, false, Option, none, some, List, [], ◌∷◌,
  String, arith, All, ltb, Bool-cases, eq_iff, ◌&&◌, ◌||◌, not,
}
use appt_remind.Base.Text.{trim_space}
use appt_remind.TimeOff.{TimeOff}
use appt_remind.Schedule.Store.{WorkingHours}
use appt_remind.Schedule.Admin.{
  AdminEnv, Entry, Book, HoursRequest, HoursCall, same_day, put_hours, upsert_hours, bad_minutes,
  hours_row, set_hours, upsert_working_hours, is_negative, below, answer_hours,
}
use appt_remind.Schedule.Entries.{
  overlaps_entry, Inserted, inserted, conflict, failed, insert_entry, OffRequest, OffCall,
  add_times, add_entry, create_time_off, answer_entry,
}

-- The weekday is one, and a worked day starts before it ends, within 24 hours.
abbrev pub IsFit : WorkingHours → Type 0
IsFit h =
    (h.weekday < 7)
    × (h.is_working ≡ true → (h.start_minute < h.end_minute) × (h.end_minute ≤ 1440))

put_hours-IsFit :
    (h : WorkingHours) (rows : List WorkingHours)
    → IsFit h
    → All IsFit rows
    → All IsFit (put_hours h rows)
unfolding put_hours
put_hours-IsFit h [] f a = (f, tt)
put_hours-IsFit h (k ∷ rows) f a =
    let rest = put_hours-IsFit h rows f a.1 in
    elim (Bool-cases (same_day h k)) [ inl e ↦ rw e (f, a.1) | inr e ↦ rw e (a.0, rest) ]

upsert_hours-IsFit :
    (env : AdminEnv) (business_id : String) (h : WorkingHours) (b after : Book)
    → IsFit h
    → All IsFit b.working_hours
    → upsert_hours env business_id h b ≡ some after
    → All IsFit after.working_hours
unfolding upsert_hours
upsert_hours-IsFit env business_id h b after f a e =
    ground (arith, put_hours-IsFit h b.working_hours f a)

hours_row-IsFit :
    (staff_id : String) (req : HoursRequest)
    → is_negative req.weekday || not (below req.weekday 7) ≡ false
    → req.is_working && bad_minutes req.start_minute req.end_minute ≡ false
    → IsFit (hours_row staff_id req)
unfolding hours_row bad_minutes
hours_row-IsFit staff_id req w m = ground arith

answer_hours-IsFit :
    (env : AdminEnv) (business_id : String) (h : WorkingHours) (b : Book) (res : Option Book)
    → IsFit h
    → All IsFit b.working_hours
    → upsert_hours env business_id h b ≡ res
    → All IsFit (answer_hours b res).1.working_hours
answer_hours-IsFit env business_id h b none f a e = a
answer_hours-IsFit env business_id h b (some after) f a e =
    upsert_hours-IsFit env business_id h b after f a e

set_hours-IsFit :
    (env : AdminEnv) (business_id staff_id : String) (json : Option HoursRequest) (b : Book)
    → All IsFit b.working_hours
    → All IsFit (set_hours env business_id staff_id json b).1.working_hours
unfolding set_hours
set_hours-IsFit env business_id staff_id none b a = a
set_hours-IsFit env business_id staff_id (some req) b a =
    elim (Bool-cases (is_negative req.weekday || not (below req.weekday 7))) [
      | inl e ↦ rw e a
      | inr w ↦ elim (Bool-cases (req.is_working && bad_minutes req.start_minute req.end_minute)) [
        | inl e ↦ rw (w, e) a
        | inr m ↦
            rw (w, m)
              (answer_hours-IsFit env business_id (hours_row staff_id req) b _
                (hours_row-IsFit staff_id req w m) a refl)
      ]
    ]

-- If every day's hours start before they end within 24 hours before a request to set hours, they
-- do after it, whatever the request is and whatever fails.
pub upsert_working_hours-IsFit :
    (env : AdminEnv) (call : HoursCall) (b : Book)
    → All IsFit b.working_hours
    → All IsFit (upsert_working_hours env call b).1.working_hours
unfolding upsert_working_hours
upsert_working_hours-IsFit env call b a = ground (
  arith,
  set_hours-IsFit env (trim_space call.business_id) (trim_space call.staff_id) call.json b a,
)

-- No entry of one member of staff overlaps another of theirs.
abbrev pub AreApart : TimeOff → TimeOff → Type 0
AreApart s t = (s.staff_id ≢ t.staff_id) ⊎ (s.end_time ≤ t.start_time) ⊎ (t.end_time ≤ s.start_time)

abbrev pub IsDisjoint : List Entry → Type 0
IsDisjoint [] = Unit {0}
IsDisjoint (e ∷ entries) = All (λ f. AreApart e.block f.block) entries × IsDisjoint entries

overlaps_entry-false :
    (t : TimeOff) (entries : List Entry)
    → overlaps_entry t entries ≡ false
    → All (λ f. AreApart t f.block) entries
unfolding overlaps_entry
overlaps_entry-false t [] e = tt
overlaps_entry-false t (f ∷ entries) e =
    ground (arith, eq_iff t.staff_id f.block.staff_id, overlaps_entry-false t entries)

insert_entry-IsDisjoint :
    (env : AdminEnv) (business_id : String) (t : TimeOff) (b after : Book)
    → IsDisjoint b.entries
    → insert_entry env business_id t b ≡ inserted after
    → IsDisjoint after.entries
unfolding insert_entry
insert_entry-IsDisjoint env business_id t b after d e =
    ground (arith, overlaps_entry-false t b.entries)

answer_entry-IsDisjoint :
    (env : AdminEnv) (business_id : String) (t : TimeOff) (b : Book) (res : Inserted)
    → IsDisjoint b.entries
    → insert_entry env business_id t b ≡ res
    → IsDisjoint (answer_entry env b res).1.entries
answer_entry-IsDisjoint env business_id t b (inserted after) d e =
    insert_entry-IsDisjoint env business_id t b after d e
answer_entry-IsDisjoint env business_id t b conflict d e = d
answer_entry-IsDisjoint env business_id t b failed d e = d

add_times-IsDisjoint :
    (env : AdminEnv) (business_id staff_id : String) (start end : Option ℕ) (b : Book)
    → IsDisjoint b.entries
    → IsDisjoint (add_times env business_id staff_id start end b).1.entries
unfolding add_times
add_times-IsDisjoint env business_id staff_id none end b d = d
add_times-IsDisjoint env business_id staff_id (some start) none b d = d
add_times-IsDisjoint env business_id staff_id (some start) (some end) b d =
    elim (Bool-cases (ltb start end)) [
      | inl g ↦ rw g (
          answer_entry-IsDisjoint env business_id
            (record { staff_id = staff_id; start_time = start; end_time = end }) b _ d refl)
      | inr g ↦ rw g d
    ]

add_entry-IsDisjoint :
    (env : AdminEnv) (business_id staff_id : String) (json : Option OffRequest) (b : Book)
    → IsDisjoint b.entries
    → IsDisjoint (add_entry env business_id staff_id json b).1.entries
unfolding add_entry
add_entry-IsDisjoint env business_id staff_id none b d = d
add_entry-IsDisjoint env business_id staff_id (some req) b d =
    add_times-IsDisjoint env business_id staff_id (env.parse_time (trim_space req.start_time))
      (env.parse_time (trim_space req.end_time)) b d

-- If no time off of a member of staff overlaps another of theirs before a request to add time off,
-- none does after it, whatever the request is and whatever fails.
pub create_time_off-IsDisjoint :
    (env : AdminEnv) (call : OffCall) (b : Book)
    → IsDisjoint b.entries
    → IsDisjoint (create_time_off env call b).1.entries
unfolding create_time_off
create_time_off-IsDisjoint env call b d = ground (
  arith,
  add_entry-IsDisjoint env (trim_space call.business_id) (trim_space call.staff_id) call.json b d,
)
