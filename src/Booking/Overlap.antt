-- ===== src/Booking/Overlap.antt =====
-- The exclusion constraint's promise: no staff member is booked twice at one time.
use appt_remind.Base.{◌≤◌, ◌≡◌, ◌≢◌, ◌⊎◌, inl, inr, false, List, [], ◌∷◌, arith, All, eq_iff}
use appt_remind.Booking.Model.{Appointment, Db}
use appt_remind.Booking.Store.{clashes_any}
use appt_remind.Booking.Request.{Env, Request}
use appt_remind.Booking.Create.{create}
use appt_remind.Booking.Stored.{row}
use appt_remind.Booking.Atomic.{create-Stored}

-- Two rows do not take one staff member at one time.
abbrev pub AreCompatible : Appointment → Appointment → Type 0
AreCompatible a b =
    (a.status ≢ "booked")
    ⊎ (b.status ≢ "booked")
    ⊎ (a.staff_id ≢ b.staff_id)
    ⊎ (a.end_time ≤ b.start_time)
    ⊎ (b.end_time ≤ a.start_time)

abbrev pub NoOverlap : List Appointment → Type 0
NoOverlap [] = Unit {0}
NoOverlap (a ∷ rest) = All (AreCompatible a) rest × NoOverlap rest

clashes_any-false :
    (a : Appointment) (rows : List Appointment)
    → clashes_any a rows ≡ false
    → All (AreCompatible a) rows
unfolding clashes_any
clashes_any-false a [] e = tt
clashes_any-false a (b ∷ rows) e =
    ground (arith, eq_iff b.status "booked", eq_iff a.staff_id b.staff_id, clashes_any-false a rows)

-- If no staff member is booked twice at one time before a request to book, none is after it,
-- whatever fails on the way.
pub create-NoOverlap :
    (env : Env) (req : Request) (db : Db)
    → NoOverlap db.appointments
    → NoOverlap (create env req db).1.appointments
create-NoOverlap env req db h = elim (create-Stored env req db) [
  | inl same ↦ rw same h
  | inr (wish, e, s) ↦
      rw s.appointments (clashes_any-false (row env wish) db.appointments s.no_clash, h)
]
