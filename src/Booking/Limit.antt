-- ===== src/Booking/Limit.antt =====
-- enforceMonthlyAppointmentLimit's promise: a booking does not take its month over the limit.
use appt_remind.Base.{ℕ, ◌≤◌, ◌<◌, ◌≡◌, ◌⊎◌, inl, inr, Bool, List, ◌∷◌, arith, count}
use appt_remind.Booking.Model.{Db}
use appt_remind.Booking.Store.{find_entitlements, is_counted}
use appt_remind.Booking.Request.{Env, Wish, Request, valid, parse_create}
use appt_remind.Booking.Create.{monthly_max, create}
use appt_remind.Booking.Stored.{row}
use appt_remind.Booking.Atomic.{create-Stored}

-- The booked rows of the wish's business in the month of its start are at most the limit.
abbrev pub IsWithinLimit : Env → Wish → Db → Type 0
IsWithinLimit env wish db =
    count
      (is_counted wish.appt.business_id (env.month_start wish.appt.start_time)
        (env.month_end wish.appt.start_time))
      db.appointments
    ≤ monthly_max (find_entitlements wish.appt.business_id db.entitlements)

count_cons :
    {A : Type 0} (p : A → Bool) (x : A) (xs : List A) (n : ℕ)
    → count p xs < n
    → count p (x ∷ xs) ≤ n
count_cons p x xs n h = ground arith

-- A request changes nothing, or it is valid and afterwards the booked rows of its business in the
-- month of its start are at most the monthly limit, whatever fails on the way.
pub create-IsWithinLimit :
    (env : Env) (req : Request) (db : Db)
    → ((create env req db).1 ≡ db)
      ⊎ ((wish : Wish) × (parse_create env req ≡ valid wish)
          × IsWithinLimit env wish (create env req db).1)
create-IsWithinLimit env req db = elim (create-Stored env req db) [
  | inl same ↦ inl same
  | inr (wish, e, s) ↦ inr (
    wish,
    e,
    rw (s.appointments, s.entitlements)
        (count_cons _ (row env wish) db.appointments _ s.below_limit),
  )
]
