-- ===== src/Booking/Offered.antt =====
-- The start times that the slot listing offers, against the rows that are booked.
use appt_remind.Base.{
  ℕ, ◌+◌, ◌*◌, ◌≤◌, ◌<◌, ◌≡◌, sym, subst, ◌↔◌, ◌⊎◌, inl, inr, List, [], ◌∷◌, ◌++◌, map, filter,
  String, arith, All, Any, eq_iff,
}
use appt_remind.Base.Int.{pos}
use appt_remind.Slots.{Interval, available_slots}
use appt_remind.Slots.Exact.{IsFree, Offered, IsSlot, available_slots-exact}
use appt_remind.Schedule.{minute}
use appt_remind.Booking.Model.{Appointment}
use appt_remind.Booking.Offer.{
  earliest, latest, min_max, is_booked_in, insert_row, order_rows, list_booked, span,
  duration_of_minutes, starts, plan_starts,
}

-- A window that a provider gives: it ends after it starts, and does not start at the zero time.
abbrev pub IsProper : Interval → Type 0
IsProper w = (0 < w.start) × (w.start < w.end)

-- A proper window counts.
min_max_step :
    (low high : ℕ) (w : Interval) (ws : List Interval)
    → IsProper w
    → min_max low high (w ∷ ws) ≡ min_max (earliest low w.start) (latest high w.end) ws
unfolding min_max
min_max_step low high w ws h = ground arith

min_max-start :
    (low high : ℕ) (ws : List Interval)
    → 0 < low
    → All IsProper ws
    → (min_max low high ws).start ≤ low
unfolding min_max earliest
min_max-start low high [] p h = omega arith
min_max-start low high (w ∷ ws) p h =
    rw (min_max_step low high w ws h.0)
      (ground (arith, min_max-start (earliest low w.start) (latest high w.end) ws))

min_max-end :
    (low high : ℕ) (ws : List Interval) → All IsProper ws → high ≤ (min_max low high ws).end
unfolding min_max latest
min_max-end low high [] h = omega arith
min_max-end low high (w ∷ ws) h =
    rw (min_max_step low high w ws h.0)
      (ground (arith, min_max-end (earliest low w.start) (latest high w.end) ws h.1))

abbrev AreWithin : Interval → List Interval → Type 0
AreWithin hull = All (λ w. (hull.start ≤ w.start) × (w.end ≤ hull.end))

-- Every window lies between the first and the last instant.
min_max-AreWithin :
    (low high : ℕ) (ws : List Interval) → All IsProper ws → AreWithin (min_max low high ws) ws
min_max-AreWithin low high [] h = tt
min_max-AreWithin low high (w ∷ ws) h =
    subst (λ hull. AreWithin hull (w ∷ ws)) (sym (min_max_step low high w ws h.0))
      (
        unfold earliest latest in
            ground (
              arith,
              min_max-start (earliest low w.start) (latest high w.end) ws,
              min_max-end (earliest low w.start) (latest high w.end) ws h.1,
            ),
        min_max-AreWithin (earliest low w.start) (latest high w.end) ws h.1,
      )

-- No row that is booked with the staff member of the business meets [start, end).
abbrev pub IsUnbooked : String → String → ℕ → ℕ → List Appointment → Type 0
IsUnbooked business_id staff_id start end = All (λ a.
    a.business_id ≡ business_id
    → a.staff_id ≡ staff_id
    → a.status ≡ "booked"
    → (a.end_time ≤ start) ⊎ (end ≤ a.start_time))

insert_row-IsFree :
    (start end : ℕ) (a : Appointment) (rows : List Appointment)
    → IsFree start end (map span (insert_row a rows)) ↔ IsFree start end (map span (a ∷ rows))
unfolding insert_row
insert_row-IsFree start end a [] = (λ h. h, λ h. h)
insert_row-IsFree start end a (b ∷ rows) = ground (arith, insert_row-IsFree start end a rows)

order_rows-IsFree :
    (start end : ℕ) (rows : List Appointment)
    → IsFree start end (map span (order_rows rows)) ↔ IsFree start end (map span rows)
unfolding order_rows
order_rows-IsFree start end [] = (λ h. h, λ h. h)
order_rows-IsFree start end (a ∷ rows) =
    ground
      (arith, order_rows-IsFree start end rows, insert_row-IsFree start end a (order_rows rows))

filter-IsUnbooked :
    (business_id staff_id : String) (low high start end : ℕ) (rows : List Appointment)
    → low ≤ start
    → end ≤ high
    → IsFree start end (map span (filter (is_booked_in business_id staff_id low high) rows))
      ↔ IsUnbooked business_id staff_id start end rows
unfolding is_booked_in
filter-IsUnbooked business_id staff_id low high start end [] l h = (λ x. x, λ x. x)
filter-IsUnbooked business_id staff_id low high start end (a ∷ rows) l h = ground (
  arith,
  filter-IsUnbooked business_id staff_id low high start end rows l h,
  eq_iff a.business_id business_id,
  eq_iff a.staff_id staff_id,
  eq_iff a.status "booked",
)

Offered-append : (t : ℕ) (xs ys : List ℕ) → Offered t (xs ++ ys) ↔ (Offered t xs ⊎ Offered t ys)
Offered-append t [] ys = (inr, λ h. elim h [ inl x ↦ absurd x | inr y ↦ y ])
Offered-append t (x ∷ xs) ys = ground (arith, Offered-append t xs ys)

starts-exact :
    (ws : List Interval) (duration step : ℕ) (busy : List Interval) (now t : ℕ)
    → 0 < duration
    → 0 < step
    → Offered t (starts ws (pos duration) (pos step) busy now)
      ↔ Any (λ w. IsSlot w.start w.end duration step busy now t) ws
unfolding starts
starts-exact [] duration step busy now t d s = (λ h. h, λ h. h)
starts-exact (w ∷ ws) duration step busy now t d s = ground (
  arith,
  Offered-append t (available_slots w.start w.end (pos duration) (pos step) busy now)
      (starts ws (pos duration) (pos step) busy now),
  available_slots-exact w.start w.end duration step busy now t d s,
  starts-exact ws duration step busy now t d s,
)

-- `t` is on the window's grid, fits into it, is not past, and no booked row is in the way.
pub record IsOpen (business_id staff_id : String) (duration step : ℕ) (rows : List Appointment)
    (now t : ℕ) (w : Interval) : Type 0 where
  pub round : ℕ
  pub on_grid : t ≡ w.start + round * step
  pub fits : t + duration ≤ w.end
  pub not_past : now ≤ t
  pub unbooked : IsUnbooked business_id staff_id t (t + duration) rows

module _ (business_id staff_id : String) (duration step : ℕ) (rows : List Appointment) (now t : ℕ)
    (low high : ℕ) where
  abbrev busy : List Interval
  busy = map span (list_booked business_id staff_id low high rows)

  list_booked-IsUnbooked :
      low ≤ t
      → t + duration ≤ high
      → IsFree t (t + duration) busy ↔ IsUnbooked business_id staff_id t (t + duration) rows
  unfolding list_booked
  list_booked-IsUnbooked l h = ground (
    arith,
    order_rows-IsFree t (t + duration) (filter (is_booked_in business_id staff_id low high) rows),
    filter-IsUnbooked business_id staff_id low high t (t + duration) rows l h,
  )

  IsSlot-IsOpen :
      (w : Interval)
      → low ≤ w.start
      → w.end ≤ high
      → IsSlot w.start w.end duration step busy now t
        ↔ IsOpen business_id staff_id duration step rows now t w
  IsSlot-IsOpen w l h = (
    λ x. record {
      round = x.round;
      on_grid = x.on_grid;
      fits = x.fits;
      not_past = x.not_past;
      unbooked =
          (list_booked-IsUnbooked (omega (arith, x.on_grid)) (omega (arith, x.fits))).0 x.free;
    },
    λ x. record {
      round = x.round;
      on_grid = x.on_grid;
      fits = x.fits;
      not_past = x.not_past;
      free =
          (list_booked-IsUnbooked (omega (arith, x.on_grid)) (omega (arith, x.fits))).1 x.unbooked;
    },
  )

  Any-IsOpen :
      (ws : List Interval)
      → All (λ w. (low ≤ w.start) × (w.end ≤ high)) ws
      → Any (λ w. IsSlot w.start w.end duration step busy now t) ws
        ↔ Any (IsOpen business_id staff_id duration step rows now t) ws
  Any-IsOpen [] h = (λ x. x, λ x. x)
  Any-IsOpen (w ∷ ws) h = ground (arith, IsSlot-IsOpen w h.0.0 h.0.1, Any-IsOpen ws h.1)

duration_of_minutes-pos : (m : ℕ) → m ≤ 153722867 → duration_of_minutes (pos m) ≡ pos (minute * m)
duration_of_minutes-pos m h = ground arith

-- For a plan of 1 to 153722867 minutes whose windows end after they start and after the zero time, the listing offers exactly the start
-- times on the grid of some window that fit it, are not past, and at which no booked row of the
-- staff member is in the way.
pub plan_starts-exact :
    (business_id staff_id : String) (ws : List Interval) (m n : ℕ) (rows : List Appointment)
    (now t : ℕ)
    → 0 < m
    → m ≤ 153722867
    → 0 < n
    → n ≤ 153722867
    → All IsProper ws
    → Offered t (
        plan_starts business_id staff_id
          (record { windows = ws; duration = pos m; step = pos n })
          rows
          now)
      ↔ Any (IsOpen business_id staff_id (minute * m) (minute * n) rows now t) ws
unfolding plan_starts
plan_starts-exact business_id staff_id ws m n rows now t a b c d h =
    let hull = min_max 0 0 ws in
    rw (duration_of_minutes-pos m b, duration_of_minutes-pos n d)
      (ground (
        arith,
        starts-exact ws (minute * m) (minute * n)
            (busy business_id staff_id (minute * m) (minute * n) rows now t hull.start hull.end) now
            t (omega arith) (omega arith),
        Any-IsOpen business_id staff_id (minute * m) (minute * n) rows now t hull.start hull.end ws
            (min_max-AreWithin 0 0 ws h),
      ))
