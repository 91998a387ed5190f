-- ===== src/Schedule/Store.antt =====
-- services/business-service/internal/storage/repository.go: the rows and the queries that
-- scheduling reads. A query that the database refuses is an error, `none`.
use appt_remind.Base.{
  ℕ, Bool, false, ◌&&◌, ◌||◌, Option, none, some, List, [], ◌∷◌, String, ◌==◌, ltb, leb, eqb,
  if◌then◌else◌, filter, take,
}
use appt_remind.Base.Int.{ℤ}
use appt_remind.TimeOff.{TimeOff}

pub record Staff : Type 0 where
  pub id : String
  pub business_id : String

-- The handler that writes the rows admits minutes from 0 to 1440 only.
pub record WorkingHours : Type 0 where
  pub staff_id : String
  pub weekday : ℕ
  pub is_working : Bool
  pub start_minute : ℕ
  pub end_minute : ℕ

pub record Profile : Type 0 where
  pub business_id : String
  pub timezone : String

pub record Service : Type 0 where
  pub id : String
  pub business_id : String
  pub duration_minutes : ℤ

pub record Tables : Type 0 where
  pub staff : List Staff
  pub working_hours : List WorkingHours
  pub time_off : List TimeOff
  pub profiles : List Profile
  pub services : List Service

pub data Query : Type 0 where
  profile_query duration_query hours_query time_off_query : Query

-- The service's database: its rows, and which queries it refuses.
pub record Repository : Type 0 where
  pub tables : Tables
  pub refuses : Query → Bool

-- The first row that a WHERE clause keeps: the row of QueryRow.
unfoldable pub first {ℓ} : {A : Type ℓ} → (A → Bool) → List A → Option A
first p [] = none
first p (x ∷ xs) = if p x then some x else first p xs

-- The join of a staff table with the condition on the business.
unfoldable pub employs : List Staff → String → String → Bool
employs [] business_id staff_id = false
employs (s ∷ staff) business_id staff_id =
    (s.id == staff_id && s.business_id == business_id) || employs staff business_id staff_id

-- A missing profile is created with the column's default, "UTC".
unfoldable pub get_or_create_profile : Repository → String → Option Profile
unfolding first
get_or_create_profile r business_id =
    let found = first (λ p. p.business_id == business_id) r.tables.profiles in
    let fresh : Profile = record { business_id = business_id; timezone = "UTC" } in
    if r.refuses profile_query then none else elim found [ some p ↦ some p | none ↦ some fresh ]

unfoldable pub get_service_duration : Repository → String → String → Option ℤ
unfolding first
get_service_duration r business_id service_id =
    let found = first (λ s. s.business_id == business_id && s.id == service_id) r.tables.services in
    if r.refuses duration_query
    then none
    else elim found [ some s ↦ some s.duration_minutes | none ↦ none ]

-- Without a row: Monday to Friday, 09:00 to 17:00.
unfoldable pub default_hours : String → ℕ → WorkingHours
default_hours staff_id weekday = record {
  staff_id = staff_id;
  weekday = weekday;
  is_working = leb 1 weekday && leb weekday 5;
  start_minute = 540;
  end_minute = 1020;
}

unfoldable pub get_working_hours : Repository → String → String → ℕ → Option WorkingHours
unfolding first employs default_hours
get_working_hours r business_id staff_id weekday =
    let found =
      first
        (λ h.
          h.staff_id == staff_id
          && eqb h.weekday weekday
          && employs r.tables.staff business_id staff_id)
        r.tables.working_hours in
    if r.refuses hours_query
    then none
    else elim found [ some h ↦ some h | none ↦ some (default_hours staff_id weekday) ]

-- ORDER BY start_time ASC.
pub insert_by_start : TimeOff → List TimeOff → List TimeOff
insert_by_start t [] = t ∷ []
insert_by_start t (u ∷ us) =
    let rest = insert_by_start t us in
    if leb t.start_time u.start_time then t ∷ u ∷ us else u ∷ rest

pub order_by_start : List TimeOff → List TimeOff
unfolding insert_by_start
order_by_start [] = []
order_by_start (t ∷ ts) = insert_by_start t (order_by_start ts)

-- The WHERE clause of ListTimeOff.
pub wanted : Tables → String → String → ℕ → ℕ → TimeOff → Bool
unfolding employs
wanted tables business_id staff_id from to t =
    employs tables.staff business_id t.staff_id
    && t.staff_id == staff_id
    && ltb from t.end_time
    && ltb t.start_time to

unfoldable pub list_time_off : Repository → String → String → ℕ → ℕ → ℕ → Option (List TimeOff)
unfolding wanted order_by_start
list_time_off r business_id staff_id from to limit =
    let rows = filter (wanted r.tables business_id staff_id from to) r.tables.time_off in
    if r.refuses time_off_query
    then none
    else some (take (if eqb limit 0 then 100 else limit) (order_by_start rows))
