-- ===== src/Booking/CancelRow.antt =====
-- `Cancel` of services/booking-service/internal/handlers/booking.go, by the table's rows: which one it changes.
use appt_remind.Base.{
  ℕ, ◌≡◌, refl, sym, subst, ◌∙◌, ap, ◌≢◌, ◌⊎◌, inl, inr, true, some, List, [], ◌∷◌, ◌++◌, ◌&&◌,
  String, arith, All, Bool-cases, eq_iff, ◌==◌,
}
use appt_remind.Base.Text.{trim_space}
use appt_remind.Booking.Model.{Appointment, Db}
use appt_remind.Booking.Store.{find_appointment, cancel_rows}
use appt_remind.Booking.Cancel.{CancelEnv, CancelCall, CancelRequest, cancel}
use appt_remind.Booking.Cancelled.{cancel-Cancelled}

-- `id` is the primary key of the table.
abbrev pub AreKeyed : List Appointment → Type 0
AreKeyed [] = Unit {0}
AreKeyed (a ∷ rows) = All (λ b. b.id ≢ a.id) rows × AreKeyed rows

-- One booked row of the business, with this id, has become a cancelled one in its place; all the other
-- rows, and all else that this row says, are as they were.
pub record OneCancelled (business_id id reason : String) (now : ℕ) (before : List Appointment)
    (after : List Appointment) : Type 0 where
  pub front : List Appointment
  pub row : Appointment
  pub back : List Appointment
  pub was : before ≡ front ++ row ∷ back
  pub by_id : row.id ≡ id
  pub by_business : row.business_id ≡ business_id
  pub booked : row.status ≡ "booked"
  pub becomes :
      after
      ≡ front
        ++ record row { status = "cancelled"; cancelled_at = some now; cancel_reason = reason }
          ∷ back

module _ (business_id reason : String) (now : ℕ) where
  pub cancel_rows-same :
      (id : String) (rows : List Appointment)
      → All (λ b. b.id ≢ id) rows
      → cancel_rows business_id id reason now rows ≡ rows
  unfolding cancel_rows
  cancel_rows-same id [] h = refl
  cancel_rows-same id (b ∷ rows) h =
      let rest = cancel_rows-same id rows h.1 in ground (arith, eq_iff b.id id)

  row_named :
      (b : Appointment) (id : String)
      → b.id == id && b.business_id == business_id ≡ true
      → (b.id ≡ id) × (b.business_id ≡ business_id)
  row_named b id e = ground (arith, eq_iff b.id id, eq_iff b.business_id business_id)

  cancel_rows-OneCancelled :
      (id : String) (rows : List Appointment) (a : Appointment)
      → AreKeyed rows
      → find_appointment business_id id rows ≡ some a
      → a.status ≡ "booked"
      → OneCancelled business_id id reason now rows (cancel_rows business_id id reason now rows)
  unfolding cancel_rows find_appointment
  cancel_rows-OneCancelled id [] a k f s = cc
  cancel_rows-OneCancelled id (b ∷ rows) a k f s =
      elim (Bool-cases (b.id == id && b.business_id == business_id)) [
        | inl e ↦
            let same : b ≡ a = let g = rw e at f in cc in
            let named = row_named b id e in
            rw (e, cancel_rows-same id rows (subst (λ x. All (λ c. c.id ≢ x) rows) named.0 k.0))
              (record {
                front = [];
                row = b;
                back = rows;
                was = refl;
                by_id = named.0;
                by_business = named.1;
                booked = ap (λ x. x.status) same ∙ s;
                becomes = refl;
              })
        | inr e ↦
            let rest = cancel_rows-OneCancelled id rows a k.1 (rw e at f) s in
            rw e (record {
              front = b ∷ rest.front;
              row = rest.row;
              back = rest.back;
              was = ap (λ xs. b ∷ xs) rest.was;
              by_id = rest.by_id;
              by_business = rest.by_business;
              booked = rest.booked;
              becomes = ap (λ xs. b ∷ xs) rest.becomes;
            })
      ]

find_appointment-id :
    (business_id id : String) (rows : List Appointment) (a : Appointment)
    → find_appointment business_id id rows ≡ some a
    → a.id ≡ id
unfolding find_appointment
find_appointment-id business_id id [] a f = cc
find_appointment-id business_id id (b ∷ rows) a f =
    ground (arith, eq_iff b.id id, find_appointment-id business_id id rows a)

-- If no two rows have one id, a request to cancel leaves the rows as they were or changes just one: a row
-- with the id and of the business that the request names, which was booked, and now is cancelled,
-- in its place, at the time of the request and for its reason; whatever fails on the way.
pub cancel-OneCancelled :
    (env : CancelEnv) (call : CancelCall) (db : Db)
    → AreKeyed db.appointments
    → ((cancel env call db).1.appointments ≡ db.appointments)
      ⊎ ((req : CancelRequest) × (call.json ≡ some req)
          × OneCancelled
              (trim_space req.business_id)
              (trim_space req.appointment_id)
              (trim_space req.reason)
              env.now
              db.appointments
              (cancel env call db).1.appointments)
cancel-OneCancelled env call db keyed = elim (cancel-Cancelled env call db) [
  | inl same ↦ inl (ap (λ d. d.appointments) same)
  | inr (req, e, c) ↦ inr (
    req,
    e,
    let id = trim_space req.appointment_id in
        let bid = trim_space req.business_id in
        let rows =
          c.appointments
          ∙ ap (λ x. cancel_rows bid x (trim_space req.reason) env.now db.appointments)
              (find_appointment-id bid id db.appointments c.appt c.found) in
        subst (OneCancelled bid id (trim_space req.reason) env.now db.appointments) (sym rows) (
          cancel_rows-OneCancelled bid (trim_space req.reason) env.now id db.appointments c.appt
            keyed c.found c.was_booked),
  )
]
