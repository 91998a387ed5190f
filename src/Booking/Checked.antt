-- ===== src/Booking/Checked.antt =====
-- The second stage of `Create`: availability and the monthly limit are checked.
use appt_remind.Base.{
  ℕ, ◌<◌, ◌≡◌, refl, ◌∙◌, inl, inr, Bool, true, false, Option, String, arith, count, Bool-cases,
  le_or_lt, le→leb, lt→leb,
}
use appt_remind.Base.Text.{is_empty}
use appt_remind.Tx.{Result, Statement, ok, err, Tx, next, run}
use appt_remind.Tx.Rules.{Ensures, Ensures-bind, Ran, run-Ran}
use appt_remind.Availability.{Verdict, inside, outside, unreadable, validate_booking}
use appt_remind.Booking.Model.{error_json, Entitlements, Db}
use appt_remind.Booking.Store.{
  finalize_key, get_entitlements, find_entitlements, count_booked, is_counted,
}
use appt_remind.Booking.Request.{Env, Wish, finalize_op, entitlements_op, count_op}
use appt_remind.Booking.Create.{
  finalize_error, refused, refuse, is_ok, provider_for, judged, check_availability, monthly_max,
  counted, entitled, month_is_full, limited, check_limit,
}
use appt_remind.Booking.Locked.{Whole, IsReady, At, At-alive}

module _ (env : Env) (wish : Wish) (key : String) (db : Db) where
  -- An error answer is not recorded: the statement that records it names no appointment.
  finalize_error-false :
      (status : ℕ) (text : String) (t : Tx Db)
      → t.committed ≡ db
      → Ensures
          (Whole env wish key db)
          (λ b u. (b ≡ false) × (u.committed ≡ db))
          (finalize_error env wish.appt.business_id key status text t)
  unfolding finalize_error finalize_key
  finalize_error-false status text t c =
      Ensures-bind (Whole env wish key db)
        (Ran (finalize_key wish.appt.business_id key "" status (error_json text)) t)
        (λ b u. (b ≡ false) × (u.committed ≡ db))
        (run (env.fails finalize_op)
          (finalize_key wish.appt.business_id key "" status (error_json text)))
        (λ done. next (is_ok done)) t (run-Ran (Whole env wish key db) _ _ t) after
    where
      after :
          (res : Result (Unit {0})) (u : Tx Db)
          → Ran (finalize_key wish.appt.business_id key "" status (error_json text)) t res u
          → (is_ok res ≡ false) × (u.committed ≡ db)
      after (ok _) u (d, alive, s, e) = cc
      after (err e) u (d, same, how) = (refl, d ∙ c)

  -- So a refusal always answers, and changes nothing.
  refuse-Whole :
      (Q : Unit {0} → Tx Db → Type 0) (status : ℕ) (text : String) (t : Tx Db)
      → t.committed ≡ db
      → Ensures (Whole env wish key db) Q (refuse env wish.appt.business_id key status text t)
  unfolding refuse refused
  refuse-Whole Q status text t c = elim (Bool-cases (is_empty key)) [
    | inl e ↦ rw e (inl c)
    | inr k ↦ rw k (
        Ensures-bind (Whole env wish key db) (λ b u. (b ≡ false) × (u.committed ≡ db)) Q
          (finalize_error env wish.appt.business_id key status text) (refused env status text) t
          (finalize_error-false status text t c) after)
  ]
    where
      after :
          (b : Bool) (u : Tx Db)
          → (b ≡ false) × (u.committed ≡ db)
          → Ensures (Whole env wish key db) Q (refused env status text b u)
      after true u (e, d) = cc
      after false u (e, d) = inl d

  abbrev pub IsAvailable : Type 0
  IsAvailable =
      validate_booking env.format_date (provider_for env wish) wish.appt.start_time
        wish.appt.end_time
      ≡ inside

  judged-At :
      (v : Verdict) (t : Tx Db)
      → validate_booking env.format_date
          (provider_for env wish)
          wish.appt.start_time
          wish.appt.end_time
        ≡ v
      → At env wish key db (IsReady env wish key db) t
      → Ensures
          (Whole env wish key db)
          (λ _ u. IsAvailable × At env wish key db (IsReady env wish key db) u)
          (judged env wish key v t)
  unfolding judged
  judged-At inside t e a = (e, a)
  judged-At unreadable t e a = inl a.0
  judged-At outside t e a = refuse-Whole _ _ _ t a.0

  -- The handler goes on only if the booking is available.
  pub check_availability-At :
      (t : Tx Db)
      → At env wish key db (IsReady env wish key db) t
      → Ensures
          (Whole env wish key db)
          (λ _ u. IsAvailable × At env wish key db (IsReady env wish key db) u)
          (check_availability env wish key t)
  unfolding check_availability
  check_availability-At t a = judged-At _ t refl a

  -- Fewer bookings in the month than the limit.
  abbrev pub IsBelowLimit : Type 0
  IsBelowLimit =
      count
        (is_counted wish.appt.business_id (env.month_start wish.appt.start_time)
          (env.month_end wish.appt.start_time))
        db.appointments
      < monthly_max (find_entitlements wish.appt.business_id db.entitlements)

  abbrev IsJudged : Result Bool → Tx Db → Type 0
  IsJudged (err e) u = u.committed ≡ db
  IsJudged (ok true) u = u.committed ≡ db
  IsJudged (ok false) u =
      IsBelowLimit × (u.committed ≡ db) × (u.aborted ≡ false) × IsReady env wish key db u.working

  count_booked-eq :
      (w d : Db) (start end n : ℕ)
      → count_booked wish.appt.business_id start end w ≡ ok (n, d)
      → (n ≡ count (is_counted wish.appt.business_id start end) w.appointments) × (d ≡ w)
  unfolding count_booked
  count_booked-eq w d start end n e = ground arith

  get_entitlements-eq :
      (w d : Db) (found : Option Entitlements)
      → get_entitlements wish.appt.business_id w ≡ ok (found, d)
      → (found ≡ find_entitlements wish.appt.business_id w.entitlements) × (d ≡ w)
  unfolding get_entitlements
  get_entitlements-eq w d found e = ground arith

  abbrev counting : Statement Db ℕ
  counting =
      count_booked wish.appt.business_id (env.month_start wish.appt.start_time)
        (env.month_end wish.appt.start_time)

  counted-IsJudged :
      (t u : Tx Db) (res : Result ℕ)
      → t.committed ≡ db
      → IsReady env wish key db t.working
      → Ran counting t res u
      → Ensures
          (Whole env wish key db)
          IsJudged
          (counted (find_entitlements wish.appt.business_id db.entitlements) res u)
  unfolding counted
  counted-IsJudged t u (err e) c r (d, same, how) = d ∙ c
  counted-IsJudged t u (ok n) c r (d, alive, s, e) =
      let max = monthly_max (find_entitlements wish.appt.business_id db.entitlements) in
      let f = count_booked-eq t.working d _ _ n s in
      elim (le_or_lt max n) [
        | inl full ↦ rw (le→leb max n full, e) c
        | inr below ↦ rw (lt→leb max n below, e, f.1) (rw (f.0, r.0) at below, c, alive, r)
      ]

  entitled-IsJudged :
      (t u : Tx Db) (res : Result (Option Entitlements))
      → At env wish key db (IsReady env wish key db) t
      → Ran (get_entitlements wish.appt.business_id) t res u
      → Ensures
          (Whole env wish key db)
          IsJudged
          (entitled env wish.appt.business_id wish.appt.start_time res u)
  unfolding entitled
  entitled-IsJudged t u (err e) a (d, same, how) = d ∙ a.0
  entitled-IsJudged t u (ok found) a (d, alive, s, e) =
      let ready = At-alive env wish key db (IsReady env wish key db) t a alive in
      let f = get_entitlements-eq t.working d found s in
      rw (f.0, ready.1, e, f.1)
        (Ensures-bind (Whole env wish key db) (Ran counting t) IsJudged
          (run (env.fails count_op) counting)
          (counted (find_entitlements wish.appt.business_id db.entitlements)) t
          (run-Ran (Whole env wish key db) (env.fails count_op) counting t)
          (λ res v h. counted-IsJudged t v res a.0 ready h))

  limited-At :
      (u : Tx Db) (res : Result Bool)
      → IsJudged res u
      → Ensures
          (Whole env wish key db)
          (λ _ v. IsBelowLimit × At env wish key db (IsReady env wish key db) v)
          (limited env wish key res u)
  unfolding limited
  limited-At u (err e) h = inl h
  limited-At u (ok true) h = refuse-Whole _ _ _ u h
  limited-At u (ok false) h = (h.0, (h.1, inr h.3))

  -- The handler goes on only below the limit of the month.
  pub check_limit-At :
      (t : Tx Db)
      → At env wish key db (IsReady env wish key db) t
      → Ensures
          (Whole env wish key db)
          (λ _ u. IsBelowLimit × At env wish key db (IsReady env wish key db) u)
          (check_limit env wish key t)
  unfolding check_limit month_is_full
  check_limit-At t a =
      Ensures-bind (Whole env wish key db) IsJudged
        (λ _ u. IsBelowLimit × At env wish key db (IsReady env wish key db) u)
        (month_is_full env wish.appt.business_id wish.appt.start_time) (limited env wish key) t
        (Ensures-bind (Whole env wish key db) (Ran (get_entitlements wish.appt.business_id) t)
          IsJudged (run (env.fails entitlements_op) (get_entitlements wish.appt.business_id))
          (entitled env wish.appt.business_id wish.appt.start_time) t
          (run-Ran (Whole env wish key db) (env.fails entitlements_op)
            (get_entitlements wish.appt.business_id) t)
          (λ res u h. entitled-IsJudged t u res a h))
        (λ res u h. limited-At u res h)
