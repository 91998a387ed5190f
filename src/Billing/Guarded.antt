-- ===== src/Billing/Guarded.antt =====
-- internal/handlers/billing.go: what the public return page can change.
use appt_remind.Base.{
  ◌≡◌, ◌≢◌, refl, inl, inr, ◌⊎◌, ℕ, Bool, true, false, not, ◌&&◌, ◌||◌, some, List, [], ◌∷◌, String,
  ◌==◌, if◌then◌else◌, eq_iff, arith, Bool-cases,
}
use appt_remind.Base.Text.{is_empty, trim_space}
use appt_remind.Tx.{ok, Tx, begin, run, expect, ◌>>=◌}
use appt_remind.Tx.Rules.{Ensures, Ensures-seq, Ensures-imp, Ensures-expect, Did, commit_cases}
use appt_remind.Billing.Books.{
  CheckoutSession, Books, HookEnv, Reply, error, session_op, commit_op, finish,
}
use appt_remind.Billing.Hooks.{in_tx}
use appt_remind.Billing.Recorded.{closed-Ensures}
use appt_remind.Billing.Return.{
  returned, is_returned, returned_rows, ack_checkout_return, Ack, store_return, acknowledge,
}

-- A row is as it was, or it is the session of this token, and then its status is as it was, or it is canceled
-- and was not completed.
abbrev pub Guarded : String → String → CheckoutSession → CheckoutSession → Type 0
Guarded id token c d =
    (d ≡ c)
    ⊎ ((is_returned id token c ≡ true)
        × ((d.status ≡ c.status) ⊎ ((c.status ≢ "completed") × (d.status ≡ "canceled")))
        × (d.completed_at ≡ c.completed_at)
        × (d.return_token ≡ c.return_token))

-- Row by row.
abbrev pub Rows :
    (CheckoutSession → CheckoutSession → Type 0)
    → List CheckoutSession
    → List CheckoutSession
    → Type 0
Rows R [] [] = Unit {0}
Rows R [] (d ∷ ds) = ⊥
Rows R (c ∷ cs) [] = ⊥
Rows R (c ∷ cs) (d ∷ ds) = R c d × Rows R cs ds

Rows-same : (id token : String) (cs : List CheckoutSession) → Rows (Guarded id token) cs cs
Rows-same id token [] = tt
Rows-same id token (c ∷ cs) = (inl refl, Rows-same id token cs)

returned-Guarded :
    (env : HookEnv) (id token result : String) (at : ℕ) (c : CheckoutSession)
    → is_returned id token c ≡ true
    → Guarded id token c (returned env result at c)
unfolding returned
returned-Guarded env id token result at c h =
    elim (Bool-cases (result == "cancel" && not (c.status == "completed"))) [
      | inl e ↦ rw e (inr (h, inr (open_status e, refl), refl, refl))
      | inr e ↦ rw e (inr (h, inl refl, refl, refl))
    ]
  where
    open_status :
        (result == "cancel" && not (c.status == "completed")) ≡ true → c.status ≢ "completed"
    open_status e s =
        let f : c.status == "completed" ≡ true = (eq_iff c.status "completed").1 s in ground arith

returned_rows-Rows :
    (env : HookEnv) (id token result : String) (at : ℕ) (cs : List CheckoutSession)
    → Rows (Guarded id token) cs (returned_rows env id token result at cs)
unfolding returned_rows
returned_rows-Rows env id token result at [] = tt
returned_rows-Rows env id token result at (c ∷ cs) =
    (changed, returned_rows-Rows env id token result at cs)
  where
    chosen :
        (b : Bool)
        → is_returned id token c ≡ b
        → Guarded id token c (if b then returned env result at c else c)
    chosen true e = returned-Guarded env id token result at c e
    chosen false e = inl refl

    changed : Guarded id token c (if is_returned id token c then returned env result at c else c)
    changed = chosen (is_returned id token c) refl

-- Only sessions change, and row by row they are guarded.
pub record IsGuarded (id token : String) (before : Books) (after : Books) : Type 0 where
  pub ledger : after.ledger ≡ before.ledger
  pub events : after.events ≡ before.events
  pub audits : after.audits ≡ before.audits
  pub sessions : Rows (Guarded id token) before.sessions after.sessions

IsGuarded-same : (id token : String) (db : Books) → IsGuarded id token db db
IsGuarded-same id token db = record {
  ledger = refl;
  events = refl;
  audits = refl;
  sessions = Rows-same id token db.sessions;
}

ack-IsGuarded :
    (env : HookEnv) (id token result : String) (at : ℕ) (a : Unit {0}) (db d : Books)
    → ack_checkout_return env id token result at db ≡ ok (a, d)
    → IsGuarded id token db d
unfolding ack_checkout_return
ack-IsGuarded env id token result at a db d e =
    let known = if is_empty (trim_space result) then "unknown" else result in
    let same : d ≡ record db { sessions = returned_rows env id token known at db.sessions } = cc in
    rw same record {
      ledger = refl;
      events = refl;
      audits = refl;
      sessions = returned_rows-Rows env id token known at db.sessions;
    }

module _ (env : HookEnv) (id token result : String) (db : Books) where
  abbrev Guards : Reply → Tx Books → Type 0
  Guards _ t = IsGuarded id token db t.committed

  finish-Guards :
      (t : Tx Books)
      → (t.committed ≡ db) × IsGuarded id token db t.working
      → Ensures Guards Guards (finish env t)
  unfolding finish
  finish-Guards t (c, w) = elim (commit_cases (env.fails commit_op) t) [
    | inl e ↦ rw (e, c) (IsGuarded-same id token db)
    | inr (alive, e) ↦ rw e w
  ]

  store_return-Guards : Ensures Guards Guards (store_return env id token result (begin db))
  unfolding store_return
  store_return-Guards =
      let stmt = ack_checkout_return env id token result env.now in
      Ensures-seq Guards (λ _ t. (t.committed ≡ db) × IsGuarded id token db t.working) Guards
        (run (env.fails session_op) stmt >>= expect (error 500 "failed to record return"))
        (finish env) (begin db)
        (Ensures-imp Guards Guards (Did stmt (begin db))
          (λ _ t. (t.committed ≡ db) × IsGuarded id token db t.working) _
          (Ensures-expect Guards (env.fails session_op) stmt (error 500 "failed to record return")
            (begin db) (λ u c. rw c (IsGuarded-same id token db)))
          (λ r u h. h)
          (λ a u h.
            let (d, alive, e, same) = h in
            rw same (refl, ack-IsGuarded env id token result env.now a db d e)))
        (λ u h. finish-Guards u h)

-- The public return page changes no subscription, no provider event and no audit, and of the checkout sessions
-- only one with the request's id and return token (spaces around them aside): its status stays or becomes
-- canceled, the latter only if it was not completed.
pub acknowledge-IsGuarded :
    (env : HookEnv) (ack : Ack) (db : Books)
    → IsGuarded
        (trim_space ack.session_id)
        (trim_space ack.state)
        db
        (acknowledge env (some ack) db).1
unfolding acknowledge
acknowledge-IsGuarded env ack db =
    let id = trim_space ack.session_id in
    let token = trim_space ack.state in
    let result = trim_space (env.to_lower ack.result) in
    elim (Bool-cases (is_empty id || is_empty token)) [
      | inl e ↦ rw e (IsGuarded-same id token db)
      | inr e ↦ elim (Bool-cases (not (result == "success") && not (result == "cancel"))) [
        | inl f ↦ rw (e, f) (IsGuarded-same id token db)
        | inr f ↦ rw (e, f) (stored id token result)
      ]
    ]
  where
    stored :
        (id token result : String)
        → IsGuarded id token db (in_tx env (store_return env id token result) db).1
    stored id token result =
        closed-Ensures env (store_return env id token result) db (λ _ d. IsGuarded id token db d)
          (λ n. IsGuarded-same id token db) (store_return-Guards env id token result db)
