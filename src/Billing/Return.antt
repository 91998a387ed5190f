-- ===== src/Billing/Return.antt =====
-- services/billing-service: the public pages after a checkout, CheckoutSessionStatus and
-- AckCheckoutReturn of internal/handlers/billing.go, with their statements of
-- internal/storage/repository.go. The method is the path's one.
use appt_remind.Base.{
  ℕ, Bool, false, not, ◌&&◌, ◌||◌, Option, none, some, List, [], ◌∷◌, String, ◌==◌, if◌then◌else◌,
}
use appt_remind.Base.Text.{is_empty, trim_space}
use appt_remind.Tx.{no_rows, Result, ok, err, Statement, run, expect, ◌>>=◌, ◌>>◌}
use appt_remind.Billing.Books.{
  CheckoutSession, Books, HookEnv, Reply, error, Flow, session_op, load_op, finish,
}
use appt_remind.Billing.Hooks.{in_tx}
use appt_remind.Billing.Checkout.{query}

unfoldable pub find_session : String → List CheckoutSession → Option CheckoutSession
find_session id [] = none
find_session id (c ∷ rows) =
    let rest = find_session id rows in if c.stripe_session_id == id then some c else rest

unfoldable pub get_checkout_session : String → Statement Books CheckoutSession
unfolding find_session
get_checkout_session id db = elim (find_session id db.sessions) [
  | none ↦ err no_rows
  | some c ↦ ok (c, db)
]

-- What the public status says: no business, no customer and no token.
pub data Status : Type 0 where
  failed : ℕ → String → Status
  state_of :
      (session_id tier status : String) (updated_at : ℕ)
      (completed_at canceled_at expired_at : Option ℕ)
      → Status

unfoldable pub show_session : Result CheckoutSession → Status
show_session (ok c) =
    state_of c.stripe_session_id c.tier c.status c.updated_at c.completed_at c.canceled_at
      c.expired_at
show_session (err no_rows) = failed 404 "not found"
show_session (err e) = failed 500 "failed to load session"

unfoldable pub checkout_session_status : HookEnv → String → Books → Status
unfolding trim_space is_empty get_checkout_session show_session
checkout_session_status env asked db =
    let id = trim_space asked in
    if is_empty id
    then failed 400 "session_id is required"
    else show_session (query (env.fails load_op) (get_checkout_session id) db)

-- COALESCE.
abbrev pub or_time : Option ℕ → ℕ → Option ℕ
or_time none at = some at
or_time (some t) at = some t

unfoldable pub returned : HookEnv → String → ℕ → CheckoutSession → CheckoutSession
returned env result at c =
    let seen = record c { return_seen_at = some at; updated_at = env.now } in
    if result == "cancel" && not (c.status == "completed")
    then record seen { status = "canceled"; canceled_at = or_time c.canceled_at at }
    else seen

-- `return_token = token`, which no NULL is.
unfoldable pub is_returned : String → String → CheckoutSession → Bool
is_returned id token c =
    c.stripe_session_id == id && elim c.return_token [ none ↦ false | some t ↦ t == token ]

unfoldable pub returned_rows :
    HookEnv → String → String → String → ℕ → List CheckoutSession → List CheckoutSession
unfolding is_returned returned
returned_rows env id token result at [] = []
returned_rows env id token result at (c ∷ rows) =
    (if is_returned id token c then returned env result at c else c)
    ∷ returned_rows env id token result at rows

unfoldable pub ack_checkout_return :
    HookEnv → String → String → String → ℕ → Statement Books (Unit {0})
unfolding trim_space is_empty returned_rows
ack_checkout_return env id token result at db =
    let known = if is_empty (trim_space result) then "unknown" else result in
    ok (tt, record db { sessions = returned_rows env id token known at db.sessions })

pub record Ack : Type 0 where
  pub session_id : String
  pub state : String
  pub result : String

unfoldable pub store_return : HookEnv → String → String → String → Flow Reply
unfolding ack_checkout_return finish
store_return env id token result =
    (run (env.fails session_op) (ack_checkout_return env id token result env.now)
      >>= expect (error 500 "failed to record return"))
    >> finish env

unfoldable pub acknowledge : HookEnv → Option Ack → Books → Reply × Books
unfolding trim_space is_empty store_return
acknowledge env none db = (error 400 "invalid json body", db)
acknowledge env (some ack) db =
    let id = trim_space ack.session_id in
    let token = trim_space ack.state in
    let result = trim_space (env.to_lower ack.result) in
    if is_empty id || is_empty token
    then (error 400 "session_id and state are required", db)
    else (if not (result == "success") && not (result == "cancel")
        then (error 400 "invalid result", db)
        else in_tx env (store_return env id token result) db)
