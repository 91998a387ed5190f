-- ===== src/Billing/Checkout.antt =====
-- services/billing-service: GetSubscription, CancelSubscription, CheckoutStub, CheckoutSessionStatus and
-- AckCheckoutReturn of internal/handlers/billing.go, with their statements of
-- internal/storage/repository.go. The method is the path's one. Stripe's API, the random bytes and the
-- escaping of a query are parameters; a call to Stripe that fails is `none`.
use Prim.Native.Char.{code}
use appt_remind.Base.{
  ℕ, eqb, Bool, false, not, ◌&&◌, ◌||◌, Option, none, some, List, [], ◌∷◌, String, ◌==◌,
  if◌then◌else◌,
}
use appt_remind.Base.Text.{is_empty, trim_space, cat}
use appt_remind.Tx.{no_rows, failure, Result, ok, err, Statement, run, expect, ◌>>=◌, ◌>>◌}
use appt_remind.Billing.{
  null_if_empty, Limits, limits_for_tier, Subscription, find_subscription, apply_canceled,
}
use appt_remind.Billing.Books.{
  ProviderEvent, CheckoutSession, Books, HookEnv, Caller, Reply, error, Flow, session_op, load_op,
  or_else, record_audit, record_event, change, finish, finish_with, opened, is_forbidden,
}
use appt_remind.Billing.Hooks.{stripe_transition, in_tx}

-- The subscription in an answer: the tier, the status and the limits.
pub data Answer : Type 0 where
  refused : Reply → Answer
  shown : (business_id tier status : String) → Limits → Answer

-- GetSubscription of the repository.
unfoldable pub load_subscription : String → Statement Books Subscription
unfolding find_subscription
load_subscription business_id db = elim (find_subscription business_id db.ledger.subscriptions) [
  | none ↦ err no_rows
  | some s ↦ ok (s, db)
]

unfoldable pub show_subscription : String → Result Subscription → Answer
unfolding limits_for_tier
show_subscription business_id (ok s) = shown business_id s.tier s.status (limits_for_tier s.tier)
show_subscription business_id (err no_rows) =
    shown business_id "free" "none" (limits_for_tier "free")
show_subscription business_id (err e) = refused (error 500 "failed to load subscription")

-- The result of a query outside a transaction.
abbrev pub query : {A : Type 0} → Bool → Statement Books A → Books → Result A
query fails stmt db =
    if fails then err failure else elim (stmt db) [ ok r ↦ ok r.0 | err e ↦ err e ]

-- `asked` is the parameter of the URL.
unfoldable pub get_subscription : HookEnv → Caller → String → Books → Answer
unfolding trim_space is_empty is_forbidden load_subscription show_subscription
get_subscription env caller asked db =
    let business_id = or_else (trim_space asked) (trim_space caller.business_id) in
    if is_empty business_id
    then refused (error 400 "business_id is required")
    else (if is_forbidden caller.role caller.business_id business_id
        then refused (error 403 "forbidden")
        else show_subscription business_id
            (query (env.fails load_op) (load_subscription business_id) db))

pub record CheckoutEnv : Type 0 where
  pub hook : HookEnv
  pub secret_key : String
  pub price_starter : String
  pub price_pro : String
  pub success_url : String
  pub cancel_url : String
  pub return_token : String
  pub escape : String → String
  -- The price, the two URLs, the business, the tier and the key: the session's id and URL.
  pub create_session :
      (price success cancel business_id tier idempotency_key : String) → Option (String × String)
  -- The subscription's id and the key: the customer's id, empty if there is none.
  pub cancel_stripe : String → String → Option String

pub cancel_key : Caller → String → String → String
unfolding trim_space is_empty
cancel_key caller business_id stripe_id =
    or_else (trim_space caller.idempotency_key)
      (cat "cancel:" (cat business_id (cat ":" stripe_id)))

pub cancel_event : String → ProviderEvent
cancel_event key = record {
  provider = "internal";
  provider_event_id = key;
  event_type = "subscription.cancel";
}

-- CancelSubscription, from its transaction on.
unfoldable pub store_cancel : CheckoutEnv → Caller → String → String → String → String → Flow Reply
unfolding record_event cancel_event record_audit stripe_transition change finish
store_cancel env caller business_id stripe_id key customer_id =
    record_event env.hook "failed to record cancellation" (cancel_event key)
    >> (record_audit env.hook caller "billing.subscription.cancel.requested" "" business_id (
          ("provider", "stripe")
          ∷ ("stripe_subscription_id", stripe_id)
          ∷ ("idempotency_key", key)
          ∷ [])
        >> (change "failed to apply cancellation" (
              apply_canceled
                (stripe_transition env.hook env.hook.now customer_id stripe_id none none)
                business_id)
            >> finish env.hook))

unfoldable pub canceled_stripe :
    CheckoutEnv → Caller → String → String → String → Option String → Books → Reply × Books
unfolding store_cancel
canceled_stripe env caller business_id stripe_id key none db =
    (error 502 "failed to cancel subscription", db)
canceled_stripe env caller business_id stripe_id key (some customer_id) db =
    in_tx env.hook (store_cancel env caller business_id stripe_id key customer_id) db

unfoldable pub cancel_loaded :
    CheckoutEnv → Caller → String → Result Subscription → Books → Reply × Books
unfolding trim_space is_empty cancel_key canceled_stripe
cancel_loaded env caller business_id (err no_rows) db = (error 404 "subscription not found", db)
cancel_loaded env caller business_id (err e) db = (error 500 "failed to load subscription", db)
cancel_loaded env caller business_id (ok s) db =
    let stripe_id = trim_space s.stripe_subscription_id in
    let key = cancel_key caller business_id stripe_id in
    if is_empty stripe_id
    then (error 409 "no stripe subscription id on record", db)
    else canceled_stripe env caller business_id stripe_id key (env.cancel_stripe stripe_id key) db

-- `asked` is the business of the body, empty if the body is not such JSON.
unfoldable pub cancel_subscription : CheckoutEnv → Caller → String → Books → Reply × Books
unfolding trim_space is_empty is_forbidden load_subscription cancel_loaded
cancel_subscription env caller asked db =
    let own = trim_space caller.business_id in
    let named = trim_space asked in
    let business_id = if caller.role == "admin" && not (is_empty named) then named else own in
    if is_empty env.secret_key
    then (error 501 "stripe billing not configured (STRIPE_SECRET_KEY missing)", db)
    else (if is_empty business_id
        then (error 400 "business_id is required", db)
        else (if is_forbidden caller.role own business_id
            then (error 403 "forbidden", db)
            else cancel_loaded env caller business_id
                (query (env.hook.fails load_op) (load_subscription business_id) db) db))

pub record CheckoutRequest : Type 0 where
  pub tier : String
  pub success_url : String
  pub cancel_url : String

unfoldable pub has_question : String → Bool
has_question String.[] = false
has_question (String.◌∷◌ c s) = eqb (code c) 63 || has_question s

unfoldable pub with_query_param : (String → String) → String → String → String → String
unfolding has_question
with_query_param escape raw key value =
    cat raw (cat (if has_question raw then "&" else "?") (cat key (cat "=" (escape value))))

-- ON CONFLICT (stripe_session_id) DO UPDATE: the return token is not among the columns it sets.
unfoldable pub put_session : ℕ → CheckoutSession → List CheckoutSession → List CheckoutSession
put_session now s [] = s ∷ []
put_session now s (c ∷ rows) =
    let rest = put_session now s rows in
    let row = record c {
      business_id = s.business_id;
      tier = s.tier;
      status = s.status;
      url = s.url;
      updated_at = now;
    } in
    if c.stripe_session_id == s.stripe_session_id then row ∷ rows else c ∷ rest

unfoldable pub upsert_checkout_session : ℕ → CheckoutSession → Statement Books (Unit {0})
unfolding put_session
upsert_checkout_session now s db = ok (tt, record db { sessions = put_session now s db.sessions })

unfoldable pub new_session : CheckoutEnv → String → String → String → String → CheckoutSession
unfolding null_if_empty
new_session env id url business_id tier = record {
  stripe_session_id = id;
  business_id = business_id;
  tier = tier;
  status = "created";
  stripe_customer_id = none;
  stripe_subscription_id = none;
  url = null_if_empty url;
  return_token = null_if_empty env.return_token;
  updated_at = env.hook.now;
  completed_at = none;
  canceled_at = none;
  return_seen_at = none;
  expired_at = none;
}

-- CheckoutStub, from its transaction on.
unfoldable pub store_session :
    CheckoutEnv → Caller → String → String → String → CheckoutSession → Flow Reply
unfolding upsert_checkout_session record_audit
store_session env caller tier business_id url s =
    (run (env.hook.fails session_op) (upsert_checkout_session env.hook.now s)
      >>= expect (error 500 "failed to persist checkout session"))
    >> (record_audit env.hook caller "billing.checkout.created" "" business_id
          (("tier", tier) ∷ ("stripe_session_id", s.stripe_session_id) ∷ [])
        >> finish_with env.hook (opened s.stripe_session_id url))

-- The price of a tier that is sold.
unfoldable pub price_of : CheckoutEnv → String → Option String
price_of env tier =
    if tier == "starter"
    then some env.price_starter
    else (if tier == "pro" then some env.price_pro else none)

unfoldable pub created_session :
    CheckoutEnv → Caller → String → String → Option (String × String) → Books → Reply × Books
unfolding new_session store_session
created_session env caller business_id tier none db =
    (error 502 "failed to create checkout session", db)
created_session env caller business_id tier (some (id, url)) db =
    in_tx env.hook
      (store_session env caller tier business_id url (new_session env id url business_id tier)) db

unfoldable pub checkout_urls :
    CheckoutEnv → Caller → CheckoutRequest → String → String → String → Books → Reply × Books
unfolding trim_space is_empty with_query_param created_session
checkout_urls env caller req business_id tier price db =
    let success = or_else (trim_space req.success_url) env.success_url in
    let cancel = or_else (trim_space req.cancel_url) env.cancel_url in
    if is_empty success || is_empty cancel
    then (error 400 "success_url and cancel_url are required (or configure default URLs)", db)
    else created_session env caller business_id tier
        (env.create_session price (with_query_param env.escape success "state" env.return_token)
          (with_query_param env.escape cancel "state" env.return_token) business_id tier
          (trim_space caller.idempotency_key))
        db

unfoldable pub priced :
    CheckoutEnv → Caller → CheckoutRequest → String → String → Option String → Books → Reply × Books
unfolding trim_space is_empty checkout_urls
priced env caller req business_id tier none db = (error 400 "unsupported tier", db)
priced env caller req business_id tier (some price) db =
    if is_empty (trim_space price)
    then (error 501 "stripe price id not configured for tier", db)
    else checkout_urls env caller req business_id tier price db

unfoldable pub checkout_read : CheckoutEnv → Caller → CheckoutRequest → Books → Reply × Books
unfolding trim_space is_empty price_of priced
checkout_read env caller req db =
    let tier = trim_space (env.hook.to_lower req.tier) in
    let business_id = trim_space caller.business_id in
    if is_empty tier
    then (error 400 "tier is required", db)
    else (if is_empty business_id
        then (error 400 "missing business context", db)
        else priced env caller req business_id tier (price_of env tier) db)

unfoldable pub checkout_stub : CheckoutEnv → Caller → Option CheckoutRequest → Books → Reply × Books
unfolding is_empty checkout_read
checkout_stub env caller req db =
    if is_empty env.secret_key
    then (error 501 "stripe checkout not configured (STRIPE_SECRET_KEY missing)", db)
    else elim req [
      | none ↦ (error 400 "invalid json body", db)
      | some r ↦ checkout_read env caller r db
    ]
