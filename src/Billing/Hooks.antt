-- ===== src/Billing/Hooks.antt =====
-- services/billing-service: LocalWebhook of internal/handlers/billing.go and StripeWebhook of
-- internal/handlers/stripe_webhook.go. The method is the path's one. The check of Stripe's signature
-- and the reading of its JSON are parameters.
use appt_remind.Base.{
  ℕ, zero, suc, Bool, not, ◌&&◌, ◌||◌, Option, none, some, List, [], ◌∷◌, String, ◌==◌,
  if◌then◌else◌,
}
use appt_remind.Base.Text.{is_empty, trim_space}
use appt_remind.Tx.{Statement, ok, begin, next, run, answer, close, ◌>>=◌, ◌>>◌}
use appt_remind.Billing.{null_if_empty, Transition, apply_activated, apply_canceled}
use appt_remind.Billing.Books.{
  ProviderEvent, CheckoutSession, Books, HookEnv, Caller, Reply, error, Flow, begin_op, session_op,
  change_op, record_audit, record_event, change, finish, is_forbidden,
}

pub record LocalEvent : Type 0 where
  pub event_id : String
  pub type : String
  pub business_id : String
  pub tier : String
  pub occurred_at : String

unfoldable pub trim_event : HookEnv → LocalEvent → LocalEvent
unfolding trim_space
trim_event env e = record {
  event_id = trim_space e.event_id;
  type = trim_space e.type;
  business_id = trim_space e.business_id;
  tier = trim_space (env.to_lower e.tier);
  occurred_at = trim_space e.occurred_at;
}

unfoldable pub misses_fields : LocalEvent → Bool
unfolding is_empty
misses_fields e =
    is_empty e.event_id || is_empty e.type || is_empty e.business_id || is_empty e.occurred_at

unfoldable pub local_transition : HookEnv → ℕ → Transition
local_transition env at = record {
  fails = λ op. env.fails (change_op op);
  at = env.format_time at;
  provider = "local";
  stripe_customer_id = "";
  stripe_subscription_id = "";
  period_start = none;
  period_end = none;
}

unfoldable pub activate_local : HookEnv → LocalEvent → ℕ → Flow (Unit {0})
unfolding is_empty local_transition change
activate_local env e at =
    if is_empty e.tier
    then answer (error 400 "tier is required for subscription.activated")
    else change "failed to apply activation"
        (apply_activated (local_transition env at) e.business_id e.tier)

-- The switch on the type.
unfoldable pub apply_local : HookEnv → LocalEvent → ℕ → Flow (Unit {0})
unfolding activate_local local_transition change
apply_local env e at =
    if e.type == "subscription.activated"
    then activate_local env e at
    else (if e.type == "subscription.canceled"
        then change "failed to apply cancellation"
            (apply_canceled (local_transition env at) e.business_id)
        else answer (error 400 "unsupported type"))

unfoldable pub local_event : LocalEvent → ProviderEvent
local_event e = record { provider = "local"; provider_event_id = e.event_id; event_type = e.type }

unfoldable pub local_metadata : HookEnv → LocalEvent → ℕ → List (String × String)
local_metadata env e at =
    ("provider", "local")
    ∷ ("provider_event_id", e.event_id)
    ∷ ("event_type", e.type)
    ∷ ("tier", e.tier)
    ∷ ("occurred_at", env.format_time at)
    ∷ []

unfoldable pub take_local : HookEnv → Caller → LocalEvent → ℕ → Flow Reply
unfolding record_event local_event record_audit local_metadata apply_local finish
take_local env caller e at =
    record_event env "failed to record provider event" (local_event e)
    >> (record_audit env caller "billing.provider.local.webhook" "provider" e.business_id
          (local_metadata env e at)
        >> (apply_local env e at >> finish env))

abbrev pub in_tx : HookEnv → Flow Reply → Books → Reply × Books
in_tx env flow db =
    if env.fails begin_op then (error 500 "db error", db) else close (flow (begin db))

unfoldable pub parsed_local : HookEnv → Caller → LocalEvent → Option ℕ → Books → Reply × Books
unfolding is_forbidden take_local
parsed_local env caller e none db = (error 400 "invalid occurred_at", db)
parsed_local env caller e (some at) db =
    if is_forbidden caller.role caller.business_id e.business_id
    then (error 403 "forbidden", db)
    else in_tx env (take_local env caller e at) db

unfoldable pub trimmed_local : HookEnv → Caller → LocalEvent → Books → Reply × Books
unfolding misses_fields parsed_local
trimmed_local env caller e db =
    if misses_fields e
    then (error 400 "missing required fields", db)
    else parsed_local env caller e (env.parse_time e.occurred_at) db

unfoldable pub local_webhook : HookEnv → Caller → Option LocalEvent → Books → Reply × Books
unfolding trim_event trimmed_local
local_webhook env caller none db = (error 400 "invalid json body", db)
local_webhook env caller (some e) db = trimmed_local env caller (trim_event env e) db

-- stripe.Event, whose signature has been checked. `raw` is the JSON of its object.
pub record StripeEvent : Type 0 where
  pub id : String
  pub type : String
  pub created : ℕ
  pub raw : String

-- What the handler reads of stripe.CheckoutSession; a missing id is empty.
pub record StripeSession : Type 0 where
  pub id : String
  pub business_id : String
  pub tier : String
  pub customer_id : String
  pub subscription_id : String

pub record StripeSubscription : Type 0 where
  pub id : String
  pub status : String
  pub business_id : String
  pub tier : String
  pub customer_id : String
  pub period_start : ℕ
  pub period_end : ℕ

pub record StripeEnv : Type 0 where
  pub hook : HookEnv
  pub webhook_secret : String
  pub construct_event : String → String → Option StripeEvent
  pub read_session : String → Option StripeSession
  pub read_subscription : String → Option StripeSubscription

unfoldable pub stripe_transition : HookEnv → ℕ → String → String → Option ℕ → Option ℕ → Transition
stripe_transition env at customer_id subscription_id start end = record {
  fails = λ op. env.fails (change_op op);
  at = env.format_time at;
  provider = "stripe";
  stripe_customer_id = customer_id;
  stripe_subscription_id = subscription_id;
  period_start = start;
  period_end = end;
}

-- An instant, if it is set.
abbrev pub set_time : ℕ → Option ℕ
set_time zero = none
set_time (suc n) = some (suc n)

unfoldable pub completed_rows :
    HookEnv → StripeSession → ℕ → List CheckoutSession → List CheckoutSession
unfolding null_if_empty
completed_rows env s at [] = []
completed_rows env s at (c ∷ rows) =
    let row = record c {
      status = "completed";
      stripe_customer_id = null_if_empty s.customer_id;
      stripe_subscription_id = null_if_empty s.subscription_id;
      completed_at = some at;
      updated_at = env.now;
    } in
    (if c.stripe_session_id == s.id then row else c) ∷ completed_rows env s at rows

unfoldable pub mark_completed : HookEnv → StripeSession → ℕ → Statement Books (Unit {0})
unfolding completed_rows
mark_completed env s at db = ok (tt, record db { sessions = completed_rows env s at db.sessions })

pub expired_rows : HookEnv → String → ℕ → List CheckoutSession → List CheckoutSession
expired_rows env id at [] = []
expired_rows env id at (c ∷ rows) =
    let row = record c { status = "expired"; expired_at = some at; updated_at = env.now } in
    (if c.stripe_session_id == id && not (c.status == "completed") then row else c)
    ∷ expired_rows env id at rows

unfoldable pub mark_expired : HookEnv → String → ℕ → Statement Books (Unit {0})
unfolding expired_rows
mark_expired env id at db = ok (tt, record db { sessions = expired_rows env id at db.sessions })

-- The error of the mark is dropped.
unfoldable pub complete_session : HookEnv → StripeSession → ℕ → Flow (Unit {0})
unfolding trim_space is_empty mark_completed stripe_transition change
complete_session env s at =
    let business_id = trim_space s.business_id in
    let tier = trim_space (env.to_lower s.tier) in
    if is_empty business_id || is_empty tier
    then next tt
    else (run (env.fails session_op) (mark_completed env s at) >>= λ res.
        change "failed to apply activation" (
          apply_activated (stripe_transition env at s.customer_id s.subscription_id none none)
            business_id tier))

unfoldable pub expire_session : HookEnv → StripeSession → ℕ → Flow (Unit {0})
unfolding mark_expired
expire_session env s at = run (env.fails session_op) (mark_expired env s.id at) >>= λ res. next tt

pub is_entitled : StripeSubscription → Bool
is_entitled s = s.status == "active" || s.status == "trialing"

unfoldable pub activate_subscription : HookEnv → StripeSubscription → ℕ → Flow (Unit {0})
unfolding trim_space is_empty is_entitled stripe_transition change
activate_subscription env s at =
    let business_id = trim_space s.business_id in
    let tier = trim_space (env.to_lower s.tier) in
    if not (is_entitled s) || is_empty business_id || is_empty tier
    then next tt
    else change "failed to apply activation" (
        apply_activated
          (stripe_transition env at s.customer_id s.id (set_time s.period_start)
            (set_time s.period_end))
          business_id tier)

unfoldable pub delete_subscription : HookEnv → StripeSubscription → ℕ → Flow (Unit {0})
unfolding trim_space is_empty stripe_transition change
delete_subscription env s at =
    let business_id = trim_space s.business_id in
    if is_empty business_id
    then next tt
    else change "failed to apply cancellation" (
        apply_canceled
          (stripe_transition env at s.customer_id s.id (set_time s.period_start)
            (set_time s.period_end))
          business_id)

-- An object that cannot be read is skipped.
abbrev pub if_read : {A : Type 0} → Option A → (A → Flow (Unit {0})) → Flow (Unit {0})
if_read none flow = next tt
if_read (some a) flow = flow a

-- The switch on the type; the event is kept though nothing handles it.
unfoldable pub apply_stripe : StripeEnv → StripeEvent → Flow (Unit {0})
unfolding complete_session expire_session activate_subscription delete_subscription
apply_stripe env e =
    if e.type == "checkout.session.completed"
    then if_read (env.read_session e.raw) (λ s. complete_session env.hook s e.created)
    else (if e.type == "checkout.session.expired"
        then if_read (env.read_session e.raw) (λ s. expire_session env.hook s e.created)
        else (if e.type == "customer.subscription.created"
              || e.type == "customer.subscription.updated"
            then if_read (env.read_subscription e.raw)
                (λ s. activate_subscription env.hook s e.created)
            else (if e.type == "customer.subscription.deleted"
                then if_read (env.read_subscription e.raw)
                    (λ s. delete_subscription env.hook s e.created)
                else next tt)))

unfoldable pub stripe_event : StripeEvent → ProviderEvent
stripe_event e = record { provider = "stripe"; provider_event_id = e.id; event_type = e.type }

unfoldable pub stripe_metadata : HookEnv → StripeEvent → List (String × String)
stripe_metadata env e =
    ("provider", "stripe")
    ∷ ("provider_event_id", e.id)
    ∷ ("event_type", e.type)
    ∷ ("occurred_at", env.format_time e.created)
    ∷ []

unfoldable pub take_stripe : StripeEnv → Caller → StripeEvent → Flow Reply
unfolding record_event stripe_event record_audit stripe_metadata apply_stripe finish
take_stripe env caller e =
    record_event env.hook "failed to record provider event" (stripe_event e)
    >> (record_audit env.hook caller "billing.provider.stripe.webhook" "provider" ""
          (stripe_metadata env.hook e)
        >> (apply_stripe env e >> finish env.hook))

unfoldable pub verified_stripe : StripeEnv → Caller → Option StripeEvent → Books → Reply × Books
unfolding take_stripe
verified_stripe env caller none db = (error 400 "invalid signature", db)
verified_stripe env caller (some e) db = in_tx env.hook (take_stripe env caller e) db

-- `none` is a body that cannot be read.
unfoldable pub stripe_webhook : StripeEnv → Caller → String → Option String → Books → Reply × Books
unfolding trim_space is_empty verified_stripe
stripe_webhook env caller signature body db =
    if is_empty (trim_space env.webhook_secret)
    then (error 503 "stripe webhook not configured", db)
    else (if is_empty (trim_space signature)
        then (error 400 "missing Stripe-Signature header", db)
        else elim body [
          | none ↦ (error 400 "failed to read request body", db)
          | some b ↦ verified_stripe env caller (env.construct_event b signature) db
        ])
