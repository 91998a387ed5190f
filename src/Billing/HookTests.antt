-- ===== src/Billing/HookTests.antt =====
-- Runs of the webhooks, the cancellation and the return page.
use appt_remind.Base.{◌≡◌, refl, false, none, some, ◌==◌, if◌then◌else◌, [], ◌∷◌}
use appt_remind.Base.Text.{trim_space, is_empty, cat}
use appt_remind.Tx.{exec, commit}
use appt_remind.Billing.{
  null_if_empty, default_if_empty, find_subscription, apply_activated, apply_change,
  put_subscription, subscription_of, change_event, limits_for_tier, is_same,
}
use appt_remind.Billing.Books.{
  Books, HookEnv, Caller, done, error, has_event, insert_provider_event, insert_audit_event,
  inserted, record_event, record_audit, audit_row, request_entry, transition, change, finish,
  is_forbidden, CheckoutSession,
}
use appt_remind.Billing.Hooks.{
  LocalEvent, trim_event, misses_fields, parsed_local, trimmed_local, take_local, local_event,
  local_metadata, activate_local, apply_local, local_transition, local_webhook, StripeEvent,
  StripeEnv, stripe_event, stripe_metadata, stripe_transition, apply_stripe, complete_session,
  mark_completed, completed_rows, take_stripe, verified_stripe, stripe_webhook,
}
use appt_remind.Billing.Checkout.{
  CheckoutEnv, checkout_stub, checkout_read, price_of, priced, checkout_urls, with_query_param,
  has_question, created_session, new_session, store_session, upsert_checkout_session, put_session,
  get_subscription, load_subscription, show_subscription, shown, cancel_subscription, cancel_loaded,
}
use appt_remind.Billing.Return.{
  Ack, acknowledge, store_return, ack_checkout_return, returned_rows, is_returned, returned,
  checkout_session_status, get_checkout_session, find_session, show_session, state_of,
}
use appt_remind.Billing.Guarded.{IsGuarded, acknowledge-IsGuarded}
use appt_remind.Billing.Heard.{IsHeard, serve-IsHeard, serve, local_request}
use appt_remind.Billing.Once.{stripe_webhook_once, local_webhook_once}

abbrev hook : HookEnv
hook = record {
  fails = λ op. false;
  now = 7;
  to_lower = λ s. s;
  parse_time = λ s. if s == "5" then some 5 else none;
  format_time = λ at. "T";
}

abbrev caller : Caller
caller = record {
  role = "owner";
  user_id = "u";
  business_id = "b";
  request_id = "";
  idempotency_key = "";
}

abbrev empty : Books
empty = record {
  ledger = record { subscriptions = []; outbox = [] };
  events = [];
  audits = [];
  sessions = [];
}

abbrev activation : LocalEvent
activation = record {
  event_id = " e1 ";
  type = "subscription.activated";
  business_id = "b";
  tier = "pro";
  occurred_at = "5";
}

activated : (local_webhook hook caller (some activation) empty).0 ≡ done
unfolding local_webhook trim_event trimmed_local misses_fields trim_space is_empty parsed_local
    is_forbidden take_local record_event local_event insert_provider_event has_event inserted
    record_audit insert_audit_event audit_row null_if_empty request_entry local_metadata apply_local
    activate_local change transition local_transition apply_activated apply_change find_subscription
    put_subscription subscription_of default_if_empty change_event limits_for_tier is_same finish
    exec commit
activated = refl

local_webhook_once_example :
    let first = (local_webhook hook caller (some activation) empty).1 in
    (local_webhook hook caller (some activation) first).1 ≡ first
local_webhook_once_example =
    local_webhook_once hook hook caller caller activation activation empty refl activated

abbrev stripe : StripeEnv
stripe = record {
  hook = hook;
  webhook_secret = "s";
  construct_event = λ body signature.
      some record { id = body; type = "checkout.session.completed"; created = 5; raw = "" };
  read_session = λ raw. some record {
    id = "cs";
    business_id = "b";
    tier = "pro";
    customer_id = "c";
    subscription_id = "sub";
  };
  read_subscription = λ raw. none;
}

completed : (stripe_webhook stripe caller "sig" (some "evt") empty).0 ≡ done
unfolding stripe_webhook trim_space is_empty verified_stripe take_stripe record_event stripe_event
    insert_provider_event has_event inserted record_audit insert_audit_event audit_row null_if_empty
    request_entry stripe_metadata apply_stripe complete_session mark_completed completed_rows change
    transition stripe_transition apply_activated apply_change find_subscription put_subscription
    subscription_of default_if_empty change_event limits_for_tier is_same finish exec commit
completed = refl

abbrev completion : StripeEvent
completion = record { id = "evt"; type = "checkout.session.completed"; created = 5; raw = "" }

stripe_webhook_once_example :
    let first = (stripe_webhook stripe caller "sig" (some "evt") empty).1 in
    (stripe_webhook stripe caller "other" (some "evt") first).1 ≡ first
stripe_webhook_once_example =
    stripe_webhook_once stripe stripe caller caller "sig" "evt" "other" "evt" completion completion
      empty refl refl refl completed

serve-IsHeard_example : IsHeard (serve (local_request hook caller (some activation)) empty).1
unfolding find_subscription
serve-IsHeard_example =
    serve-IsHeard (local_request hook caller (some activation)) empty (λ b s e. cc)

abbrev checkout : CheckoutEnv
checkout = record {
  hook = hook;
  secret_key = "k";
  price_starter = "p1";
  price_pro = "p2";
  success_url = "https://a/ok?x=1";
  cancel_url = "https://a/no";
  return_token = "tok";
  escape = λ s. s;
  create_session = λ price success cancel business_id tier key. some ("cs", cat success cancel);
  cancel_stripe = λ id key. some "c";
}

abbrev opened_session : CheckoutSession
opened_session = record {
  stripe_session_id = "cs";
  business_id = "b";
  tier = "pro";
  status = "created";
  stripe_customer_id = none;
  stripe_subscription_id = none;
  url = some "https://a/ok?x=1&state=tokhttps://a/no?state=tok";
  return_token = some "tok";
  updated_at = 7;
  completed_at = none;
  canceled_at = none;
  return_seen_at = none;
  expired_at = none;
}

checked_out :
    (checkout_stub checkout caller
      (some record { tier = "pro"; success_url = ""; cancel_url = "" })
      empty).1.sessions
    ≡ opened_session ∷ []
unfolding checkout_stub checkout_read trim_space is_empty price_of priced checkout_urls
    with_query_param has_question created_session new_session null_if_empty store_session
    upsert_checkout_session put_session record_audit insert_audit_event audit_row request_entry exec
    commit
checked_out = refl

abbrev with_session : Books
with_session = record empty { sessions = opened_session ∷ [] }

abbrev given_up : Ack
given_up = record { session_id = "cs"; state = "tok"; result = "cancel" }

canceled :
    (acknowledge hook (some given_up) with_session).1.sessions
    ≡ record opened_session { status = "canceled"; canceled_at = some 7; return_seen_at = some 7 }
      ∷ []
unfolding acknowledge trim_space is_empty store_return ack_checkout_return returned_rows is_returned
    returned finish exec commit
canceled = refl

acknowledge-IsGuarded_example :
    IsGuarded "cs" "tok" with_session (acknowledge hook (some given_up) with_session).1
unfolding trim_space
acknowledge-IsGuarded_example = acknowledge-IsGuarded hook given_up with_session

-- A wrong token.
not_canceled :
    (acknowledge hook (some record given_up { state = "guess" }) with_session).1 ≡ with_session
unfolding acknowledge trim_space is_empty store_return ack_checkout_return returned_rows is_returned
    returned finish exec commit
not_canceled = refl

free_by_default :
    get_subscription hook caller "" empty ≡ shown "b" "free" "none" (limits_for_tier "free")
unfolding get_subscription trim_space is_empty is_forbidden load_subscription find_subscription
    show_subscription
free_by_default = refl

no_subscription :
    cancel_subscription checkout caller "" empty ≡ (error 404 "subscription not found", empty)
unfolding cancel_subscription trim_space is_empty is_forbidden load_subscription find_subscription
    cancel_loaded
no_subscription = refl

session_status :
    checkout_session_status hook " cs " with_session
    ≡ state_of "cs" "pro" "created" 7 none none none
unfolding checkout_session_status trim_space is_empty get_checkout_session find_session show_session
session_status = refl
