-- ===== src/Billing.antt =====
-- services/billing-service: the limits of a tier (internal/entitlements/limits.go), the rows of
-- subscriptions (internal/storage/repository.go) and the transitions of a subscription with their
-- events (internal/subscriptions/service.go).
-- A transition runs in its caller's transaction. A statement's error ends it, `none`, and PostgreSQL
-- then refuses the commit, so the rows at that point are not kept.
pub mod Announced
pub mod Books
pub mod Hooks
pub mod Steps
pub mod Recorded
pub mod Once
pub mod Checkout
pub mod Return
pub mod Guarded
pub mod Heard
mod Tests
mod HookTests
use appt_remind.Base.{
  ℕ, Bool, true, false, ◌&&◌, Option, none, some, List, [], ◌∷◌, ◌++◌, String, ◌==◌, if◌then◌else◌,
}
use appt_remind.Base.Text.{is_empty, trim_space}

pub record Limits : Type 0 where
  pub tier : String
  pub max_staff : ℕ
  pub max_services : ℕ
  pub max_monthly_appointments : ℕ

pub limits_for_tier : String → Limits
limits_for_tier tier =
    if tier == "starter"
    then record { tier = "starter"; max_staff = 1; max_services = 3; max_monthly_appointments = 1 }
    else (if tier == "pro"
        then record {
          tier = "pro";
          max_staff = 25;
          max_services = 100;
          max_monthly_appointments = 2000;
        }
        else record {
          tier = "free";
          max_staff = 3;
          max_services = 10;
          max_monthly_appointments = 200;
        })

-- A row of `subscriptions`. A missing Stripe id is read as the empty text.
pub record Subscription : Type 0 where
  pub business_id : String
  pub tier : String
  pub status : String
  pub provider : String
  pub stripe_customer_id : String
  pub stripe_subscription_id : String
  pub period_start : Option ℕ
  pub period_end : Option ℕ

-- What the event's JSON holds; `at` is `activated_at` or `canceled_at`.
pub record Change : Type 0 where
  pub business_id : String
  pub tier : String
  pub max_monthly_appointments : ℕ
  pub at : String

pub record Event : Type 0 where
  pub aggregate_type : String
  pub aggregate_id : String
  pub event_type : String
  pub payload : Change

pub record Ledger : Type 0 where
  pub subscriptions : List Subscription
  pub outbox : List Event

pub data BillingOp : Type 0 where
  select_op upsert_op event_op : BillingOp

-- What a transition is called with, beside its business and its tier.
pub record Transition : Type 0 where
  pub fails : BillingOp → Bool
  pub at : String
  pub provider : String
  pub stripe_customer_id : String
  pub stripe_subscription_id : String
  pub period_start : Option ℕ
  pub period_end : Option ℕ

-- GetSubscriptionForUpdate: no row is no error.
pub find_subscription : String → List Subscription → Option Subscription
find_subscription business_id [] = none
find_subscription business_id (s ∷ rows) =
    if s.business_id == business_id then some s else find_subscription business_id rows

-- INSERT … ON CONFLICT (business_id) DO UPDATE.
pub put_subscription : Subscription → List Subscription → List Subscription
put_subscription s [] = s ∷ []
put_subscription s (t ∷ rows) =
    let rest = put_subscription s rows in
    if t.business_id == s.business_id then s ∷ rows else t ∷ rest

pub null_if_empty : String → Option String
unfolding trim_space is_empty
null_if_empty s = if is_empty (trim_space s) then none else some s

pub default_if_empty : String → String → String
unfolding trim_space is_empty
default_if_empty s fallback = if is_empty (trim_space s) then fallback else s

-- `COALESCE(column, '')`.
abbrev coalesce : Option String → String
coalesce none = ""
coalesce (some s) = s

-- UpsertSubscription's row, the ids of Stripe the way that each SELECT reads them back.
pub subscription_of : Transition → String → String → String → Subscription
unfolding null_if_empty default_if_empty
subscription_of c business_id tier status = record {
  business_id = business_id;
  tier = tier;
  status = status;
  provider = default_if_empty c.provider "local";
  stripe_customer_id = coalesce (null_if_empty c.stripe_customer_id);
  stripe_subscription_id = coalesce (null_if_empty c.stripe_subscription_id);
  period_start = c.period_start;
  period_end = c.period_end;
}

pub change_event : Transition → String → String → String → Event
unfolding limits_for_tier
change_event c business_id tier event_type =
    let limits = limits_for_tier tier in
    record {
      aggregate_type = "subscription";
      aggregate_id = business_id;
      event_type = event_type;
      payload = record {
        business_id = business_id;
        tier = limits.tier;
        max_monthly_appointments = limits.max_monthly_appointments;
        at = c.at;
      };
    }

-- `ok && existing.Status == status && existing.Tier == tier`.
pub is_same : Option Subscription → String → String → Bool
is_same none tier status = false
is_same (some s) tier status = s.status == status && s.tier == tier

-- The part that ApplyActivated and ApplyCanceled share, with their tier, status and event type.
pub apply_change : Transition → String → String → String → String → Ledger → Option Ledger
unfolding find_subscription put_subscription subscription_of change_event is_same
apply_change c business_id tier status event_type l =
    let existing = find_subscription business_id l.subscriptions in
    let rows = put_subscription (subscription_of c business_id tier status) l.subscriptions in
    if c.fails select_op
    then none
    else (if c.fails upsert_op
        then none
        else (if is_same existing tier status
            then some (record l { subscriptions = rows })
            else (if c.fails event_op
                then none
                else some (record {
                  subscriptions = rows;
                  outbox = l.outbox ++ change_event c business_id tier event_type ∷ [];
                }))))

pub apply_activated : Transition → String → String → Ledger → Option Ledger
unfolding apply_change
apply_activated c business_id tier l =
    apply_change c business_id tier "active" "billing.subscription.activated.v1" l

pub apply_canceled : Transition → String → Ledger → Option Ledger
unfolding apply_change
apply_canceled c business_id l =
    apply_change c business_id "free" "canceled" "billing.subscription.canceled.v1" l
