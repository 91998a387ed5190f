-- ===== src/Billing/Tests.antt =====
-- Runs of the transitions of a subscription.
use appt_remind.Base.{◌≡◌, refl, false, some, none, [], ◌∷◌, ◌++◌}
use appt_remind.Base.Text.{is_empty}
use appt_remind.Billing.{Transition, Ledger, find_subscription, apply_activated, apply_canceled}
use appt_remind.Billing.Announced.{
  IsAnnounced, apply_activated-IsAnnounced, apply_canceled-IsAnnounced,
}

abbrev by_hand : Transition
by_hand = record {
  fails = λ op. false;
  at = "now";
  provider = "";
  stripe_customer_id = "";
  stripe_subscription_id = "";
  period_start = none;
  period_end = none;
}

abbrev nothing : Ledger
nothing = record { subscriptions = []; outbox = [] }

nothing-IsAnnounced : IsAnnounced nothing
nothing-IsAnnounced b s e = unfold find_subscription in cc

abbrev after_pro : Ledger
after_pro = record {
  subscriptions =
      record {
        business_id = "b";
        tier = "pro";
        status = "active";
        provider = "local";
        stripe_customer_id = "";
        stripe_subscription_id = "";
        period_start = none;
        period_end = none;
      }
      ∷ [];
  outbox =
      record {
        aggregate_type = "subscription";
        aggregate_id = "b";
        event_type = "billing.subscription.activated.v1";
        payload = record {
          business_id = "b";
          tier = "pro";
          max_monthly_appointments = 2000;
          at = "now";
        };
      }
      ∷ [];
}

activated_pro : apply_activated by_hand "b" "pro" nothing ≡ some after_pro
unfolding apply_activated is_empty
activated_pro = refl

-- Once more, and no event is written.
activated_again : apply_activated by_hand "b" "pro" after_pro ≡ some after_pro
unfolding apply_activated is_empty
activated_again = refl

apply_activated-IsAnnounced_example : IsAnnounced after_pro
apply_activated-IsAnnounced_example =
    apply_activated-IsAnnounced by_hand "b" "pro" nothing after_pro nothing-IsAnnounced
      activated_pro

after_pro-IsAnnounced : IsAnnounced after_pro
after_pro-IsAnnounced =
    apply_activated-IsAnnounced by_hand "b" "pro" nothing after_pro nothing-IsAnnounced
      activated_pro

abbrev after_free : Ledger
after_free = record {
  subscriptions =
      record {
        business_id = "b";
        tier = "free";
        status = "canceled";
        provider = "local";
        stripe_customer_id = "";
        stripe_subscription_id = "";
        period_start = none;
        period_end = none;
      }
      ∷ [];
  outbox =
      after_pro.outbox
      ++ record {
        aggregate_type = "subscription";
        aggregate_id = "b";
        event_type = "billing.subscription.canceled.v1";
        payload = record {
          business_id = "b";
          tier = "free";
          max_monthly_appointments = 200;
          at = "now";
        };
      }
        ∷ [];
}

canceled_pro : apply_canceled by_hand "b" after_pro ≡ some after_free
unfolding apply_canceled is_empty
canceled_pro = refl

apply_canceled-IsAnnounced_example : IsAnnounced after_free
apply_canceled-IsAnnounced_example =
    apply_canceled-IsAnnounced by_hand "b" after_pro after_free after_pro-IsAnnounced canceled_pro
