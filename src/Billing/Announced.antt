-- ===== src/Billing/Announced.antt =====
-- The events of subscriptions.service keep their readers up to date with the rows.
use appt_remind.Base.{
  ℕ, ◌≡◌, refl, subst, ◌⊎◌, inl, inr, true, Option, none, some, List, [], ◌∷◌, ◌++◌, String, ◌==◌,
  if◌then◌else◌, arith, eq_iff,
}
use appt_remind.Billing.{
  limits_for_tier, Subscription, Event, Ledger, Transition, find_subscription, put_subscription,
  subscription_of, change_event, is_same, apply_change, apply_activated, apply_canceled,
}

-- The last change that the events announce of a business: the tier and the monthly appointments.
abbrev pub announced : String → List Event → Option (String × ℕ)
announced business_id [] = none
announced business_id (e ∷ events) = elim (announced business_id events) [
  | some x ↦ some x
  | none ↦
      if e.payload.business_id == business_id
      then some (e.payload.tier, e.payload.max_monthly_appointments)
      else none
]

-- What a reader has heard last of a business are the limits of the tier in its row.
abbrev pub IsAnnounced : Ledger → Type 0
IsAnnounced l =
    (business_id : String) (s : Subscription)
    → find_subscription business_id l.subscriptions ≡ some s
    → announced business_id l.outbox
      ≡ some ((limits_for_tier s.tier).tier, (limits_for_tier s.tier).max_monthly_appointments)

announced-append :
    (business_id : String) (events : List Event) (e : Event)
    → announced business_id (events ++ e ∷ []) ≡ (
        if e.payload.business_id == business_id
        then some (e.payload.tier, e.payload.max_monthly_appointments)
        else announced business_id events)
announced-append business_id [] e = ground arith
announced-append business_id (f ∷ events) e =
    rw (announced-append business_id events e) (ground arith)

find_subscription-put_subscription :
    (business_id : String) (s : Subscription) (rows : List Subscription)
    → find_subscription business_id (put_subscription s rows)
      ≡ (if s.business_id == business_id then some s else find_subscription business_id rows)
unfolding find_subscription put_subscription
find_subscription-put_subscription business_id s [] = refl
find_subscription-put_subscription business_id s (t ∷ rows) = ground (
  arith,
  find_subscription-put_subscription business_id s rows,
  eq_iff t.business_id s.business_id,
  eq_iff t.business_id business_id,
  eq_iff s.business_id business_id,
)

same_tier :
    (found : Option Subscription) (tier status : String)
    → is_same found tier status ≡ true
    → (x : Subscription) × (found ≡ some x) × (x.tier ≡ tier)
unfolding is_same
same_tier none tier status e = cc
same_tier (some x) tier status e = (x, refl, ground (arith, eq_iff x.tier tier))

module _ (c : Transition) (business_id tier status event_type : String) (l : Ledger)
    (h : IsAnnounced l) where
  abbrev changed : List Subscription
  changed = put_subscription (subscription_of c business_id tier status) l.subscriptions

  abbrev silent : Ledger
  silent = record l { subscriptions = changed }

  abbrev loud : Ledger
  loud = record {
    subscriptions = changed;
    outbox = l.outbox ++ change_event c business_id tier event_type ∷ [];
  }

  silent-IsAnnounced :
      is_same (find_subscription business_id l.subscriptions) tier status ≡ true
      → IsAnnounced silent
  unfolding subscription_of
  silent-IsAnnounced e other s f =
      let (x, found, t) = same_tier (find_subscription business_id l.subscriptions) tier status e in
      let g =
        rw
          (find_subscription-put_subscription other (subscription_of c business_id tier status)
            l.subscriptions)
          at f in
      ground (arith, h business_id x found, h other s, eq_iff business_id other)

  loud-IsAnnounced : IsAnnounced loud
  unfolding subscription_of change_event
  loud-IsAnnounced other s f =
      let g =
        rw
          (find_subscription-put_subscription other (subscription_of c business_id tier status)
            l.subscriptions)
          at f in
      rw (announced-append other l.outbox (change_event c business_id tier event_type))
        (ground (arith, h other s))

  -- A transition that succeeds is silent, as nothing changed, or announces the change.
  apply_change_cases :
      (after : Ledger)
      → apply_change c business_id tier status event_type l ≡ some after
      → ((is_same (find_subscription business_id l.subscriptions) tier status ≡ true)
          × (silent ≡ after))
        ⊎ (loud ≡ after)
  unfolding apply_change
  apply_change_cases after e = ground arith

  apply_change-IsAnnounced :
      (after : Ledger)
      → apply_change c business_id tier status event_type l ≡ some after
      → IsAnnounced after
  apply_change-IsAnnounced after e = elim (apply_change_cases after e) [
    | inl (same, p) ↦ subst IsAnnounced p (silent-IsAnnounced same)
    | inr p ↦ subst IsAnnounced p loud-IsAnnounced
  ]

-- If the last event of every business with a row says the limits of the row's tier, this still
-- holds after activating a subscription without an error, also where the event is left out since
-- nothing changed.
pub apply_activated-IsAnnounced :
    (c : Transition) (business_id tier : String) (l after : Ledger)
    → IsAnnounced l
    → apply_activated c business_id tier l ≡ some after
    → IsAnnounced after
unfolding apply_activated
apply_activated-IsAnnounced c business_id tier l after h e =
    apply_change-IsAnnounced c business_id tier "active" "billing.subscription.activated.v1" l h
      after e

-- If the last event of every business with a row says the limits of the row's tier, this still
-- holds after canceling a subscription without an error, also where the event is left out since
-- nothing changed.
pub apply_canceled-IsAnnounced :
    (c : Transition) (business_id : String) (l after : Ledger)
    → IsAnnounced l
    → apply_canceled c business_id l ≡ some after
    → IsAnnounced after
unfolding apply_canceled
apply_canceled-IsAnnounced c business_id l after h e =
    apply_change-IsAnnounced c business_id "free" "canceled" "billing.subscription.canceled.v1" l h
      after e
