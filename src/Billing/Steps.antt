-- ===== src/Billing/Steps.antt =====
-- The webhooks' steps after the record of the event, for any property that their statements keep.
use appt_remind.Base.{
  ◌≡◌, ℕ, Bool, false, ◌||◌, Option, none, some, inl, inr, Option-cases, List, String, ◌==◌,
}
use appt_remind.Base.Text.{is_empty, trim_space}
use appt_remind.Tx.{ok, Statement, Tx, run}
use appt_remind.Tx.Kept.{
  Keeps, Leads, Allows, expect-Leads, next-Leads, answer-Leads, bind-Leads, if-Leads,
}
use appt_remind.Billing.{Transition, Ledger, apply_activated, apply_canceled}
use appt_remind.Billing.Books.{
  ProviderEvent, AuditEvent, CheckoutSession, Books, HookEnv, Caller, Reply, error, Flow,
  session_op, insert_provider_event, insert_audit_event, audit_row, record_audit, transition,
  change, audit_op,
}
use appt_remind.Billing.Hooks.{
  LocalEvent, local_transition, activate_local, apply_local, StripeEvent, StripeSession,
  StripeSubscription, StripeEnv, stripe_transition, completed_rows, expired_rows, mark_completed,
  mark_expired, complete_session, expire_session, activate_subscription, delete_subscription,
  if_read, apply_stripe,
}

-- What a transition writes that succeeds.
pub transition_rows :
    (f : Ledger → Option Ledger) (a : Unit {0}) (d e : Books)
    → transition f d ≡ ok (a, e)
    → (l : Ledger) × (f d.ledger ≡ some l) × (e ≡ record d { ledger = l })
unfolding transition
transition_rows f a d e h = elim (Option-cases (f d.ledger)) [
  | inl n ↦ let g = rw (n, transition) at h in cc
  | inr (l, n) ↦ let g = rw (n, transition) at h in (l, n, cc)
]

-- What the statements of the billing handlers keep.
pub record Kept (Inv : Books → Type 0) : Type 0 where
  pub events : (e : ProviderEvent) → Keeps Inv (insert_provider_event e)
  pub audits : (a : AuditEvent) → Keeps Inv (insert_audit_event a)
  pub sessions :
      (db : Books) (rows : List CheckoutSession) → Inv db → Inv (record db { sessions = rows })
  pub activated :
      (c : Transition) (business_id tier : String)
      → Keeps Inv (transition (apply_activated c business_id tier))
  pub canceled :
      (c : Transition) (business_id : String)
      → Keeps Inv (transition (apply_canceled c business_id))

module _ (Inv : Books → Type 0) (S : Tx Books → Type 0) (P : Reply → Tx Books → Type 0) where
  -- The property of the transaction is kept by such statements, and the errors promise nothing more.
  pub record Steps : Type 1 where
    pub kept : Kept Inv
    pub errors : (n : ℕ) (text : String) → Allows S P (error n text)
    pub runs :
        {A : Type 0} (fails : Bool) (stmt : Statement Books A)
        → Keeps Inv stmt
        → Leads S P (run fails stmt)

  module _ (steps : Steps) where
    change-Leads :
        (broken : String) (f : Ledger → Option Ledger)
        → Keeps Inv (transition f)
        → Leads S P (change broken f)
    unfolding change
    change-Leads broken f keeps =
        bind-Leads S P (steps.runs false (transition f) keeps)
          (λ res. expect-Leads S P (error 500 broken) res (steps.errors 500 broken))

    pub record_audit-Leads :
        (env : HookEnv) (caller : Caller) (event_type actor_type business_id : String)
        (metadata : List (String × String))
        → Leads S P (record_audit env caller event_type actor_type business_id metadata)
    unfolding record_audit
    record_audit-Leads env caller event_type actor_type business_id metadata =
        let row = audit_row caller event_type actor_type business_id metadata in
        bind-Leads S P
          (steps.runs (env.fails audit_op) (insert_audit_event row) (steps.kept.audits row))
          (λ res.
            expect-Leads S P (error 500 "failed to record audit event") res
              (steps.errors 500 "failed to record audit event"))

    activated-Leads :
        (c : Transition) (business_id tier : String)
        → Leads S P (change "failed to apply activation" (apply_activated c business_id tier))
    activated-Leads c business_id tier =
        change-Leads _ (apply_activated c business_id tier)
          (steps.kept.activated c business_id tier)

    pub canceled-Leads :
        (c : Transition) (business_id : String)
        → Leads S P (change "failed to apply cancellation" (apply_canceled c business_id))
    canceled-Leads c business_id =
        change-Leads _ (apply_canceled c business_id) (steps.kept.canceled c business_id)

    pub apply_local-Leads :
        (env : HookEnv) (e : LocalEvent) (at : ℕ) → Leads S P (apply_local env e at)
    unfolding apply_local activate_local
    apply_local-Leads env e at =
        if-Leads S P (e.type == "subscription.activated")
          (if-Leads S P (is_empty e.tier) (answer-Leads S P _ (steps.errors 400 _))
            (activated-Leads (local_transition env at) e.business_id e.tier))
          (if-Leads S P (e.type == "subscription.canceled")
            (canceled-Leads (local_transition env at) e.business_id)
            (answer-Leads S P _ (steps.errors 400 _)))

    sessions-Keeps :
        (f : List CheckoutSession → List CheckoutSession)
        → Keeps Inv (λ db. ok (tt, record db { sessions = f db.sessions }))
    sessions-Keeps f a d e h i =
        let same : e ≡ record d { sessions = f d.sessions } = cc in
        rw same (steps.kept.sessions d _ i)

    complete_session-Leads :
        (env : HookEnv) (s : StripeSession) (at : ℕ) → Leads S P (complete_session env s at)
    unfolding complete_session mark_completed
    complete_session-Leads env s at = if-Leads S P _ (next-Leads S P tt) (
        bind-Leads S P
          (steps.runs (env.fails session_op) (mark_completed env s at)
            (sessions-Keeps (completed_rows env s at)))
          (λ res.
            activated-Leads (stripe_transition env at s.customer_id s.subscription_id none none)
              (trim_space s.business_id) (trim_space (env.to_lower s.tier))))

    expire_session-Leads :
        (env : HookEnv) (s : StripeSession) (at : ℕ) → Leads S P (expire_session env s at)
    unfolding expire_session mark_expired
    expire_session-Leads env s at =
        bind-Leads S P
          (steps.runs (env.fails session_op) (mark_expired env s.id at)
            (sessions-Keeps (expired_rows env s.id at)))
          (λ res. next-Leads S P tt)

    activate_subscription-Leads :
        (env : HookEnv) (s : StripeSubscription) (at : ℕ)
        → Leads S P (activate_subscription env s at)
    unfolding activate_subscription
    activate_subscription-Leads env s at =
        if-Leads S P _ (next-Leads S P tt) (activated-Leads _ _ _)

    delete_subscription-Leads :
        (env : HookEnv) (s : StripeSubscription) (at : ℕ) → Leads S P (delete_subscription env s at)
    unfolding delete_subscription
    delete_subscription-Leads env s at = if-Leads S P _ (next-Leads S P tt) (canceled-Leads _ _)

    if_read-Leads :
        {A : Type 0} (o : Option A) (flow : A → Flow (Unit {0}))
        → ((a : A) → Leads S P (flow a))
        → Leads S P (if_read o flow)
    if_read-Leads none flow each = next-Leads S P tt
    if_read-Leads (some a) flow each = each a

    pub apply_stripe-Leads : (env : StripeEnv) (e : StripeEvent) → Leads S P (apply_stripe env e)
    unfolding apply_stripe
    apply_stripe-Leads env e =
        if-Leads S P (e.type == "checkout.session.completed")
          (if_read-Leads (env.read_session e.raw) _
            (λ s. complete_session-Leads env.hook s e.created))
          (if-Leads S P (e.type == "checkout.session.expired")
            (if_read-Leads (env.read_session e.raw) _
              (λ s. expire_session-Leads env.hook s e.created))
            (if-Leads S P
              (e.type == "customer.subscription.created"
                || e.type == "customer.subscription.updated")
              (if_read-Leads (env.read_subscription e.raw) _
                (λ s. activate_subscription-Leads env.hook s e.created))
              (if-Leads S P (e.type == "customer.subscription.deleted")
                (if_read-Leads (env.read_subscription e.raw) _
                  (λ s. delete_subscription-Leads env.hook s e.created))
                (next-Leads S P tt))))
