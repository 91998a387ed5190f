-- ===== src/Billing/Heard.antt =====
-- internal/handlers: the events of subscriptions keep their readers up to date under every request.
use appt_remind.Base.{
  ◌≡◌, inl, inr, ◌⊎◌, ℕ, Bool, true, false, not, ◌&&◌, Option, none, some, [], ◌∷◌, ◌++◌, String,
  ◌==◌, if◌then◌else◌, Bool-cases, Option-cases,
}
use appt_remind.Base.Text.{is_empty, trim_space}
use appt_remind.Tx.{
  no_rows, exclusion_violation, unique_violation, failure, Result, ok, err, Tx, begin, commit, ◌>>◌,
}
use appt_remind.Tx.Rules.{Ensures-imp}
use appt_remind.Tx.Kept.{Holds, Leads, run-Safe, commit-Holds, expect-Leads, bind-Leads, seq-Leads}
use appt_remind.Billing.{Subscription, apply_activated, apply_canceled}
use appt_remind.Billing.Announced.{
  IsAnnounced, apply_activated-IsAnnounced, apply_canceled-IsAnnounced,
}
use appt_remind.Billing.Books.{
  ProviderEvent, Books, has_event, HookEnv, Caller, Reply, error, done, Flow, provider_op,
  commit_op, insert_provider_event, insert_audit_event, inserted, record_event, finish, finish_with,
  is_forbidden, load_op,
}
use appt_remind.Billing.Hooks.{
  LocalEvent, local_event, local_metadata, take_local, parsed_local, trimmed_local, trim_event,
  misses_fields, local_webhook, in_tx, StripeEvent, StripeEnv, stripe_event, stripe_metadata,
  take_stripe, verified_stripe, stripe_webhook, stripe_transition,
}
use appt_remind.Billing.Checkout.{
  CheckoutEnv, cancel_key, cancel_event, store_cancel, canceled_stripe, cancel_loaded,
  cancel_subscription, query, load_subscription,
}
use appt_remind.Billing.Steps.{
  transition_rows, Kept, Steps, record_audit-Leads, canceled-Leads, apply_stripe-Leads,
  apply_local-Leads,
}
use appt_remind.Billing.Recorded.{insert_provider_event_rows, closed-Ensures}

-- The invariant of Announced, of the rows of every handler.
abbrev pub IsHeard : Books → Type 0
IsHeard db = IsAnnounced db.ledger

IsHeard-Kept : Kept IsHeard
unfolding insert_audit_event
IsHeard-Kept = record {
  events = λ e b d f h i. event e b d f (insert_provider_event_rows e b d f h) i;
  audits = λ a u d e h i. let same : e ≡ record d { audits = d.audits ++ a ∷ [] } = cc in rw same i;
  sessions = λ db rows i. i;
  activated = λ c b t u d e h i.
      let (l, n, same) = transition_rows (apply_activated c b t) u d e h in
      rw same (apply_activated-IsAnnounced c b t d.ledger l i n);
  canceled = λ c b u d e h i.
      let (l, n, same) = transition_rows (apply_canceled c b) u d e h in
      rw same (apply_canceled-IsAnnounced c b d.ledger l i n);
}
  where
    event :
        (e : ProviderEvent) (b : Bool) (d f : Books)
        → ((b ≡ false) × (f ≡ d))
          ⊎ ((b ≡ true)
              × (f ≡ record d { events = d.events ++ e ∷ [] })
              × (has_event e.provider e.provider_event_id d.events ≡ false))
        → IsHeard d
        → IsHeard f
    event e b d f (inl (x, same)) i = rw same i
    event e b d f (inr (x, same, y)) i = rw same i

abbrev Heard : Reply → Tx Books → Type 0
Heard r t = Holds IsHeard t

IsHeard-Steps : Steps IsHeard (Holds IsHeard) Heard
IsHeard-Steps = record {
  kept = IsHeard-Kept;
  errors = λ n text t h. h;
  runs =
      λ fails stmt keeps. record { leads = (run-Safe IsHeard {R = Reply} fails stmt keeps).safe };
}

record_event-Heard :
    (env : HookEnv) (broken : String) (e : ProviderEvent)
    → Leads (Holds IsHeard) Heard (record_event env broken e)
unfolding record_event inserted
record_event-Heard env broken e =
    bind-Leads (Holds IsHeard) Heard
      (bind-Leads (Holds IsHeard) Heard
        (IsHeard-Steps.runs (env.fails provider_op) (insert_provider_event e)
          (IsHeard-Kept.events e))
        (λ res. expect-Leads (Holds IsHeard) Heard (error 500 broken) res (λ t h. h)))
      each
  where
    each : (b : Bool) → Leads (Holds IsHeard) Heard (inserted env b)
    each true = record { leads = λ t h. h }
    each false = record { leads = λ t h. commit-Holds IsHeard (env.fails commit_op) t h }

finish-Heard : (env : HookEnv) (r : Reply) → Leads (Holds IsHeard) Heard (finish_with env r)
finish-Heard env r = record {
  leads = λ t h. elim (Bool-cases (commit (env.fails commit_op) t).0) [
    | inl e ↦ rw e (commit-Holds IsHeard (env.fails commit_op) t h)
    | inr e ↦ rw e (commit-Holds IsHeard (env.fails commit_op) t h)
  ];
}

in_tx-IsHeard :
    (env : HookEnv) (flow : Flow Reply) (db : Books)
    → Leads (Holds IsHeard) Heard flow
    → IsHeard db
    → IsHeard (in_tx env flow db).1
in_tx-IsHeard env flow db leads h =
    closed-Ensures env flow db (λ _ d. IsHeard d) (λ n. h)
      (Ensures-imp Heard (λ _ t. IsHeard t.committed) (λ _. Holds IsHeard)
        (λ _ t. IsHeard t.committed) (flow (begin db)) (leads.leads (begin db) (h, h))
        (λ r t k. k.0) (λ r t k. k.0))

-- Record the event, take two steps that keep the invariant, and commit.
thrice-Heard :
    {a b : Flow (Unit {0})} (env : HookEnv) (broken : String) (e : ProviderEvent)
    → Leads (Holds IsHeard) Heard a
    → Leads (Holds IsHeard) Heard b
    → Leads (Holds IsHeard) Heard (record_event env broken e >> (a >> (b >> finish env)))
unfolding finish
thrice-Heard env broken e f g =
    seq-Leads (Holds IsHeard) Heard (record_event-Heard env broken e) (
      seq-Leads (Holds IsHeard) Heard f (seq-Leads (Holds IsHeard) Heard g (finish-Heard env done)))

take_local-Heard :
    (env : HookEnv) (caller : Caller) (e : LocalEvent) (at : ℕ)
    → Leads (Holds IsHeard) Heard (take_local env caller e at)
unfolding take_local
take_local-Heard env caller e at =
    thrice-Heard env "failed to record provider event" (local_event e)
      (record_audit-Leads _ _ _ IsHeard-Steps env caller "billing.provider.local.webhook" "provider"
        e.business_id (local_metadata env e at))
      (apply_local-Leads _ _ _ IsHeard-Steps env e at)

take_stripe-Heard :
    (env : StripeEnv) (caller : Caller) (e : StripeEvent)
    → Leads (Holds IsHeard) Heard (take_stripe env caller e)
unfolding take_stripe
take_stripe-Heard env caller e =
    thrice-Heard env.hook "failed to record provider event" (stripe_event e)
      (record_audit-Leads _ _ _ IsHeard-Steps env.hook caller "billing.provider.stripe.webhook"
        "provider" "" (stripe_metadata env.hook e))
      (apply_stripe-Leads _ _ _ IsHeard-Steps env e)

store_cancel-Heard :
    (env : CheckoutEnv) (caller : Caller) (business_id stripe_id key customer_id : String)
    → Leads (Holds IsHeard) Heard (store_cancel env caller business_id stripe_id key customer_id)
unfolding store_cancel
store_cancel-Heard env caller business_id stripe_id key customer_id =
    thrice-Heard env.hook "failed to record cancellation" (cancel_event key)
      (record_audit-Leads _ _ _ IsHeard-Steps env.hook caller
        "billing.subscription.cancel.requested" "" business_id
        (("provider", "stripe")
          ∷ ("stripe_subscription_id", stripe_id)
          ∷ ("idempotency_key", key)
          ∷ []))
      (canceled-Leads _ _ _ IsHeard-Steps
        (stripe_transition env.hook env.hook.now customer_id stripe_id none none) business_id)

trimmed_local-IsHeard :
    (env : HookEnv) (caller : Caller) (e : LocalEvent) (db : Books)
    → IsHeard db
    → IsHeard (trimmed_local env caller e db).1
unfolding trimmed_local parsed_local
trimmed_local-IsHeard env caller e db h = elim (Bool-cases (misses_fields e)) [
  | inl f ↦ rw f h
  | inr f ↦ elim (Option-cases (env.parse_time e.occurred_at)) [
    | inl g ↦ rw (f, g) h
    | inr (at, g) ↦ elim (Bool-cases (is_forbidden caller.role caller.business_id e.business_id)) [
      | inl i ↦ rw (f, g, i) h
      | inr i ↦
          rw (f, g, i)
            (in_tx-IsHeard env (take_local env caller e at) db (take_local-Heard env caller e at) h)
    ]
  ]
]

local_webhook-IsHeard :
    (env : HookEnv) (caller : Caller) (e : Option LocalEvent) (db : Books)
    → IsHeard db
    → IsHeard (local_webhook env caller e db).1
unfolding local_webhook
local_webhook-IsHeard env caller none db h = h
local_webhook-IsHeard env caller (some e) db h =
    trimmed_local-IsHeard env caller (trim_event env e) db h

verified_stripe-IsHeard :
    (env : StripeEnv) (caller : Caller) (e : Option StripeEvent) (db : Books)
    → IsHeard db
    → IsHeard (verified_stripe env caller e db).1
unfolding verified_stripe
verified_stripe-IsHeard env caller none db h = h
verified_stripe-IsHeard env caller (some e) db h =
    in_tx-IsHeard env.hook (take_stripe env caller e) db (take_stripe-Heard env caller e) h

stripe_webhook-IsHeard :
    (env : StripeEnv) (caller : Caller) (signature : String) (body : Option String) (db : Books)
    → IsHeard db
    → IsHeard (stripe_webhook env caller signature body db).1
unfolding stripe_webhook
stripe_webhook-IsHeard env caller signature body db h =
    elim (Bool-cases (is_empty (trim_space env.webhook_secret))) [
      | inl f ↦ rw f h
      | inr f ↦ elim (Bool-cases (is_empty (trim_space signature))) [
        | inl g ↦ rw (f, g) h
        | inr g ↦ elim (Option-cases body) [
          | inl b ↦ rw (f, g, b) h
          | inr (text, b) ↦
              rw (f, g, b)
                (verified_stripe-IsHeard env caller (env.construct_event text signature) db h)
        ]
      ]
    ]

canceled_stripe-IsHeard :
    (env : CheckoutEnv) (caller : Caller) (business_id stripe_id key : String) (o : Option String)
    (db : Books)
    → IsHeard db
    → IsHeard (canceled_stripe env caller business_id stripe_id key o db).1
unfolding canceled_stripe
canceled_stripe-IsHeard env caller business_id stripe_id key none db h = h
canceled_stripe-IsHeard env caller business_id stripe_id key (some customer_id) db h =
    in_tx-IsHeard env.hook (store_cancel env caller business_id stripe_id key customer_id) db
      (store_cancel-Heard env caller business_id stripe_id key customer_id) h

cancel_loaded-IsHeard :
    (env : CheckoutEnv) (caller : Caller) (business_id : String) (r : Result Subscription)
    (db : Books)
    → IsHeard db
    → IsHeard (cancel_loaded env caller business_id r db).1
unfolding cancel_loaded
cancel_loaded-IsHeard env caller business_id (err no_rows) db h = h
cancel_loaded-IsHeard env caller business_id (err exclusion_violation) db h = h
cancel_loaded-IsHeard env caller business_id (err unique_violation) db h = h
cancel_loaded-IsHeard env caller business_id (err failure) db h = h
cancel_loaded-IsHeard env caller business_id (ok s) db h =
    let id = trim_space s.stripe_subscription_id in
    let key = cancel_key caller business_id id in
    elim (Bool-cases (is_empty id)) [
      | inl f ↦ rw f h
      | inr f ↦
          rw f
            (canceled_stripe-IsHeard env caller business_id id key (env.cancel_stripe id key) db h)
    ]

cancel_subscription-IsHeard :
    (env : CheckoutEnv) (caller : Caller) (asked : String) (db : Books)
    → IsHeard db
    → IsHeard (cancel_subscription env caller asked db).1
unfolding cancel_subscription
cancel_subscription-IsHeard env caller asked db h =
    let own = trim_space caller.business_id in
    let named = trim_space asked in
    let business_id = if caller.role == "admin" && not (is_empty named) then named else own in
    elim (Bool-cases (is_empty env.secret_key)) [
      | inl f ↦ rw f h
      | inr f ↦ elim (Bool-cases (is_empty business_id)) [
        | inl g ↦ rw (f, g) h
        | inr g ↦ elim (Bool-cases (is_forbidden caller.role own business_id)) [
          | inl i ↦ rw (f, g, i) h
          | inr i ↦
              rw (f, g, i)
                (cancel_loaded-IsHeard env caller business_id
                  (query (env.hook.fails load_op) (load_subscription business_id) db) db h)
        ]
      ]
    ]

-- A request that changes subscriptions.
pub data Request : Type 0 where
  local_request : HookEnv → Caller → Option LocalEvent → Request
  stripe_request : StripeEnv → Caller → String → Option String → Request
  cancel_request : CheckoutEnv → Caller → String → Request

abbrev pub serve : Request → Books → Reply × Books
serve (local_request env caller e) db = local_webhook env caller e db
serve (stripe_request env caller signature body) db = stripe_webhook env caller signature body db
serve (cancel_request env caller asked) db = cancel_subscription env caller asked db

-- If the last event of every business with a row says the limits of the row's tier, this still holds after
-- a webhook of Stripe or of the local provider and after a cancellation, whatever fails on the way.
pub serve-IsHeard : (req : Request) (db : Books) → IsHeard db → IsHeard (serve req db).1
serve-IsHeard (local_request env caller e) db h = local_webhook-IsHeard env caller e db h
serve-IsHeard (stripe_request env caller signature body) db h =
    stripe_webhook-IsHeard env caller signature body db h
serve-IsHeard (cancel_request env caller asked) db h =
    cancel_subscription-IsHeard env caller asked db h
