-- ===== src/Billing/Once.antt =====
-- internal/handlers: an event of a provider is handled once.
use appt_remind.Base.{ℕ, ◌≡◌, refl, sym, subst, inl, inr, some, String, Bool-cases, Option-cases}
use appt_remind.Base.Text.{is_empty, trim_space}
use appt_remind.Tx.{begin}
use appt_remind.Billing.Books.{Books, HookEnv, Caller, done, is_forbidden}
use appt_remind.Billing.Hooks.{
  LocalEvent, trim_event, misses_fields, parsed_local, trimmed_local, local_webhook, local_event,
  local_metadata, take_local, in_tx, StripeEvent, StripeEnv, stripe_event, stripe_metadata,
  take_stripe, verified_stripe, stripe_webhook,
}
use appt_remind.Billing.Recorded.{Has, Has-Steps, recorded, repeated, closed-Ensures, weaken}
use appt_remind.Billing.Steps.{record_audit-Leads, apply_stripe-Leads, apply_local-Leads}

take_stripe-Records :
    (env : StripeEnv) (caller : Caller) (e : StripeEvent) (db : Books)
    → (in_tx env.hook (take_stripe env caller e) db).0 ≡ done
    → Has "stripe" e.id (in_tx env.hook (take_stripe env caller e) db).1
unfolding take_stripe stripe_event
take_stripe-Records env caller e db =
    let steps = Has-Steps "stripe" e.id in
    closed-Ensures env.hook (take_stripe env caller e) db (λ r d. r ≡ done → Has "stripe" e.id d)
      (λ n k. cc)
      (recorded "stripe" e.id env.hook "failed to record provider event" (stripe_event e) _ _
        (begin db) refl refl
        (record_audit-Leads _ _ _ steps env.hook caller "billing.provider.stripe.webhook" "provider"
          "" (stripe_metadata env.hook e))
        (apply_stripe-Leads _ _ _ steps env e))

take_stripe-same :
    (env : StripeEnv) (caller : Caller) (e : StripeEvent) (db : Books)
    → Has "stripe" e.id db
    → (in_tx env.hook (take_stripe env caller e) db).1 ≡ db
unfolding take_stripe stripe_event
take_stripe-same env caller e db h =
    closed-Ensures env.hook (take_stripe env caller e) db (λ r d. d ≡ db) (λ n. refl)
      (weaken (λ r t. t.committed ≡ db) _
        (repeated "stripe" e.id env.hook "failed to record provider event" (stripe_event e) _ db
          refl refl h))

stripe_webhook_done :
    (env : StripeEnv) (caller : Caller) (signature body : String) (e : StripeEvent) (db : Books)
    → env.construct_event body signature ≡ some e
    → (stripe_webhook env caller signature (some body) db).0 ≡ done
    → Has "stripe" e.id (stripe_webhook env caller signature (some body) db).1
unfolding stripe_webhook verified_stripe
stripe_webhook_done env caller signature body e db c =
    elim (Bool-cases (is_empty (trim_space env.webhook_secret))) [
      | inl f ↦ rw f (λ k. cc)
      | inr f ↦ elim (Bool-cases (is_empty (trim_space signature))) [
        | inl g ↦ rw (f, g) (λ k. cc)
        | inr g ↦ rw (f, g, c) (take_stripe-Records env caller e db)
      ]
    ]

stripe_webhook_same :
    (env : StripeEnv) (caller : Caller) (signature body : String) (e : StripeEvent) (db : Books)
    → env.construct_event body signature ≡ some e
    → Has "stripe" e.id db
    → (stripe_webhook env caller signature (some body) db).1 ≡ db
unfolding stripe_webhook verified_stripe
stripe_webhook_same env caller signature body e db c h =
    elim (Bool-cases (is_empty (trim_space env.webhook_secret))) [
      | inl f ↦ rw f refl
      | inr f ↦ elim (Bool-cases (is_empty (trim_space signature))) [
        | inl g ↦ rw (f, g) refl
        | inr g ↦ rw (f, g, c) (take_stripe-same env caller e db h)
      ]
    ]

-- A Stripe event that was answered "ok" is not handled again: a later delivery of an event with the same
-- id changes no row, whatever its type, its headers and the failures of either delivery.
pub stripe_webhook_once :
    (env again : StripeEnv) (caller other : Caller) (signature body later rebody : String)
    (e f : StripeEvent) (db : Books)
    → env.construct_event body signature ≡ some e
    → again.construct_event rebody later ≡ some f
    → f.id ≡ e.id
    → (stripe_webhook env caller signature (some body) db).0 ≡ done
    → let first = (stripe_webhook env caller signature (some body) db).1 in
      (stripe_webhook again other later (some rebody) first).1 ≡ first
stripe_webhook_once env again caller other signature body later rebody e f db c d i k =
    let has = stripe_webhook_done env caller signature body e db c k in
    let first = (stripe_webhook env caller signature (some body) db).1 in
    stripe_webhook_same again other later rebody f first d
      (subst (λ id. Has "stripe" id first) (sym i) has)

take_local-Records :
    (env : HookEnv) (caller : Caller) (e : LocalEvent) (at : ℕ) (db : Books)
    → (in_tx env (take_local env caller e at) db).0 ≡ done
    → Has "local" e.event_id (in_tx env (take_local env caller e at) db).1
unfolding take_local local_event
take_local-Records env caller e at db =
    let steps = Has-Steps "local" e.event_id in
    closed-Ensures env (take_local env caller e at) db (λ r d. r ≡ done → Has "local" e.event_id d)
      (λ n k. cc)
      (recorded "local" e.event_id env "failed to record provider event" (local_event e) _ _
        (begin db) refl refl
        (record_audit-Leads _ _ _ steps env caller "billing.provider.local.webhook" "provider"
          e.business_id (local_metadata env e at))
        (apply_local-Leads _ _ _ steps env e at))

take_local-same :
    (env : HookEnv) (caller : Caller) (e : LocalEvent) (at : ℕ) (db : Books)
    → Has "local" e.event_id db
    → (in_tx env (take_local env caller e at) db).1 ≡ db
unfolding take_local local_event
take_local-same env caller e at db h =
    closed-Ensures env (take_local env caller e at) db (λ r d. d ≡ db) (λ n. refl)
      (weaken (λ r t. t.committed ≡ db) _
        (repeated "local" e.event_id env "failed to record provider event" (local_event e) _ db refl
          refl h))

trimmed_local_done :
    (env : HookEnv) (caller : Caller) (e : LocalEvent) (db : Books)
    → (trimmed_local env caller e db).0 ≡ done
    → Has "local" e.event_id (trimmed_local env caller e db).1
unfolding trimmed_local parsed_local
trimmed_local_done env caller e db = elim (Bool-cases (misses_fields e)) [
  | inl f ↦ rw f (λ k. cc)
  | inr f ↦ elim (Option-cases (env.parse_time e.occurred_at)) [
    | inl g ↦ rw (f, g) (λ k. cc)
    | inr (at, g) ↦ elim (Bool-cases (is_forbidden caller.role caller.business_id e.business_id)) [
      | inl i ↦ rw (f, g, i) (λ k. cc)
      | inr i ↦ rw (f, g, i) (take_local-Records env caller e at db)
    ]
  ]
]

trimmed_local_same :
    (env : HookEnv) (caller : Caller) (e : LocalEvent) (db : Books)
    → Has "local" e.event_id db
    → (trimmed_local env caller e db).1 ≡ db
unfolding trimmed_local parsed_local
trimmed_local_same env caller e db h = elim (Bool-cases (misses_fields e)) [
  | inl f ↦ rw f refl
  | inr f ↦ elim (Option-cases (env.parse_time e.occurred_at)) [
    | inl g ↦ rw (f, g) refl
    | inr (at, g) ↦ elim (Bool-cases (is_forbidden caller.role caller.business_id e.business_id)) [
      | inl i ↦ rw (f, g, i) refl
      | inr i ↦ rw (f, g, i) (take_local-same env caller e at db h)
    ]
  ]
]

-- An event of the local provider that was answered "ok" is not handled again: a later request with the same
-- event id, spaces around it aside, changes no row, whatever else it says and whatever fails.
pub local_webhook_once :
    (env again : HookEnv) (caller other : Caller) (e f : LocalEvent) (db : Books)
    → trim_space f.event_id ≡ trim_space e.event_id
    → (local_webhook env caller (some e) db).0 ≡ done
    → let first = (local_webhook env caller (some e) db).1 in
      (local_webhook again other (some f) first).1 ≡ first
unfolding local_webhook trim_event
local_webhook_once env again caller other e f db i k =
    let has = trimmed_local_done env caller (trim_event env e) db k in
    let first = (trimmed_local env caller (trim_event env e) db).1 in
    trimmed_local_same again other (trim_event again f) first
      (subst (λ id. Has "local" id first) (sym i) has)
