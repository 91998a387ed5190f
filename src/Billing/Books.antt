-- ===== src/Billing/Books.antt =====
-- services/billing-service: the rows of provider_events, audit_events and checkout_sessions with their
-- statements (internal/storage/repository.go), and recordAudit and the errors that the handlers of
-- internal/handlers share. A refusal by a column's type is a failure of the statement.
use appt_remind.Base.{
  ℕ, Bool, true, false, not, ◌&&◌, ◌||◌, Option, none, some, List, [], ◌∷◌, ◌++◌, String, ◌==◌,
  if◌then◌else◌,
}
use appt_remind.Base.Text.{is_empty, trim_space}
use appt_remind.Tx.{
  ok, err, failure, Statement, Tx, Outcome, reply, next, commit, run, expect, ◌>>=◌,
}
use appt_remind.Billing.{BillingOp, Ledger, null_if_empty}

pub record ProviderEvent : Type 0 where
  pub provider : String
  pub provider_event_id : String
  pub event_type : String

-- `metadata` is the entries of the JSON object. `none` is a NULL.
pub record AuditEvent : Type 0 where
  pub event_type : String
  pub actor_type : String
  pub actor_id : Option String
  pub business_id : Option String
  pub metadata : List (String × String)

pub record CheckoutSession : Type 0 where
  pub stripe_session_id : String
  pub business_id : String
  pub tier : String
  pub status : String
  pub stripe_customer_id : Option String
  pub stripe_subscription_id : Option String
  pub url : Option String
  pub return_token : Option String
  pub updated_at : ℕ
  pub completed_at : Option ℕ
  pub canceled_at : Option ℕ
  pub return_seen_at : Option ℕ
  pub expired_at : Option ℕ

pub record Books : Type 0 where
  pub ledger : Ledger
  pub events : List ProviderEvent
  pub audits : List AuditEvent
  pub sessions : List CheckoutSession

pub data HookOp : Type 0 where
  begin_op provider_op audit_op session_op load_op commit_op : HookOp
  change_op : BillingOp → HookOp

-- The headers that the gateway sets, as they come.
pub record Caller : Type 0 where
  pub role : String
  pub user_id : String
  pub business_id : String
  pub request_id : String
  pub idempotency_key : String

pub record HookEnv : Type 0 where
  pub fails : HookOp → Bool
  pub now : ℕ
  pub to_lower : String → String
  pub parse_time : String → Option ℕ
  pub format_time : ℕ → String

pub data Reply : Type 0 where
  error : ℕ → String → Reply
  done duplicate : Reply
  opened : (session_id url : String) → Reply

abbrev pub Flow : Type 0 → Type 0
Flow A = Tx Books → Outcome Reply Books A

unfoldable pub has_event : String → String → List ProviderEvent → Bool
has_event provider id [] = false
has_event provider id (e ∷ events) =
    (e.provider == provider && e.provider_event_id == id) || has_event provider id events

-- ON CONFLICT (provider, provider_event_id) DO NOTHING: whether a row was inserted.
unfoldable pub insert_provider_event : ProviderEvent → Statement Books Bool
unfolding has_event
insert_provider_event e db =
    if has_event e.provider e.provider_event_id db.events
    then ok (false, db)
    else ok (true, record db { events = db.events ++ e ∷ [] })

unfoldable pub insert_audit_event : AuditEvent → Statement Books (Unit {0})
insert_audit_event a db = ok (tt, record db { audits = db.audits ++ a ∷ [] })

-- A value, or its fallback if it is empty.
abbrev pub or_else : String → String → String
or_else s fallback = if is_empty s then fallback else s

unfoldable pub request_entry : Caller → List (String × String)
unfolding trim_space is_empty
request_entry caller =
    let id = trim_space caller.request_id in if is_empty id then [] else ("request_id", id) ∷ []

unfoldable pub audit_row : Caller → String → String → String → List (String × String) → AuditEvent
unfolding trim_space is_empty null_if_empty request_entry
audit_row caller event_type actor_type business_id metadata = record {
  event_type = event_type;
  actor_type = or_else (or_else actor_type (trim_space caller.role)) "system";
  actor_id = null_if_empty (or_else (trim_space caller.user_id) (trim_space caller.business_id));
  business_id = null_if_empty business_id;
  metadata = metadata ++ request_entry caller;
}

unfoldable pub record_audit :
    HookEnv → Caller → String → String → String → List (String × String) → Flow (Unit {0})
unfolding insert_audit_event audit_row
record_audit env caller event_type actor_type business_id metadata =
    run (env.fails audit_op)
      (insert_audit_event (audit_row caller event_type actor_type business_id metadata))
    >>= expect (error 500 "failed to record audit event")

-- The first block of each handler that must happen once for an event: a duplicate is answered.
unfoldable pub inserted : HookEnv → Bool → Flow (Unit {0})
inserted env true t = next tt t
inserted env false t = let (ignored, u) = commit (env.fails commit_op) t in reply duplicate u

unfoldable pub record_event : HookEnv → String → ProviderEvent → Flow (Unit {0})
unfolding insert_provider_event inserted
record_event env broken e =
    (run (env.fails provider_op) (insert_provider_event e) >>= expect (error 500 broken))
    >>= inserted env

-- The statements of a transition of internal/subscriptions/service.go.
unfoldable pub transition : (Ledger → Option Ledger) → Statement Books (Unit {0})
transition change db = elim (change db.ledger) [
  | none ↦ err failure
  | some l ↦ ok (tt, record db { ledger = l })
]

unfoldable pub change : String → (Ledger → Option Ledger) → Flow (Unit {0})
unfolding transition
change broken f = run false (transition f) >>= expect (error 500 broken)

-- The commit, and the answer to a request that was served.
abbrev pub finish_with : HookEnv → Reply → Flow Reply
finish_with env r t =
    let (stored, u) = commit (env.fails commit_op) t in
    if stored then reply r u else reply (error 500 "failed to commit") u

unfoldable pub finish : HookEnv → Flow Reply
finish env = finish_with env done

-- `role != "admin" && caller != "" && caller != business`.
unfoldable pub is_forbidden : String → String → String → Bool
unfolding is_empty
is_forbidden role caller business_id =
    not (role == "admin") && not (is_empty caller) && not (caller == business_id)
