-- ===== src/Billing/Recorded.antt =====
-- internal/handlers: what InsertProviderEvent puts on record at the head of a webhook.
use appt_remind.Base.{
  ◌≡◌, refl, sym, inl, inr, ◌⊎◌, Bool, true, false, Option, List, [], ◌∷◌, ◌++◌, String, eq_refl,
  arith, Bool-cases,
}
use appt_remind.Tx.{ok, Tx, Outcome, begin, next, reply, run, expect, close, ◌>>=◌, ◌>>◌}
use appt_remind.Tx.Rules.{
  Ensures, Ensures-bind, Ensures-seq, Ensures-imp, Ensures-expect, Did, commit_cases,
}
use appt_remind.Tx.Kept.{Leads, exec-working}
use appt_remind.Billing.{Ledger, apply_activated, apply_canceled}
use appt_remind.Billing.Books.{
  ProviderEvent, Books, HookEnv, Reply, error, done, Flow, begin_op, provider_op, commit_op,
  has_event, insert_provider_event, insert_audit_event, inserted, record_event, transition, finish,
}
use appt_remind.Billing.Hooks.{in_tx}
use appt_remind.Billing.Steps.{transition_rows, Kept, Steps}

-- The event is on record.
abbrev pub Has : String → String → Books → Type 0
Has provider id db = has_event provider id db.events ≡ true

-- If the answer is "ok", the event is on record.
abbrev pub Records : String → String → Reply → Tx Books → Type 0
Records provider id r t = r ≡ done → Has provider id t.committed

has_event-++ :
    (provider id : String) (events : List ProviderEvent) (e : ProviderEvent)
    → has_event provider id events ≡ true
    → has_event provider id (events ++ e ∷ []) ≡ true
unfolding has_event
has_event-++ provider id [] e h = cc
has_event-++ provider id (f ∷ events) e h =
    let rest = has_event-++ provider id events e in ground arith

has_event-last :
    (events : List ProviderEvent) (e : ProviderEvent)
    → has_event e.provider e.provider_event_id (events ++ e ∷ []) ≡ true
unfolding has_event
has_event-last [] e =
    let p = eq_refl e.provider in let i = eq_refl e.provider_event_id in ground arith
has_event-last (f ∷ events) e = let rest = has_event-last events e in ground arith

pub insert_provider_event_rows :
    (e : ProviderEvent) (b : Bool) (d f : Books)
    → insert_provider_event e d ≡ ok (b, f)
    → ((b ≡ false) × (f ≡ d))
      ⊎ ((b ≡ true)
          × (f ≡ record d { events = d.events ++ e ∷ [] })
          × (has_event e.provider e.provider_event_id d.events ≡ false))
unfolding insert_provider_event
insert_provider_event_rows e b d f h =
    elim (Bool-cases (has_event e.provider e.provider_event_id d.events)) [
      | inl t ↦ let g = rw t at h in inl (cc, cc)
      | inr t ↦ let g = rw t at h in inr (cc, cc, t)
    ]

Has-Kept : (provider id : String) → Kept (Has provider id)
unfolding insert_audit_event transition
Has-Kept provider id = record {
  events = λ e b d f h i. event e d f b (insert_provider_event_rows e b d f h) i;
  audits = λ a u d e h i. let same : e ≡ record d { audits = d.audits ++ a ∷ [] } = cc in rw same i;
  sessions = λ db rows i. i;
  activated = λ c b t u d e h i. change_kept (apply_activated c b t) d e h i;
  canceled = λ c b u d e h i. change_kept (apply_canceled c b) d e h i;
}
  where
    event :
        (e : ProviderEvent) (d f : Books) (b : Bool)
        → ((b ≡ false) × (f ≡ d))
          ⊎ ((b ≡ true)
              × (f ≡ record d { events = d.events ++ e ∷ [] })
              × (has_event e.provider e.provider_event_id d.events ≡ false))
        → Has provider id d
        → Has provider id f
    event e d f b (inl (x, same)) i = rw same i
    event e d f b (inr (x, same, y)) i = rw same (has_event-++ provider id d.events e i)

    change_kept :
        (f : Ledger → Option Ledger) (d e : Books)
        → transition f d ≡ ok (tt, e)
        → Has provider id d
        → Has provider id e
    change_kept f d e h i = let (l, n, same) = transition_rows f tt d e h in rw same i

pub Has-Steps :
    (provider id : String)
    → Steps (Has provider id) (λ t. Has provider id t.working) (Records provider id)
Has-Steps provider id = record {
  kept = Has-Kept provider id;
  errors = λ n text t h e. cc;
  runs = λ fails stmt keeps. record {
    leads = λ t h. exec-working (Has provider id) fails stmt keeps t h;
  };
}

module _ (provider id : String) where
  inserted-Has :
      (e : ProviderEvent) (b : Bool) (env : HookEnv) (t u : Tx Books)
      → e.provider ≡ provider
      → e.provider_event_id ≡ id
      → Did (insert_provider_event e) t b u
      → Ensures (Records provider id) (λ _ v. Has provider id v.working) (inserted env b u)
  unfolding inserted
  inserted-Has e false env t u p i (d, alive, stmt, same) = λ k. cc
  inserted-Has e true env t u p i (d, alive, stmt, same) =
      elim (insert_provider_event_rows e true t.working d stmt) [
        | inl (x, y) ↦ cc
        | inr (x, y, z) ↦ rw (same, y, sym p, sym i) (has_event-last t.working.events e)
      ]

  record_event-Has :
      (env : HookEnv) (broken : String) (e : ProviderEvent) (t : Tx Books)
      → e.provider ≡ provider
      → e.provider_event_id ≡ id
      → Ensures
          (Records provider id)
          (λ _ v. Has provider id v.working)
          (record_event env broken e t)
  unfolding record_event
  record_event-Has env broken e t p i =
      Ensures-bind (Records provider id) (Did (insert_provider_event e) t)
        (λ _ v. Has provider id v.working)
        (run (env.fails provider_op) (insert_provider_event e) >>= expect (error 500 broken))
        (inserted env) t
        (Ensures-expect (Records provider id) (env.fails provider_op) (insert_provider_event e)
          (error 500 broken) t (λ u c k. cc))
        (λ b u h. inserted-Has e b env t u p i h)

  finish-Records :
      (env : HookEnv) (t : Tx Books)
      → Has provider id t.working
      → Ensures (Records provider id) (Records provider id) (finish env t)
  unfolding finish
  finish-Records env t h = elim (commit_cases (env.fails commit_op) t) [
    | inl e ↦ rw e (λ k. cc)
    | inr (alive, e) ↦ rw e (λ k. h)
  ]

  -- A handler that records the event first, and then takes steps that keep the record.
  pub recorded :
      (env : HookEnv) (broken : String) (e : ProviderEvent) (audit apply : Flow (Unit {0}))
      (t : Tx Books)
      → e.provider ≡ provider
      → e.provider_event_id ≡ id
      → Leads (λ u. Has provider id u.working) (Records provider id) audit
      → Leads (λ u. Has provider id u.working) (Records provider id) apply
      → Ensures
          (Records provider id)
          (Records provider id)
          ((record_event env broken e >> (audit >> (apply >> finish env))) t)
  recorded env broken e audit apply t p i audits applies =
      Ensures-seq (Records provider id) (λ _ v. Has provider id v.working) (Records provider id)
        (record_event env broken e) (audit >> (apply >> finish env)) t
        (record_event-Has env broken e t p i)
        (λ u h.
          Ensures-seq (Records provider id) (λ _ v. Has provider id v.working) (Records provider id)
            audit (apply >> finish env) u (audits.leads u h)
            (λ v k.
              Ensures-seq (Records provider id) (λ _ w. Has provider id w.working)
                (Records provider id) apply (finish env) v (applies.leads v k)
                (λ w l. finish-Records env w l)))

  -- A handler that meets the event again leaves the rows.
  pub repeated :
      (env : HookEnv) (broken : String) (e : ProviderEvent) (rest : Flow Reply) (db : Books)
      → e.provider ≡ provider
      → e.provider_event_id ≡ id
      → Has provider id db
      → Ensures
          (λ _ t. t.committed ≡ db)
          (λ _ _. ⊥)
          ((record_event env broken e >> rest) (begin db))
  unfolding record_event inserted
  repeated env broken e rest db p i h =
      Ensures-seq (λ _ t. t.committed ≡ db) (λ _ _. ⊥) (λ _ _. ⊥) (record_event env broken e) rest
        (begin db)
        (Ensures-bind (λ _ t. t.committed ≡ db) (Did (insert_provider_event e) (begin db))
          (λ _ _. ⊥)
          (run (env.fails provider_op) (insert_provider_event e) >>= expect (error 500 broken))
          (inserted env) (begin db)
          (Ensures-expect (λ _ t. t.committed ≡ db) (env.fails provider_op)
            (insert_provider_event e) (error 500 broken) (begin db) (λ u c. c))
          (λ b u k. known b u k))
        (λ u k. absurd k)
    where
      known :
          (b : Bool) (u : Tx Books)
          → Did (insert_provider_event e) (begin db) b u
          → Ensures (λ _ t. t.committed ≡ db) (λ _ _. ⊥) (inserted env b u)
      known true u (d, alive, stmt, same) = elim (insert_provider_event_rows e true db d stmt) [
        | inl (x, y) ↦ cc
        | inr (x, y, z) ↦ let k = rw (p, i) at z in cc
      ]
      known false u (d, alive, stmt, same) = elim (commit_cases (env.fails commit_op) u) [
        | inl f ↦ rw (f, same) refl
        | inr (live, f) ↦ elim (insert_provider_event_rows e false db d stmt) [
          | inl (x, y) ↦ rw (f, same) y
          | inr (x, y, z) ↦ cc
        ]
      ]

-- What holds of a handler's answer and of the rows that it leaves.
pub closed-Ensures :
    (env : HookEnv) (flow : Flow Reply) (db : Books) (S : Reply → Books → Type 0)
    → ((n : String) → S (error 500 n) db)
    → Ensures (λ r t. S r t.committed) (λ r t. S r t.committed) (flow (begin db))
    → let r = in_tx env flow db in S r.0 r.1
closed-Ensures env flow db S bad h = elim (Bool-cases (env.fails begin_op)) [
  | inl e ↦ rw e (bad "db error")
  | inr e ↦ rw e (settled (flow (begin db)) h)
]
  where
    settled :
        (o : Outcome Reply Books Reply)
        → Ensures (λ r t. S r t.committed) (λ r t. S r t.committed) o
        → S (close o).0 (close o).1
    settled (reply r t) k = k
    settled (next r t) k = k

pub weaken :
    (S : Reply → Tx Books → Type 0) (o : Outcome Reply Books Reply)
    → Ensures S (λ _ _. ⊥) o
    → Ensures S S o
weaken S o h = Ensures-imp S S (λ _ _. ⊥) S o h (λ r u k. k) (λ r u k. absurd k)
