-- ===== src/Scheduler/Kept.antt =====
-- The handler of scheduler-service's consumer with the worker: a request that is delivered again
-- adds no job.
use appt_remind.Base.{
  ◌≡◌, refl, ap, ◌∙◌, ◌⊎◌, inl, inr, ℕ, String, ◌==◌, eq_refl, Bool, true, false, none, some, List,
  [], ◌∷◌, ◌++◌, arith, Bool-cases, Option-cases,
}
use appt_remind.Tx.{Outcome, reply, next, ok, begin, run, expect, close, ◌>>=◌}
use appt_remind.Tx.Rules.{Ensures, Ensures-seq, Ensures-expect, Ensures-mono, Did, commit_cases}
use appt_remind.Scheduler.{
  Job, Queue, JobEnv, processed_rows, process_batch, ReminderRequest, has_key, new_job,
  insert_request, TakeEnv, is_incomplete, key_of, commit_taken, insert_taken, store_request,
  take_request, begin_op, insert_op, commit_op,
}
use appt_remind.Scheduler.Batch.{process_batch-Processed}

has_key-++ :
    (key : String) (jobs : List Job) (j : Job)
    → j.idempotency_key == key ≡ true
    → has_key key (jobs ++ j ∷ []) ≡ true
unfolding has_key
has_key-++ key [] j e = ground arith
has_key-++ key (k ∷ jobs) j e = let rest = has_key-++ key jobs j e in ground arith

has_key-processed_rows :
    (key : String) (ids : List ℕ) (jobs : List Job)
    → has_key key (processed_rows ids jobs) ≡ has_key key jobs
unfolding has_key processed_rows
has_key-processed_rows key ids [] = refl
has_key-processed_rows key ids (j ∷ jobs) =
    let rest = has_key-processed_rows key ids jobs in ground arith

-- The rows after the insert have the key.
insert_request-has_key :
    (id : ℕ) (key : String) (req : ReminderRequest) (at : ℕ) (q d : Queue)
    → insert_request id key req at q ≡ ok (tt, d)
    → has_key key d.jobs ≡ true
unfolding insert_request new_job
insert_request-has_key id key req at q d e = elim (Bool-cases (has_key key q.jobs)) [
  | inl known ↦ let f = rw known at e in let g : d ≡ q = cc in rw g known
  | inr fresh ↦
      let f = rw fresh at e in
      let g : d ≡ record q { jobs = q.jobs ++ new_job id key req at ∷ [] } = cc in
      rw g (has_key-++ key q.jobs _ (eq_refl key))
]

-- An insert of a key that a row has leaves the rows.
insert_request-same :
    (id : ℕ) (key : String) (req : ReminderRequest) (at : ℕ) (q d : Queue)
    → has_key key q.jobs ≡ true
    → insert_request id key req at q ≡ ok (tt, d)
    → d.jobs ≡ q.jobs
unfolding insert_request
insert_request-same id key req at q d known e =
    let f = rw known at e in let g : d ≡ q = cc in rw g refl

module _ (env : TakeEnv) (req : ReminderRequest) (at : ℕ) (q : Queue) where
  -- The insert and its commit: what holds of the rows after the insert is committed or nothing is.
  insert_taken-Ensures :
      (P : Bool → Queue → Type 0)
      → P false q
      → ((d : Queue) → insert_request env.fresh_id (key_of req) req at q ≡ ok (tt, d) → P true d)
      → Ensures (λ r t. P r t.committed) (λ _ _. ⊥) (insert_taken env req at (begin q))
  unfolding insert_taken commit_taken
  insert_taken-Ensures P bad good =
      let stmt = insert_request env.fresh_id (key_of req) req at in
      Ensures-seq (λ r t. P r t.committed)
        (λ _ t.
          (t.committed ≡ q)
          × (insert_request env.fresh_id (key_of req) req at q ≡ ok (tt, t.working)))
        (λ _ _. ⊥) (run (env.fails insert_op) stmt >>= expect false) (commit_taken env) (begin q)
        (Ensures-mono (λ r t. P r t.committed) (Did stmt (begin q)) _ _
          (Ensures-expect (λ r t. P r t.committed) (env.fails insert_op) stmt false (begin q)
            (λ u c. rw c bad))
          (λ a u h. let (d, alive, e, same) = h in rw same (refl, e)))
        (λ u h. elim (commit_cases (env.fails commit_op) u) [
          | inl e ↦ rw (e, h.0) bad
          | inr (alive, e) ↦ rw e (good u.working h.1)
        ])

  store-Ensures :
      (P : Bool → Queue → Type 0)
      → P false q
      → ((d : Queue) → insert_request env.fresh_id (key_of req) req at q ≡ ok (tt, d) → P true d)
      → let r = store_request env req q (some at) in P r.0 r.1
  unfolding store_request
  store-Ensures P bad good = elim (Bool-cases (env.fails begin_op)) [
    | inl e ↦ rw e bad
    | inr e ↦ rw e (closed (insert_taken env req at (begin q)) (insert_taken-Ensures P bad good))
  ]
    where
      closed :
          (o : Outcome Bool Queue Bool)
          → Ensures (λ r t. P r t.committed) (λ _ _. ⊥) o
          → P (close o).0 (close o).1
      closed (reply r t) h = h
      closed (next r t) h = absurd h

-- What a request that is taken leaves: it was dropped, or the rows have its key.
abbrev IsTaken : TakeEnv → ReminderRequest → Queue → Type 0
IsTaken env req q =
    (is_incomplete req ≡ true)
    ⊎ (env.parse_time req.remind_at ≡ none)
    ⊎ (has_key (key_of req) q.jobs ≡ true)

take_request-IsTaken :
    (env : TakeEnv) (req : ReminderRequest) (q : Queue)
    → (take_request env (some req) q).0 ≡ true
    → IsTaken env req (take_request env (some req) q).1
unfolding take_request store_request
take_request-IsTaken env req q = elim (Bool-cases (is_incomplete req)) [
  | inl e ↦ λ _. inl e
  | inr e ↦ elim (Option-cases (env.parse_time req.remind_at)) [
    | inl f ↦ λ _. inr (inl f)
    | inr (at, f) ↦
        rw (e, f)
          (λ h. inr (
            inr (
              store-Ensures env req at q (λ r d. r ≡ true → has_key (key_of req) d.jobs ≡ true)
                (λ g. cc) (λ d g _. insert_request-has_key env.fresh_id (key_of req) req at q d g)
                h)))
  ]
]

IsTaken-same :
    (env : TakeEnv) (req : ReminderRequest) (q : Queue)
    → IsTaken env req q
    → (take_request env (some req) q).1.jobs ≡ q.jobs
unfolding take_request store_request
IsTaken-same env req q (inl e) = rw e refl
IsTaken-same env req q (inr (inl f)) = ground arith
IsTaken-same env req q (inr (inr known)) = elim (Bool-cases (is_incomplete req)) [
  | inl e ↦ rw e refl
  | inr e ↦ elim (Option-cases (env.parse_time req.remind_at)) [
    | inl f ↦ rw (e, f) refl
    | inr (at, f) ↦
        rw (e, f)
          (store-Ensures env req at q (λ r d. d.jobs ≡ q.jobs) refl
            (λ d g. insert_request-same env.fresh_id (key_of req) req at q d known g))
  ]
]

process_batch-has_key :
    (env : JobEnv) (key : String) (q : Queue)
    → has_key key (process_batch env q).1.jobs ≡ has_key key q.jobs
process_batch-has_key env key q = elim (process_batch-Processed env q) [
  | inl same ↦ rw same refl
  | inr (_, p) ↦ rw p.jobs (has_key-processed_rows key _ q.jobs)
]

-- A request that the handler has taken adds no job when it is delivered again, whatever fails then
-- and whatever batch the worker runs in between, if the two deliveries parse times alike.
pub take_request-again :
    (env again : TakeEnv) (worker : JobEnv) (req : ReminderRequest) (q : Queue)
    → again.parse_time ≡ env.parse_time
    → (take_request env (some req) q).0 ≡ true
    → let between = (process_batch worker (take_request env (some req) q).1).1 in
      (take_request again (some req) between).1.jobs ≡ between.jobs
take_request-again env again worker req q same h =
    let taken = (take_request env (some req) q).1 in
    IsTaken-same again req (process_batch worker taken).1
      (kept taken (take_request-IsTaken env req q h))
  where
    kept : (d : Queue) → IsTaken env req d → IsTaken again req (process_batch worker d).1
    kept d (inl e) = inl e
    kept d (inr (inl e)) = inr (inl (ap (λ f. f req.remind_at) same ∙ e))
    kept d (inr (inr e)) = inr (inr (process_batch-has_key worker (key_of req) d ∙ e))
