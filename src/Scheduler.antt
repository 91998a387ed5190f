-- ===== src/Scheduler.antt =====
-- services/scheduler-service: the reminder jobs. internal/jobs/repository.go has the statements,
-- internal/jobs/worker.go the batches, and the consumer's handler in cmd/scheduler-service/main.go
-- takes reminder requests in.
-- One worker runs at a time, so no row is skipped as locked. The trace context is left out, and
-- json.Marshal of decoded JSON does not fail.
pub mod Batch
pub mod Kept
pub mod Sends
pub mod Drained
mod Tests
use appt_remind.Base.{
  ℕ, zero, suc, ◌+◌, Bool, true, false, not, ◌&&◌, ◌||◌, Option, none, some, List, [], ◌∷◌, ◌++◌,
  String, ◌==◌, ltb, leb, eqb, if◌then◌else◌, filter, take,
}
use appt_remind.Base.Text.{is_empty, cat}
use appt_remind.Tx.{
  Result, ok, err, Statement, Tx, Outcome, reply, next, begin, commit, run, answer, expect, close,
  ◌>>=◌, ◌>>◌,
}

-- A row of scheduler_jobs. `template` is the text of its JSON.
pub record Job : Type 0 where
  pub id : ℕ
  pub idempotency_key : String
  pub appointment_id : String
  pub business_id : String
  pub channel : String
  pub recipient : String
  pub remind_at : ℕ
  pub template : String
  pub attempts : ℕ
  pub max_attempts : ℕ
  pub next_run_at : ℕ
  pub status : String
  pub last_error : String

-- `reason` and `failed_at` stand only in the event for the dead letters.
pub data Notice : Type 0 where
  due : (appointment_id business_id channel recipient remind_at template : String) → Notice
  dead :
      (appointment_id business_id channel recipient remind_at template reason failed_at : String)
      → Notice

pub record Event : Type 0 where
  pub aggregate_type : String
  pub aggregate_id : String
  pub event_type : String
  pub payload : Notice

pub record Queue : Type 0 where
  pub jobs : List Job
  pub outbox : List Event

pub data JobOp : Type 0 where
  begin_op fetch_op processed_op commit_op : JobOp
  event_op failed_op dead_op : ℕ → JobOp

-- `now` is the clock of the worker and of the database.
pub record JobEnv : Type 0 where
  pub fails : JobOp → Bool
  pub now : ℕ
  pub format_utc : ℕ → String
  pub batch_size : ℕ
  pub backoff : ℕ

-- The WHERE clause of FetchDue.
pub is_due : ℕ → Job → Bool
is_due now j = j.status == "pending" && leb j.next_run_at now

-- ORDER BY next_run_at.
pub insert_job : Job → List Job → List Job
insert_job j [] = j ∷ []
insert_job j (k ∷ jobs) =
    let rest = insert_job j jobs in
    if leb j.next_run_at k.next_run_at then j ∷ k ∷ jobs else k ∷ rest

pub order_jobs : List Job → List Job
unfolding insert_job
order_jobs [] = []
order_jobs (j ∷ jobs) = insert_job j (order_jobs jobs)

pub due_jobs : ℕ → ℕ → List Job → List Job
unfolding is_due order_jobs
due_jobs now limit jobs = take limit (order_jobs (filter (is_due now) jobs))

pub fetch_due : ℕ → ℕ → Statement Queue (List Job)
unfolding due_jobs
fetch_due now limit q = ok (due_jobs now limit q.jobs, q)

pub insert_event : Event → Statement Queue (Unit {0})
insert_event event q = ok (tt, record q { outbox = q.outbox ++ event ∷ [] })

-- `id = ANY(ids)`.
pub is_in : ℕ → List ℕ → Bool
is_in id [] = false
is_in id (i ∷ ids) = eqb i id || is_in id ids

pub processed_rows : List ℕ → List Job → List Job
unfolding is_in
processed_rows ids [] = []
processed_rows ids (j ∷ jobs) =
    (if is_in j.id ids then record j { status = "processed" } else j) ∷ processed_rows ids jobs

pub mark_processed : List ℕ → Statement Queue (Unit {0})
unfolding processed_rows
mark_processed ids q = ok (tt, record q { jobs = processed_rows ids q.jobs })

pub failed_rows : ℕ → ℕ → ℕ → ℕ → String → List Job → List Job
failed_rows id attempts max_attempts next_run_at last_error [] = []
failed_rows id attempts max_attempts next_run_at last_error (j ∷ jobs) =
    let rest = failed_rows id attempts max_attempts next_run_at last_error jobs in
    let row = record j {
      attempts = attempts;
      status = if leb max_attempts attempts then "failed" else "pending";
      next_run_at = next_run_at;
      last_error = last_error;
    } in
    if eqb j.id id then row ∷ rest else j ∷ rest

pub mark_failed : ℕ → ℕ → ℕ → ℕ → String → Statement Queue (Unit {0})
unfolding failed_rows
mark_failed id attempts max_attempts next_run_at last_error q =
    ok (tt, record q { jobs = failed_rows id attempts max_attempts next_run_at last_error q.jobs })

pub due_event : JobEnv → Job → Event
due_event env j = record {
  aggregate_type = "scheduler_job";
  aggregate_id = j.appointment_id;
  event_type = "scheduler.reminder.due.v1";
  payload =
      due j.appointment_id j.business_id j.channel j.recipient (env.format_utc j.remind_at)
        j.template;
}

pub dead_event : JobEnv → Job → String → Event
dead_event env j reason = record {
  aggregate_type = "scheduler_job";
  aggregate_id = j.appointment_id;
  event_type = "scheduler.reminder.dlq.v1";
  payload =
      dead j.appointment_id j.business_id j.channel j.recipient (env.format_utc j.remind_at)
        j.template reason (env.format_utc env.now);
}

-- A step of processBatch: it returns `true` for no error.
abbrev pub Work : Type 0 → Type 0
Work A = Tx Queue → Outcome Bool Queue A

-- The ids that were enqueued, and the jobs that were not.
abbrev pub Sorted : Type 0
Sorted = List ℕ × List Job

abbrev pub sort_out : Job → Result (Unit {0}) → Sorted → Sorted
sort_out j (ok _) (ids, failed) = (j.id ∷ ids, failed)
sort_out j (err _) (ids, failed) = (ids, j ∷ failed)

-- The loop over the jobs.
pub enqueue : JobEnv → List Job → Work Sorted
unfolding insert_event due_event
enqueue env [] = next ([], [])
enqueue env (j ∷ jobs) =
    let rest = enqueue env jobs in
    run (env.fails (event_op j.id)) (insert_event (due_event env j)) >>= λ res.
    rest >>= λ sorted. next (sort_out j res sorted)

-- MarkProcessed runs no statement for no ids.
pub processed : JobEnv → List ℕ → Work (Unit {0})
unfolding mark_processed
processed env [] = next tt
processed env (i ∷ ids) = run (env.fails processed_op) (mark_processed (i ∷ ids)) >>= expect false

pub dead_letter : JobEnv → Job → Work (Unit {0})
unfolding dead_event insert_event
dead_letter env j =
    if leb j.max_attempts (suc j.attempts)
    then (run (env.fails (dead_op j.id)) (insert_event (dead_event env j "max attempts reached"))
        >>= expect false)
    else next tt

-- The loop over the jobs that were not enqueued.
pub retry : JobEnv → List Job → Work (Unit {0})
unfolding mark_failed dead_letter
retry env [] = next tt
retry env (j ∷ jobs) =
    let rest = retry env jobs in
    (run (env.fails (failed_op j.id)) (
        mark_failed j.id (suc j.attempts) j.max_attempts (env.now + env.backoff)
          "outbox enqueue failed")
      >>= expect false)
    >> (dead_letter env j >> rest)

pub commit_batch : JobEnv → Work Bool
commit_batch env t = let (done, u) = commit (env.fails commit_op) t in reply done u

pub finish : JobEnv → Sorted → Work Bool
unfolding processed retry commit_batch
finish env (ids, failed) = processed env ids >> (retry env failed >> commit_batch env)

pub batch : JobEnv → List Job → Work Bool
unfolding enqueue finish
batch env [] = commit_batch env
batch env (j ∷ jobs) = enqueue env (j ∷ jobs) >>= finish env

pub fetch : JobEnv → Work (List Job)
unfolding fetch_due
fetch env = run (env.fails fetch_op) (fetch_due env.now env.batch_size) >>= expect false

pub process_batch : JobEnv → Queue → Bool × Queue
unfolding fetch batch
process_batch env q =
    if env.fails begin_op then (false, q) else close ((fetch env >>= batch env) (begin q))

-- What the consumer's handler reads: `reminderRequest`, if the message is such JSON.
pub record ReminderRequest : Type 0 where
  pub appointment_id : String
  pub business_id : String
  pub channel : String
  pub recipient : String
  pub remind_at : String
  pub template : String

pub has_key : String → List Job → Bool
has_key key [] = false
has_key key (j ∷ jobs) = j.idempotency_key == key || has_key key jobs

-- The defaults of the columns that Insert leaves out; `$6` is both remind_at and next_run_at.
pub new_job : ℕ → String → ReminderRequest → ℕ → Job
new_job id key req at = record {
  id = id;
  idempotency_key = key;
  appointment_id = req.appointment_id;
  business_id = req.business_id;
  channel = req.channel;
  recipient = req.recipient;
  remind_at = at;
  template = req.template;
  attempts = 0;
  max_attempts = 5;
  next_run_at = at;
  status = "pending";
  last_error = "";
}

-- Insert: ON CONFLICT (idempotency_key) DO NOTHING.
pub insert_request : ℕ → String → ReminderRequest → ℕ → Statement Queue (Unit {0})
unfolding has_key new_job
insert_request id key req at q =
    if has_key key q.jobs
    then ok (tt, q)
    else ok (tt, record q { jobs = q.jobs ++ new_job id key req at ∷ [] })

pub data TakeOp : Type 0 where
  begin_op insert_op commit_op : TakeOp

-- `fresh_id` is what the sequence of the ids gives to this insert: a sequence keeps no part in a transaction,
-- so a rollback does not take it back.
pub record TakeEnv : Type 0 where
  pub fails : TakeOp → Bool
  pub fresh_id : ℕ
  pub parse_time : String → Option ℕ

pub is_incomplete : ReminderRequest → Bool
unfolding is_empty
is_incomplete req =
    is_empty req.appointment_id
    || is_empty req.business_id
    || is_empty req.channel
    || is_empty req.recipient
    || is_empty req.remind_at

-- payload.AppointmentID + "|" + payload.RemindAt + "|" + payload.Channel.
pub key_of : ReminderRequest → String
key_of req = cat req.appointment_id (cat "|" (cat req.remind_at (cat "|" req.channel)))

pub commit_taken : TakeEnv → Work Bool
commit_taken env t = let (done, u) = commit (env.fails TakeOp.commit_op) t in reply done u

pub insert_taken : TakeEnv → ReminderRequest → ℕ → Work Bool
unfolding insert_request key_of commit_taken
insert_taken env req at =
    (run (env.fails insert_op) (insert_request env.fresh_id (key_of req) req at) >>= expect false)
    >> commit_taken env

pub store_request : TakeEnv → ReminderRequest → Queue → Option ℕ → Bool × Queue
unfolding insert_taken
store_request env req q none = (true, q)
store_request env req q (some at) =
    if env.fails TakeOp.begin_op then (false, q) else close (insert_taken env req at (begin q))

-- The handler: what cannot be read is dropped without an error.
pub take_request : TakeEnv → Option ReminderRequest → Queue → Bool × Queue
unfolding is_incomplete store_request
take_request env none q = (true, q)
take_request env (some req) q =
    if is_incomplete req then (true, q) else store_request env req q (env.parse_time req.remind_at)
