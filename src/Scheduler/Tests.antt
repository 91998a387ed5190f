-- ===== src/Scheduler/Tests.antt =====
-- Runs of the reminder worker and of the consumer's handler.
use appt_remind.Base.{
  arith, ◌≡◌, refl, ap, ◌⊎◌, if◌then◌else◌, true, false, none, some, [], ◌∷◌, ◌==◌,
}
use appt_remind.Tx.{exec, commit}
use appt_remind.Scheduler.{
  Queue, JobEnv, event_op, is_due, insert_job, order_jobs, due_jobs, fetch_due, insert_event, is_in,
  processed_rows, mark_processed, due_event, enqueue, processed, retry, commit_batch, finish, batch,
  fetch, process_batch, ReminderRequest, has_key, new_job, insert_request, TakeEnv, is_incomplete,
  key_of, commit_taken, insert_taken, store_request, take_request,
}
use appt_remind.Scheduler.Drained.{AreHandled, process_batch-AreHandled}
use appt_remind.Scheduler.Batch.{Processed, process_batch-Processed}
use appt_remind.Scheduler.Sends.{process_batch_sends}
use appt_remind.Scheduler.Kept.{take_request-again}

abbrev worker : JobEnv
worker = record {
  fails = λ op. false;
  now = 10;
  format_utc = λ at. "T";
  batch_size = 2;
  backoff = 5;
}

abbrev taker : TakeEnv
taker = record {
  fails = λ op. false;
  fresh_id = 1;
  parse_time = λ s. if s == "5" then some 5 else none;
}

abbrev reminder : ReminderRequest
reminder = record {
  appointment_id = "a";
  business_id = "b";
  channel = "email";
  recipient = "r";
  remind_at = "5";
  template = "";
}

abbrev nothing : Queue
nothing = record { jobs = []; outbox = [] }

abbrev one_job : Queue
one_job = record { jobs = new_job 1 "a|5|email" reminder 5 ∷ []; outbox = [] }

taken : take_request taker (some reminder) nothing ≡ (true, one_job)
unfolding take_request store_request insert_taken is_incomplete insert_request has_key key_of
    commit_taken exec commit new_job
taken = refl

sent : process_batch worker one_job ≡ (
  true,
  record {
    jobs = record (new_job 1 "a|5|email" reminder 5) { status = "processed" } ∷ [];
    outbox = due_event worker (new_job 1 "a|5|email" reminder 5) ∷ [];
  },
)
unfolding process_batch fetch batch fetch_due due_jobs is_due order_jobs insert_job enqueue
    insert_event finish processed mark_processed processed_rows is_in retry commit_batch exec commit
    new_job due_event
sent = refl

-- The outbox refuses the event: the batch changes nothing, no attempt is counted.
refused :
    process_batch
      (record worker { fails = λ op. elim op [ event_op i ↦ true | _ ↦ false ] })
      one_job
    ≡ (false, one_job)
unfolding process_batch fetch batch fetch_due due_jobs is_due order_jobs insert_job enqueue
    insert_event finish processed retry exec new_job due_event
refused = refl

process_batch-Processed_example :
    ((process_batch worker one_job).1 ≡ one_job)
    ⊎ (((process_batch worker one_job).0 ≡ true)
        × Processed worker one_job (process_batch worker one_job).1)
process_batch-Processed_example = process_batch-Processed worker one_job

take_request-again_example :
    let between = (process_batch worker (take_request taker (some reminder) nothing).1).1 in
    (take_request taker (some reminder) between).1.jobs ≡ between.jobs
take_request-again_example =
    take_request-again taker taker worker reminder nothing refl (ap (λ r. r.0) taken)

process_batch_sends_example :
    ((process_batch worker one_job).0 ≡ true)
    × Processed worker one_job (process_batch worker one_job).1
process_batch_sends_example = process_batch_sends worker one_job (λ op. refl)

-- Of two jobs one is due.
abbrev two_jobs : Queue
two_jobs = record {
  jobs = new_job 1 "a|5|email" reminder 5 ∷ new_job 2 "b|5000|email" reminder 5000 ∷ [];
  outbox = [];
}

process_batch-AreHandled_example :
    ((process_batch worker two_jobs).0 ≡ true)
    × AreHandled worker.now two_jobs.jobs (process_batch worker two_jobs).1.jobs
unfolding new_job
process_batch-AreHandled_example =
    process_batch-AreHandled worker two_jobs (λ op. refl) ((omega arith, tt), (tt, tt))
      (omega arith)
