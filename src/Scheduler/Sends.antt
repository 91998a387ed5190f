-- ===== src/Scheduler/Sends.antt =====
-- internal/jobs/worker.go: a batch in which nothing fails sends the reminders that are due.
use appt_remind.Base.{◌≡◌, refl, sym, ◌∙◌, ap, Bool, true, false, List, [], ◌∷◌, ◌++◌, map}
use appt_remind.Tx.{
  ok, Statement, Tx, Outcome, reply, next, begin, exec, commit, run, expect, close, ◌>>=◌, ◌>>◌,
}
use appt_remind.Scheduler.{
  Job, Queue, JobEnv, JobOp, event_op, processed_op, fetch_op, begin_op, commit_op, due_jobs, is_in,
  fetch_due, insert_event, due_event, mark_processed, processed_rows, sort_out, enqueue, processed,
  retry, commit_batch, finish, batch, fetch, process_batch,
}
use appt_remind.Scheduler.Batch.{Processed, ids_of}
use mathlib.Core.List.{append_assoc, append-nil}

bind_next :
    {A B : Type 0} (m : Tx Queue → Outcome Bool Queue A) (k : A → Tx Queue → Outcome Bool Queue B)
    (t u : Tx Queue) (a : A)
    → m t ≡ next a u
    → (m >>= k) t ≡ k a u
bind_next m k t u a e = ap (λ o. elim o [ reply r v ↦ reply r v | next b v ↦ k b v ]) e

seq_next :
    {B : Type 0} (m : Tx Queue → Outcome Bool Queue (Unit {0}))
    (k : Tx Queue → Outcome Bool Queue B) (t u : Tx Queue)
    → m t ≡ next tt u
    → (m >> k) t ≡ k u
seq_next m k t u e = ap (λ o. elim o [ reply r v ↦ reply r v | next b v ↦ k v ]) e

module _ (env : JobEnv) (calm : (op : JobOp) → env.fails op ≡ false) where
  -- A statement that is not refused has its effect.
  executed :
      {A : Type 0} (op : JobOp) (stmt : Statement Queue A) (t : Tx Queue) (a : A) (q : Queue)
      → t.aborted ≡ false
      → stmt t.working ≡ ok (a, q)
      → exec (env.fails op) stmt t ≡ (ok a, record t { working = q })
  unfolding exec
  executed op stmt t a q alive e = rw (calm op, alive, e) refl

  abbrev announced : List Job → Queue → Queue
  announced jobs q = record q { outbox = q.outbox ++ map (due_event env) jobs }

  enqueue_calm :
      (jobs : List Job) (t : Tx Queue)
      → t.aborted ≡ false
      → enqueue env jobs t
        ≡ next (ids_of jobs, []) (record t { working = announced jobs t.working })
  unfolding enqueue
  enqueue_calm [] t alive =
      ap (λ events. next ([], []) (record t { working = record t.working { outbox = events } }))
        (sym (append-nil t.working.outbox))
  enqueue_calm (j ∷ jobs) t alive =
      let q = announced (j ∷ []) t.working in
      let e =
        executed (event_op j.id) (insert_event (due_event env j)) t tt q alive
          (unfold insert_event in refl) in
      let rest = enqueue_calm jobs (record t { working = q }) alive in
      let joined =
        append_assoc t.working.outbox (due_event env j ∷ []) (map (due_event env) jobs) in
      let run_event = run (env.fails (event_op j.id)) (insert_event (due_event env j)) in
      let u = record t { working = q } in
      bind_next run_event (λ res. enqueue env jobs >>= λ sorted. next (sort_out j res sorted)) t u
        (ok tt) (ap (λ r. next r.0 r.1) e)
      ∙ bind_next (enqueue env jobs) (λ sorted. next (sort_out j (ok tt) sorted)) u _
          (ids_of jobs, []) rest
      ∙ ap
          (λ events.
            next (ids_of (j ∷ jobs), [])
              (record t { working = record t.working { outbox = events } }))
          joined

  expected :
      {A : Type 0} (op : JobOp) (stmt : Statement Queue A) (t : Tx Queue) (a : A) (q : Queue)
      → t.aborted ≡ false
      → stmt t.working ≡ ok (a, q)
      → (run (env.fails op) stmt >>= expect false) t ≡ next a (record t { working = q })
  expected op stmt t a q alive e =
      bind_next (run (env.fails op) stmt) (expect false) t (record t { working = q }) (ok a)
        (ap (λ r. next r.0 r.1) (executed op stmt t a q alive e))

  abbrev sent : List Job → Queue → Queue
  sent jobs q = record (announced jobs q) { jobs = processed_rows (ids_of jobs) q.jobs }

  commit_calm :
      (t : Tx Queue)
      → t.aborted ≡ false
      → commit_batch env t ≡ reply true (record t { committed = t.working })
  unfolding commit_batch commit
  commit_calm t alive = rw (alive, calm commit_op) refl

  finish_calm :
      (j : Job) (jobs : List Job) (t : Tx Queue)
      → t.aborted ≡ false
      → close (finish env (ids_of (j ∷ jobs), []) t)
        ≡ (true, record t.working { jobs = processed_rows (ids_of (j ∷ jobs)) t.working.jobs })
  unfolding finish processed retry
  finish_calm j jobs t alive =
      let q = record t.working { jobs = processed_rows (ids_of (j ∷ jobs)) t.working.jobs } in
      let ids = ids_of (j ∷ jobs) in
      let u = record t { working = q } in
      let e =
        expected processed_op (mark_processed ids) t tt q alive (unfold mark_processed in refl) in
      ap (λ o. close o)
        (seq_next (run (env.fails processed_op) (mark_processed ids) >>= expect false)
            (retry env [] >> commit_batch env) t u e
          ∙ commit_calm u alive)

  none_processed : (jobs : List Job) → processed_rows [] jobs ≡ jobs
  unfolding processed_rows is_in
  none_processed [] = refl
  none_processed (j ∷ jobs) = ap (λ rest. j ∷ rest) (none_processed jobs)

  same_rows : (q : Queue) → q ≡ sent [] q
  same_rows q = let f = none_processed q.jobs in let g = append-nil q.outbox in cc

  batch_calm :
      (jobs : List Job) (q : Queue) → close (batch env jobs (begin q)) ≡ (true, sent jobs q)
  unfolding batch
  batch_calm [] q =
      ap (λ o. close o) (commit_calm (begin q) refl) ∙ ap (λ r. (true, r)) (same_rows q)
  batch_calm (j ∷ jobs) q =
      let u = record (begin q) { working = announced (j ∷ jobs) q } in
      ap (λ o. close o)
        (bind_next (enqueue env (j ∷ jobs)) (finish env) (begin q) u (ids_of (j ∷ jobs), [])
          (enqueue_calm (j ∷ jobs) (begin q) refl))
      ∙ finish_calm j jobs u refl

  process_batch_calm :
      (q : Queue) → process_batch env q ≡ (true, sent (due_jobs env.now env.batch_size q.jobs) q)
  unfolding process_batch fetch
  process_batch_calm q =
      let due = due_jobs env.now env.batch_size q.jobs in
      let e =
        expected fetch_op (fetch_due env.now env.batch_size) (begin q) due q refl
          (unfold fetch_due in refl) in
      rw (calm begin_op) (
        ap (λ o. close o) (bind_next (fetch env) (batch env) (begin q) (begin q) due e)
        ∙ batch_calm due q)

-- A batch in which no statement is refused reports no error and sends the reminders: the due jobs of the batch
-- are marked as processed, the event of each is appended to the outbox, and nothing else changes.
pub process_batch_sends :
    (env : JobEnv) (q : Queue)
    → ((op : JobOp) → env.fails op ≡ false)
    → ((process_batch env q).0 ≡ true) × Processed env q (process_batch env q).1
process_batch_sends env q calm =
    rw (process_batch_calm env calm q) (refl, record { jobs = refl; events = refl })
