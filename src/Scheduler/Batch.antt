-- ===== src/Scheduler/Batch.antt =====
-- A batch of the worker is done whole or not at all.
use appt_remind.Base.{
  ℕ, suc, ◌+◌, ◌≡◌, refl, sym, ◌∙◌, ap, subst, ◌⊎◌, inl, inr, Bool, true, false, List, [], ◌∷◌,
  ◌++◌, map, arith, Bool-cases,
}
use mathlib.Core.List.{append_assoc, append-nil}
use appt_remind.Tx.{
  Result, ok, err, Statement, Tx, Outcome, reply, next, begin, commit, run, expect, close, ◌>>=◌,
  ◌>>◌,
}
use appt_remind.Tx.Rules.{
  Ensures, Ensures-bind, Ensures-seq, Ensures-mono, Ran, run-Ran, Did, Ensures-expect, commit_cases,
}
use appt_remind.Scheduler.{
  Job, Event, Queue, JobEnv, due_jobs, fetch_due, insert_event, processed_rows, mark_processed,
  mark_failed, due_event, Sorted, sort_out, enqueue, processed, dead_letter, retry, commit_batch,
  finish, batch, fetch, process_batch, event_op, failed_op, processed_op, fetch_op, commit_op,
  begin_op,
}

abbrev pub ids_of : List Job → List ℕ
ids_of jobs = map (λ j. j.id) jobs

-- The due jobs of the batch are processed, each with its event, and nothing else changes.
pub record Processed (env : JobEnv) (before : Queue) (after : Queue) : Type 0 where
  pub jobs :
      after.jobs ≡ processed_rows (ids_of (due_jobs env.now env.batch_size before.jobs)) before.jobs
  pub events :
      after.outbox
      ≡ before.outbox ++ map (due_event env) (due_jobs env.now env.batch_size before.jobs)

module _ (env : JobEnv) (q : Queue) where
  abbrev Done : Bool → Tx Queue → Type 0
  Done r t = (t.committed ≡ q) ⊎ ((r ≡ true) × Processed env q t.committed)

  -- Nothing is committed, and the transaction is aborted or sees `w`.
  abbrev Sees : Queue → Tx Queue → Type 0
  Sees w t = (t.committed ≡ q) × ((t.aborted ≡ true) ⊎ (t.working ≡ w))

  abbrev with_events : List Event → Queue
  with_events events = record q { outbox = q.outbox ++ events }

  -- The loop has enqueued these jobs after those events, or a statement has failed.
  abbrev Enqueued : List Event → List Job → Sorted → Tx Queue → Type 0
  Enqueued events jobs s t =
      (t.committed ≡ q)
      × ((t.aborted ≡ true)
          ⊎ ((s.0 ≡ ids_of jobs)
              × (s.1 ≡ [])
              × (t.working ≡ with_events (events ++ map (due_event env) jobs))))

  insert_event-Sees :
      (events : List Event) (j : Job) (t u : Tx Queue) (res : Result (Unit {0}))
      → Sees (with_events events) t
      → Ran (insert_event (due_event env j)) t res u
      → (u.committed ≡ q)
        × ((u.aborted ≡ true)
            ⊎ ((res ≡ ok tt) × (u.working ≡ with_events (events ++ due_event env j ∷ []))))
  unfolding insert_event
  insert_event-Sees events j t u (err e) s (c, w, inl dead) = (c ∙ s.0, inl dead)
  insert_event-Sees events j t u (err e) s (c, w, inr (same, stmt)) = cc
  insert_event-Sees events j t u (ok _) (c, inl dead) (d, alive, stmt, e) = cc
  insert_event-Sees events j t u (ok _) (c, inr w) (d, alive, stmt, e) =
      let joined = append_assoc q.outbox events (due_event env j ∷ []) in
      let f = rw w at stmt in rw e (c, inr (refl, ground (arith, joined)))

  abbrev IsDead : Tx Queue → Type 0
  IsDead t = (t.committed ≡ q) × (t.aborted ≡ true)

  -- Once a statement has failed, every later one does.
  insert_event-IsDead :
      (j : Job) (t u : Tx Queue) (res : Result (Unit {0}))
      → IsDead t
      → Ran (insert_event (due_event env j)) t res u
      → IsDead u
  unfolding insert_event
  insert_event-IsDead j t u (err e) d (c, w, inl dead) = (c ∙ d.0, dead)
  insert_event-IsDead j t u (err e) d (c, w, inr (same, stmt)) = cc
  insert_event-IsDead j t u (ok _) d (w, alive, stmt, e) = cc

  enqueue-IsDead :
      (jobs : List Job) (t : Tx Queue) → IsDead t → Ensures Done (λ _. IsDead) (enqueue env jobs t)
  unfolding enqueue
  enqueue-IsDead [] t d = d
  enqueue-IsDead (j ∷ jobs) t d =
      Ensures-bind Done (Ran (insert_event (due_event env j)) t) (λ _. IsDead)
        (run (env.fails (event_op j.id)) (insert_event (due_event env j)))
        (λ res. enqueue env jobs >>= λ sorted. next (sort_out j res sorted)) t
        (run-Ran Done (env.fails (event_op j.id)) (insert_event (due_event env j)) t)
        (λ res u h.
          Ensures-bind Done (λ _. IsDead) (λ _. IsDead) (enqueue env jobs)
            (λ sorted. next (sort_out j res sorted)) u
            (enqueue-IsDead jobs u (insert_event-IsDead j t u res d h)) (λ sorted v k. k))

  sort_out-Enqueued :
      (events : List Event) (j : Job) (jobs : List Job) (s : Sorted) (v : Tx Queue)
      → Enqueued (events ++ due_event env j ∷ []) jobs s v
      → Enqueued events (j ∷ jobs) (sort_out j (ok tt) s) v
  sort_out-Enqueued events j jobs s v (c, inl dead) = (c, inl dead)
  sort_out-Enqueued events j jobs s v (c, inr (i, f, w)) =
      let joined = append_assoc events (due_event env j ∷ []) (map (due_event env) jobs) in
      (c, inr (rw i refl, f, w ∙ rw joined refl))

  enqueue_rest :
      (events : List Event) (j : Job) (jobs : List Job) (res : Result (Unit {0})) (u : Tx Queue)
      → (u.committed ≡ q)
        × ((u.aborted ≡ true)
            ⊎ ((res ≡ ok tt) × (u.working ≡ with_events (events ++ due_event env j ∷ []))))
      → (Sees (with_events (events ++ due_event env j ∷ [])) u
          → Ensures Done (Enqueued (events ++ due_event env j ∷ []) jobs) (enqueue env jobs u))
      → Ensures Done
          (Enqueued events (j ∷ jobs))
          ((enqueue env jobs >>= λ sorted. next (sort_out j res sorted)) u)
  enqueue_rest events j jobs res u (c, inl dead) later =
      Ensures-bind Done (λ _. IsDead) (Enqueued events (j ∷ jobs)) (enqueue env jobs)
        (λ sorted. next (sort_out j res sorted)) u (enqueue-IsDead jobs u (c, dead))
        (λ sorted v k. (k.0, inl k.1))
  enqueue_rest events j jobs res u (c, inr (e, w)) later =
      Ensures-bind Done (Enqueued (events ++ due_event env j ∷ []) jobs)
        (Enqueued events (j ∷ jobs)) (enqueue env jobs) (λ sorted. next (sort_out j res sorted)) u
        (later (c, inr w)) (λ sorted v k. rw e (sort_out-Enqueued events j jobs sorted v k))

  enqueue-Enqueued :
      (events : List Event) (jobs : List Job) (t : Tx Queue)
      → Sees (with_events events) t
      → Ensures Done (Enqueued events jobs) (enqueue env jobs t)
  unfolding enqueue
  enqueue-Enqueued events [] t (c, inl dead) = (c, inl dead)
  enqueue-Enqueued events [] t (c, inr w) = (c, inr (refl, refl, w ∙ rw (append-nil events) refl))
  enqueue-Enqueued events (j ∷ jobs) t s =
      Ensures-bind Done (Ran (insert_event (due_event env j)) t) (Enqueued events (j ∷ jobs))
        (run (env.fails (event_op j.id)) (insert_event (due_event env j)))
        (λ res. enqueue env jobs >>= λ sorted. next (sort_out j res sorted)) t
        (run-Ran Done (env.fails (event_op j.id)) (insert_event (due_event env j)) t)
        (λ res u h.
          enqueue_rest events j jobs res u (insert_event-Sees events j t u res s h)
            (enqueue-Enqueued (events ++ due_event env j ∷ []) jobs u))

  abbrev marked : List Job → Queue
  marked jobs = record (with_events (map (due_event env) jobs)) {
    jobs = processed_rows (ids_of jobs) q.jobs;
  }

  -- A statement after a failed one is answered by its error.
  expect-IsDead :
      (fails : Bool) (stmt : Statement Queue (Unit {0})) (t : Tx Queue)
      → IsDead t
      → Ensures Done (λ _. IsDead) ((run fails stmt >>= expect false) t)
  expect-IsDead fails stmt t d =
      Ensures-mono Done (Did stmt t) (λ _. IsDead) ((run fails stmt >>= expect false) t)
        (Ensures-expect Done fails stmt false t (λ u c. inl (c ∙ d.0))) (λ a u h. cc)

  processed-IsDead :
      (ids : List ℕ) (t : Tx Queue) → IsDead t → Ensures Done (λ _. IsDead) (processed env ids t)
  unfolding processed
  processed-IsDead [] t d = d
  processed-IsDead (i ∷ ids) t d =
      expect-IsDead (env.fails processed_op) (mark_processed (i ∷ ids)) t d

  abbrev failing : Job → Statement Queue (Unit {0})
  failing j =
      mark_failed j.id (suc j.attempts) j.max_attempts (env.now + env.backoff)
        "outbox enqueue failed"

  retry-IsDead :
      (jobs : List Job) (t : Tx Queue) → IsDead t → Ensures Done (λ _. IsDead) (retry env jobs t)
  unfolding retry
  retry-IsDead [] t d = d
  retry-IsDead (j ∷ jobs) t d =
      Ensures-seq Done (λ _ _. ⊥) (λ _. IsDead)
        (run (env.fails (failed_op j.id)) (failing j) >>= expect false)
        (dead_letter env j >> retry env jobs) t
        (Ensures-mono Done (Did (failing j) t) (λ _ _. ⊥) _
          (Ensures-expect Done (env.fails (failed_op j.id)) (failing j) false t
            (λ u c. inl (c ∙ d.0)))
          (λ a u h. cc))
        (λ u h. absurd h)

  finish_dead : (s : Sorted) (t : Tx Queue) → IsDead t → Ensures Done (λ _ _. ⊥) (finish env s t)
  unfolding finish commit_batch commit
  finish_dead (ids, failed) t d =
      Ensures-seq Done (λ _. IsDead) (λ _ _. ⊥) (processed env ids)
        (retry env failed >> commit_batch env) t (processed-IsDead ids t d)
        (λ u h.
          Ensures-seq Done (λ _. IsDead) (λ _ _. ⊥) (retry env failed) (commit_batch env) u
            (retry-IsDead failed u h) (λ v k. rw k.1 (inl k.0)))

  mark_processed-Sees :
      (j : Job) (jobs : List Job) (t u : Tx Queue) (a : Unit {0})
      → Sees (with_events (map (due_event env) (j ∷ jobs))) t
      → Did (mark_processed (ids_of (j ∷ jobs))) t a u
      → Sees (marked (j ∷ jobs)) u
  unfolding mark_processed
  mark_processed-Sees j jobs t u a (c, inl dead) (d, alive, stmt, e) = cc
  mark_processed-Sees j jobs t u a (c, inr w) (d, alive, stmt, e) =
      let f = rw w at stmt in rw e (c, inr (ground arith))

  processed-marked :
      (j : Job) (jobs : List Job) (t : Tx Queue)
      → Sees (with_events (map (due_event env) (j ∷ jobs))) t
      → Ensures Done (λ _. Sees (marked (j ∷ jobs))) (processed env (ids_of (j ∷ jobs)) t)
  unfolding processed
  processed-marked j jobs t s =
      let ids = ids_of (j ∷ jobs) in
      Ensures-mono Done (Did (mark_processed ids) t) (λ _. Sees (marked (j ∷ jobs))) _
        (Ensures-expect Done (env.fails processed_op) (mark_processed ids) false t
          (λ u c. inl (c ∙ s.0)))
        (λ a u h. mark_processed-Sees j jobs t u a s h)

  alive-Sees : (w : Queue) (t : Tx Queue) → Sees w t → t.aborted ≡ false → t.working ≡ w
  alive-Sees w t (c, inl dead) alive = cc
  alive-Sees w t (c, inr same) alive = same

  marked-Processed :
      (jobs : List Job) (w : Queue)
      → jobs ≡ due_jobs env.now env.batch_size q.jobs
      → w ≡ marked jobs
      → Processed env q w
  marked-Processed jobs w due same = record {
    jobs = ap (λ x. x.jobs) same ∙ ap (λ js. processed_rows (ids_of js) q.jobs) due;
    events = ap (λ x. x.outbox) same ∙ ap (λ js. q.outbox ++ map (due_event env) js) due;
  }

  -- What is committed is what the transaction saw, if it is a change at all.
  commit_batch-Done :
      (w : Queue) (t : Tx Queue)
      → (w ≡ q) ⊎ Processed env q w
      → Sees w t
      → Ensures Done (λ _ _. ⊥) (commit_batch env t)
  unfolding commit_batch
  commit_batch-Done w t good s = elim (commit_cases (env.fails commit_op) t) [
    | inl e ↦ rw e (inl s.0)
    | inr (alive, e) ↦ rw e (settled (alive-Sees w t s alive) good)
  ]
    where
      settled :
          t.working ≡ w
          → (w ≡ q) ⊎ Processed env q w
          → Done true (record t { committed = t.working })
      settled same (inl none) = inl (same ∙ none)
      settled same (inr p) = inr (refl, subst (Processed env q) (sym same) p)

  finish-Done :
      (j : Job) (jobs : List Job) (s : Sorted) (t : Tx Queue)
      → j ∷ jobs ≡ due_jobs env.now env.batch_size q.jobs
      → Enqueued [] (j ∷ jobs) s t
      → Ensures Done (λ _ _. ⊥) (finish env s t)
  unfolding finish retry
  finish-Done j jobs s t due (c, inl dead) = finish_dead s t (c, dead)
  finish-Done j jobs s t due (c, inr (i, f, w)) = rw i (
      rw f (
        Ensures-seq Done (λ _. Sees (marked (j ∷ jobs))) (λ _ _. ⊥)
          (processed env (ids_of (j ∷ jobs))) (retry env [] >> commit_batch env) t
          (processed-marked j jobs t (c, inr w))
          (λ u h.
            commit_batch-Done (marked (j ∷ jobs)) u (inr (marked-Processed (j ∷ jobs) _ due refl))
              h)))

  batch-Done :
      (jobs : List Job) (t : Tx Queue)
      → jobs ≡ due_jobs env.now env.batch_size q.jobs
      → Sees q t
      → Ensures Done (λ _ _. ⊥) (batch env jobs t)
  unfolding batch
  batch-Done [] t due s = commit_batch-Done q t (inl refl) s
  batch-Done (j ∷ jobs) t due s =
      Ensures-bind Done (Enqueued [] (j ∷ jobs)) (λ _ _. ⊥) (enqueue env (j ∷ jobs)) (finish env) t
        (enqueue-Enqueued [] (j ∷ jobs) t (opened s))
        (λ sorted u h. finish-Done j jobs sorted u due h)
    where
      opened : Sees q t → Sees (with_events []) t
      opened (c, inl dead) = (c, inl dead)
      opened (c, inr w) = (c, inr (w ∙ rw (append-nil q.outbox) refl))

  fetched-Sees :
      (jobs : List Job) (u : Tx Queue)
      → Did (fetch_due env.now env.batch_size) (begin q) jobs u
      → (jobs ≡ due_jobs env.now env.batch_size q.jobs) × Sees q u
  unfolding fetch_due
  fetched-Sees jobs u (d, alive, stmt, e) = let same : d ≡ q = cc in (cc, rw e (refl, inr same))

  fetched-Done : Ensures Done (λ _ _. ⊥) ((fetch env >>= batch env) (begin q))
  unfolding fetch fetch_due
  fetched-Done =
      Ensures-bind Done (Did (fetch_due env.now env.batch_size) (begin q)) (λ _ _. ⊥) (fetch env)
        (batch env) (begin q)
        (Ensures-expect Done (env.fails fetch_op) (fetch_due env.now env.batch_size) false (begin q)
          (λ u c. inl c))
        (λ jobs u h. let f = fetched-Sees jobs u h in batch-Done jobs u f.0 f.1)

  closed-Done :
      (o : Outcome Bool Queue Bool)
      → Ensures Done (λ _ _. ⊥) o
      → ((close o).1 ≡ q) ⊎ (((close o).0 ≡ true) × Processed env q (close o).1)
  closed-Done (reply r t) h = h
  closed-Done (next r t) h = absurd h

-- A batch is done whole or not at all: either no row changes, or the worker reports no error, the due jobs of the batch
-- are marked as processed, the event of each is appended to the outbox in the jobs' order, and nothing else changes.
-- So no attempt is ever counted and no dead letter is written, whichever statements fail.
pub process_batch-Processed :
    (env : JobEnv) (q : Queue)
    → ((process_batch env q).1 ≡ q)
      ⊎ (((process_batch env q).0 ≡ true) × Processed env q (process_batch env q).1)
unfolding process_batch
process_batch-Processed env q = elim (Bool-cases (env.fails begin_op)) [
  | inl e ↦ rw e (inl refl)
  | inr e ↦ rw e (closed-Done env q ((fetch env >>= batch env) (begin q)) (fetched-Done env q))
]
