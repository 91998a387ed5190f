-- ===== src/Scheduler/Drained.antt =====
-- internal/jobs/worker.go and the statements of internal/jobs/repository.go, row by row: what a batch that has
-- room for all that is due does to each job.
use appt_remind.Base.{
  take-count, count-filter, All-both, ℕ, ◌+◌, ◌≤◌, ◌<◌, ◌≡◌, ◌≢◌, ◌⊎◌, inl, inr, refl, sym, subst,
  ◌∙◌, ap, Bool, true, false, ◌&&◌, List, [], ◌∷◌, ◌==◌, eq_iff, leb, ltb, eqb, filter, count, All,
  Bool-cases, arith, if◌then◌else◌,
}
use appt_remind.Scheduler.{
  Job, Queue, JobEnv, JobOp, is_due, insert_job, order_jobs, due_jobs, is_in, processed_rows,
  process_batch,
}
use appt_remind.Scheduler.Batch.{ids_of}
use appt_remind.Scheduler.Sends.{process_batch_sends}

-- `id` is the primary key of scheduled_jobs.
abbrev pub AreKeyed : List Job → Type 0
AreKeyed [] = Unit {0}
AreKeyed (j ∷ jobs) = All (λ k. k.id ≢ j.id) jobs × AreKeyed jobs

-- A pending job whose time has come is processed, and any other job is left.
abbrev pub IsHandled : ℕ → Job → Job → Type 0
IsHandled now j k =
    ((j.status ≡ "pending") × (j.next_run_at ≤ now) × (k ≡ record j { status = "processed" }))
    ⊎ (((j.status ≢ "pending") ⊎ (now < j.next_run_at)) × (k ≡ j))

abbrev pub AreHandled : ℕ → List Job → List Job → Type 0
AreHandled now [] [] = Unit {0}
AreHandled now [] (k ∷ after) = ⊥
AreHandled now (j ∷ before) [] = ⊥
AreHandled now (j ∷ before) (k ∷ after) = IsHandled now j k × AreHandled now before after

count-insert_job :
    (p : Job → Bool) (j : Job) (jobs : List Job)
    → count p (insert_job j jobs) ≡ (if p j then 1 else 0) + count p jobs
unfolding insert_job
count-insert_job p j [] = refl
count-insert_job p j (k ∷ jobs) = let rest = count-insert_job p j jobs in ground arith

count-order_jobs : (p : Job → Bool) (jobs : List Job) → count p (order_jobs jobs) ≡ count p jobs
unfolding order_jobs
count-order_jobs p [] = refl
count-order_jobs p (j ∷ jobs) =
    let rest = count-order_jobs p jobs in ground (arith, count-insert_job p j (order_jobs jobs))

is_in-count :
    (id : ℕ) (jobs : List Job) → is_in id (ids_of jobs) ≡ ltb 0 (count (λ j. eqb j.id id) jobs)
unfolding is_in
is_in-count id [] = refl
is_in-count id (j ∷ jobs) = let rest = is_in-count id jobs in ground arith

is_in-order_jobs :
    (id : ℕ) (jobs : List Job) → is_in id (ids_of (order_jobs jobs)) ≡ is_in id (ids_of jobs)
is_in-order_jobs id jobs =
    is_in-count id (order_jobs jobs)
    ∙ ap (λ n. ltb 0 n) (count-order_jobs (λ j. eqb j.id id) jobs)
    ∙ sym (is_in-count id jobs)

module _ (p : Job → Bool) where
  is_in-filter_other :
      (id : ℕ) (jobs : List Job)
      → All (λ k. k.id ≢ id) jobs
      → is_in id (ids_of (filter p jobs)) ≡ false
  unfolding is_in
  is_in-filter_other id [] h = refl
  is_in-filter_other id (k ∷ jobs) h =
      let rest = is_in-filter_other id jobs h.1 in let other = h.0 in ground arith

  -- Among rows of different ids, the ids of those that pass are in the list, and no others.
  is_in-filter :
      (jobs : List Job) → AreKeyed jobs → All (λ j. is_in j.id (ids_of (filter p jobs)) ≡ p j) jobs
  unfolding is_in
  is_in-filter [] h = tt
  is_in-filter (j ∷ jobs) h =
      let none = is_in-filter_other j.id jobs h.0 in
      (ground arith, All-both (λ k e other. ground arith) jobs (is_in-filter jobs h.1) h.0)

is_due_cases :
    (now : ℕ) (j : Job)
    → (j.status == "pending" && leb j.next_run_at now ≡ true
        → (j.status ≡ "pending") × (j.next_run_at ≤ now))
      × (j.status == "pending" && leb j.next_run_at now ≡ false
          → (j.status ≢ "pending") ⊎ (now < j.next_run_at))
is_due_cases now j =
    (λ e. ground (arith, eq_iff j.status "pending"), λ e. ground (arith, eq_iff j.status "pending"))

processed_rows-AreHandled :
    (now : ℕ) (ids : List ℕ) (jobs : List Job)
    → All (λ j. is_in j.id ids ≡ is_due now j) jobs
    → AreHandled now jobs (processed_rows ids jobs)
unfolding processed_rows is_due
processed_rows-AreHandled now ids [] h = tt
processed_rows-AreHandled now ids (j ∷ jobs) h =
    let rest = processed_rows-AreHandled now ids jobs h.1 in
    let judged = is_due_cases now j in
    elim (Bool-cases (j.status == "pending" && leb j.next_run_at now)) [
      | inl e ↦ rw (h.0, e) (let d = judged.0 e in inl (d.0, d.1, refl), rest)
      | inr e ↦ rw (h.0, e) (inr (judged.1 e, refl), rest)
    ]

due_jobs-all :
    (now limit : ℕ) (jobs : List Job)
    → count (is_due now) jobs ≤ limit
    → due_jobs now limit jobs ≡ order_jobs (filter (is_due now) jobs)
unfolding due_jobs
due_jobs-all now limit jobs room = take-count limit (order_jobs (filter (is_due now) jobs)) (
    subst (λ n. n ≤ limit)
      (sym
        (count-order_jobs (λ _. true) (filter (is_due now) jobs) ∙ count-filter (is_due now) jobs))
      room)

-- A batch in which no statement is refused, where no two jobs have one id and no more jobs are due than a
-- batch takes, reports no error and handles every job: one that is pending and whose time has come
-- is processed, and any other is left as it was.
pub process_batch-AreHandled :
    (env : JobEnv) (q : Queue)
    → ((op : JobOp) → env.fails op ≡ false)
    → AreKeyed q.jobs
    → count (λ j. j.status == "pending" && leb j.next_run_at env.now) q.jobs ≤ env.batch_size
    → ((process_batch env q).0 ≡ true) × AreHandled env.now q.jobs (process_batch env q).1.jobs
unfolding is_due
process_batch-AreHandled env q calm keyed room =
    let (done, p) = process_batch_sends env q calm in
    let all = due_jobs-all env.now env.batch_size q.jobs room in
    let keys = is_in-filter (is_due env.now) q.jobs keyed in
    let named =
      All-both (λ j e _. ap (λ js. is_in j.id (ids_of js)) all ∙ is_in-order_jobs j.id _ ∙ e) q.jobs
        keys keys in
    (
      done,
      subst (AreHandled env.now q.jobs) (sym p.jobs)
          (processed_rows-AreHandled env.now _ q.jobs named),
    )
