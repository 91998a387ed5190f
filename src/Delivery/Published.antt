-- ===== src/Delivery/Published.antt =====
-- internal/outbox/publisher.go: what a batch leaves in the outbox and in Kafka.
use appt_remind.Base.{
  ◌≡◌, refl, sym, subst, ◌∙◌, ap, ◌⊎◌, inl, inr, ℕ, suc, Bool, true, false, List, [], ◌∷◌, ◌++◌,
  map, take, Bool-cases,
}
use mathlib.Core.List.{append_assoc, append-nil}
use appt_remind.Tx.{Tx, Outcome, reply, next, begin, run, expect, close, ◌>>=◌}
use appt_remind.Tx.Rules.{Ensures, Ensures-seq, Ensures-imp, Ensures-expect, Did, commit_cases}
use appt_remind.Delivery.{
  Record, Message, Write, written, lost, unanswered, PublishEnv, begin_op, fetch_op, mark_op,
  commit_op, unpublished, fetch_unpublished, published_rows, mark_published, message_of, send,
  commit_batch, mark_batch, sent, fetched, publish_batch,
}

-- The messages that the loop has written are the first ones of the batch, and all of them if it ends.
pub record Sent (rows : List Record) (log : List Message) (result : Bool × List Message)
    : Type 0 where
  pub number : ℕ
  pub first : result.1 ≡ log ++ take number (map message_of rows)
  pub complete : result.0 ≡ true → take number (map message_of rows) ≡ map message_of rows

send-Sent :
    (env : PublishEnv) (rows : List Record) (log : List Message) → Sent rows log (send env rows log)
unfolding send
send-Sent env [] log = record { number = 0; first = sym (append-nil log); complete = λ e. refl }
send-Sent env (r ∷ rows) log =
    wrote (env.write (message_of r)) (send-Sent env rows (log ++ message_of r ∷ []))
  where
    wrote :
        (w : Write)
        → Sent rows (log ++ message_of r ∷ []) (send env rows (log ++ message_of r ∷ []))
        → Sent (r ∷ rows) log (elim w [
          | written ↦ send env rows (log ++ message_of r ∷ [])
          | lost ↦ (false, log)
          | unanswered ↦ (false, log ++ message_of r ∷ [])
        ])
    wrote written s = record {
      number = suc s.number;
      first = s.first ∙ append_assoc log (message_of r ∷ []) (take s.number (map message_of rows));
      complete = λ e. ap (λ ms. message_of r ∷ ms) (s.complete e);
    }
    wrote lost s = record { number = 0; first = sym (append-nil log); complete = λ e. cc }
    wrote unanswered s = record { number = 1; first = refl; complete = λ e. cc }

-- What a batch leaves: Kafka has the first messages of the batch, and either the rows are as they were, or
-- there is no error, Kafka has all of the batch's messages and its rows are marked as published.
pub record Published (env : PublishEnv) (rows : List Record) (log : List Message)
    (result : Bool × List Record × List Message) : Type 0 where
  pub number : ℕ
  pub first : result.2 ≡ log ++ take number (map message_of (unpublished env.batch_size rows))
  pub marked :
      (result.1 ≡ rows)
      ⊎ ((result.0 ≡ true)
          × (result.1
              ≡ published_rows env.now (map (λ r. r.id) (unpublished env.batch_size rows)) rows)
          × (result.2 ≡ log ++ map message_of (unpublished env.batch_size rows)))

module _ (env : PublishEnv) (rows : List Record) (log : List Message) where
  abbrev due : List Record
  due = unpublished env.batch_size rows

  unchanged : (done : Bool) → Published env rows log (done, rows, log)
  unchanged done = record { number = 0; first = sym (append-nil log); marked = inl refl }

  abbrev Marks : Bool → Tx (List Record) → Type 0
  Marks r t =
      (t.committed ≡ rows)
      ⊎ ((r ≡ true) × (t.committed ≡ published_rows env.now (map (λ r. r.id) due) rows))

  mark_batch-Marks :
      (t : Tx (List Record))
      → t.committed ≡ rows
      → t.working ≡ rows
      → Ensures Marks Marks (mark_batch env due t)
  unfolding mark_batch mark_published commit_batch
  mark_batch-Marks t c w =
      let stmt = mark_published env.now (map (λ r. r.id) due) in
      let marked = published_rows env.now (map (λ r. r.id) due) rows in
      Ensures-seq Marks (λ _ u. (u.committed ≡ rows) × (u.working ≡ marked)) Marks
        (run (env.fails mark_op) stmt >>= expect false) (commit_batch env) t
        (Ensures-imp Marks Marks (Did stmt t) (λ _ u. (u.committed ≡ rows) × (u.working ≡ marked)) _
          (Ensures-expect Marks (env.fails mark_op) stmt false t (λ u e. inl (e ∙ c))) (λ r u h. h)
          (λ a u h.
            let (d, alive, e, same) = h in
            let f : d ≡ published_rows env.now (map (λ r. r.id) due) t.working = cc in
            rw same (c, f ∙ ap (published_rows env.now (map (λ r. r.id) due)) w)))
        (λ u h. elim (commit_cases (env.fails commit_op) u) [
          | inl e ↦ rw e (inl h.0)
          | inr (alive, e) ↦ rw e (inr (refl, h.1))
        ])

  closed :
      (o : Outcome Bool (List Record) Bool)
      → Ensures Marks Marks o
      → ((close o).1 ≡ rows)
        ⊎ (((close o).0 ≡ true) × ((close o).1 ≡ published_rows env.now (map (λ r. r.id) due) rows))
  closed (reply r t) h = h
  closed (next r t) h = h

  sent-Published :
      (t : Tx (List Record)) (result : Bool × List Message)
      → t.committed ≡ rows
      → t.working ≡ rows
      → Sent due log result
      → Published env rows log (sent env due t result)
  sent-Published t (false, after) c w s = record {
    number = s.number;
    first = s.first;
    marked = inl c;
  }
  sent-Published t (true, after) c w s = record {
    number = s.number;
    first = s.first;
    marked = elim (closed (mark_batch env due t) (mark_batch-Marks t c w)) [
      | inl e ↦ inl e
      | inr (e, f) ↦ inr (e, f, s.first ∙ ap (λ ms. log ++ ms) (s.complete refl))
    ];
  }

  empty-Published :
      (t : Tx (List Record))
      → t.committed ≡ rows
      → t.working ≡ rows
      → (close (commit_batch env t)).1 ≡ rows
  unfolding commit_batch
  empty-Published t c w = elim (commit_cases (env.fails commit_op) t) [
    | inl e ↦ rw e c
    | inr (alive, e) ↦ rw e w
  ]

  batch-Published :
      (batch : List Record) (t : Tx (List Record))
      → batch ≡ due
      → t.committed ≡ rows
      → t.working ≡ rows
      → Published env rows log (fetched env log (next batch t))
  batch-Published [] t e c w = record {
    number = 0;
    first = sym (append-nil log);
    marked = inl (empty-Published t c w);
  }
  batch-Published (r ∷ batch) t e c w =
      subst (λ b. Published env rows log (sent env b t (send env b log))) (sym e)
        (sent-Published t (send env due log) c w (send-Sent env due log))

  fetched-Published :
      (o : Outcome Bool (List Record) (List Record))
      → Ensures
          (λ _ t. t.committed ≡ rows)
          (λ batch t. (batch ≡ due) × (t.committed ≡ rows) × (t.working ≡ rows))
          o
      → Published env rows log (fetched env log o)
  fetched-Published (reply r t) h = record {
    number = 0;
    first = sym (append-nil log);
    marked = inl h;
  }
  fetched-Published (next batch t) h = batch-Published batch t h.0 h.1 h.2

  fetch-due :
      Ensures {A = List Record}
        (λ _ t. t.committed ≡ rows)
        (λ batch t. (batch ≡ due) × (t.committed ≡ rows) × (t.working ≡ rows))
        ((run (env.fails fetch_op) (fetch_unpublished env.batch_size) >>= expect false)
          (begin rows))
  unfolding fetch_unpublished
  fetch-due =
      let stmt = fetch_unpublished env.batch_size in
      let P : Bool → Tx (List Record) → Type 0 = λ _ t. t.committed ≡ rows in
      Ensures-imp P P (Did stmt (begin rows))
        (λ batch t. (batch ≡ due) × (t.committed ≡ rows) × (t.working ≡ rows)) _
        (Ensures-expect P (env.fails fetch_op) stmt false (begin rows) (λ u e. e)) (λ r u h. h)
        (λ batch u h.
          let (d, alive, e, same) = h in
          let f : batch ≡ due = cc in let g : d ≡ rows = cc in rw same (f, refl, g))

-- A batch of the publisher loses no event: whatever fails, Kafka has what it had and then the messages of the
-- first unpublished rows of the batch in the order of their ids, and the rows are as they were, or the batch's
-- rows are marked as published and Kafka has the messages of all of them.
pub publish_batch-Published :
    (env : PublishEnv) (rows : List Record) (log : List Message)
    → Published env rows log (publish_batch env rows log)
unfolding publish_batch
publish_batch-Published env rows log = elim (Bool-cases (env.fails begin_op)) [
  | inl e ↦ rw e (unchanged env rows log false)
  | inr e ↦ rw e (fetched-Published env rows log _ (fetch-due env rows log))
]
