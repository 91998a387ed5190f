-- ===== src/Delivery/Drained.antt =====
-- internal/outbox/publisher.go and the statements of internal/outbox/repository.go, row by row: what a batch that
-- has room for all that is unpublished does to each row.
use appt_remind.Base.{
  ℕ, ◌+◌, ◌≤◌, ◌≡◌, ◌≢◌, ◌⊎◌, inl, inr, refl, sym, subst, ◌∙◌, ap, Bool, true, false, Option, none,
  some, List, [], ◌∷◌, ◌++◌, ltb, eqb, map, filter, count, All, Option-cases, arith, if◌then◌else◌,
  take-count, count-filter, All-both,
}
use mathlib.Core.List.{append_assoc, append-nil}
use appt_remind.Tx.{begin, exec, commit, next}
use appt_remind.Delivery.{
  Record, Message, written, PublishEnv, PublishOp, begin_op, fetch_op, mark_op, commit_op,
  is_unpublished, insert_record, order_records, unpublished, fetch_unpublished, has_id,
  published_rows, mark_published, message_of, send, commit_batch, mark_batch, fetched,
  publish_batch,
}

-- `id` is the primary key of outbox_events.
abbrev pub AreKeyed : List Record → Type 0
AreKeyed [] = Unit {0}
AreKeyed (r ∷ rows) = All (λ s. s.id ≢ r.id) rows × AreKeyed rows

-- A row that was not published is so now, and any other row is left.
abbrev pub IsMarked : ℕ → Record → Record → Type 0
IsMarked now r s =
    ((r.published_at ≡ none) × (s ≡ record r { published_at = some now }))
    ⊎ ((at : ℕ) × (r.published_at ≡ some at) × (s ≡ r))

abbrev pub AreMarked : ℕ → List Record → List Record → Type 0
AreMarked now [] [] = Unit {0}
AreMarked now [] (s ∷ after) = ⊥
AreMarked now (r ∷ before) [] = ⊥
AreMarked now (r ∷ before) (s ∷ after) = IsMarked now r s × AreMarked now before after

count-insert_record :
    (p : Record → Bool) (r : Record) (rows : List Record)
    → count p (insert_record r rows) ≡ (if p r then 1 else 0) + count p rows
unfolding insert_record
count-insert_record p r [] = refl
count-insert_record p r (s ∷ rows) = let rest = count-insert_record p r rows in ground arith

count-order_records :
    (p : Record → Bool) (rows : List Record) → count p (order_records rows) ≡ count p rows
unfolding order_records
count-order_records p [] = refl
count-order_records p (r ∷ rows) =
    let rest = count-order_records p rows in
    ground (arith, count-insert_record p r (order_records rows))

count-filter_and :
    (p q : Record → Bool) (rows : List Record)
    → count p (filter q rows) ≡ count (λ r. if q r then p r else false) rows
count-filter_and p q [] = refl
count-filter_and p q (r ∷ rows) = let rest = count-filter_and p q rows in ground arith

abbrev ids_of : List Record → List ℕ
ids_of rows = map (λ r. r.id) rows

has_id-count :
    (id : ℕ) (rows : List Record) → has_id id (ids_of rows) ≡ ltb 0 (count (λ r. eqb r.id id) rows)
unfolding has_id
has_id-count id [] = refl
has_id-count id (r ∷ rows) = let rest = has_id-count id rows in ground arith

has_id-order_records :
    (id : ℕ) (rows : List Record)
    → has_id id (ids_of (order_records rows)) ≡ has_id id (ids_of rows)
has_id-order_records id rows =
    has_id-count id (order_records rows)
    ∙ ap (λ n. ltb 0 n) (count-order_records (λ r. eqb r.id id) rows)
    ∙ sym (has_id-count id rows)

module _ (p : Record → Bool) where
  has_id-filter_other :
      (id : ℕ) (rows : List Record)
      → All (λ s. s.id ≢ id) rows
      → has_id id (ids_of (filter p rows)) ≡ false
  unfolding has_id
  has_id-filter_other id [] h = refl
  has_id-filter_other id (s ∷ rows) h =
      let rest = has_id-filter_other id rows h.1 in let other = h.0 in ground arith

  has_id-filter :
      (rows : List Record)
      → AreKeyed rows
      → All (λ r. has_id r.id (ids_of (filter p rows)) ≡ p r) rows
  unfolding has_id
  has_id-filter [] h = tt
  has_id-filter (r ∷ rows) h =
      let none = has_id-filter_other r.id rows h.0 in
      (ground arith, All-both (λ s e other. ground arith) rows (has_id-filter rows h.1) h.0)

is_unpublished_cases :
    (r : Record)
    → ((r.published_at ≡ none) × (is_unpublished r ≡ true))
      ⊎ ((at : ℕ) × (r.published_at ≡ some at) × (is_unpublished r ≡ false))
unfolding is_unpublished
is_unpublished_cases r =
    let marked : Option ℕ → Bool = λ o. elim o [ none ↦ true | some at ↦ false ] in
    elim (Option-cases r.published_at) [
      | inl e ↦ inl (e, ap marked e)
      | inr (at, e) ↦ inr (at, e, ap marked e)
    ]

published_rows-AreMarked :
    (now : ℕ) (ids : List ℕ) (rows : List Record)
    → All (λ r. has_id r.id ids ≡ is_unpublished r) rows
    → AreMarked now rows (published_rows now ids rows)
unfolding published_rows
published_rows-AreMarked now ids [] h = tt
published_rows-AreMarked now ids (r ∷ rows) h =
    let rest = published_rows-AreMarked now ids rows h.1 in
    elim (is_unpublished_cases r) [
      | inl (e, f) ↦ rw (h.0, f) (inl (e, refl), rest)
      | inr (at, e, f) ↦ rw (h.0, f) (inr (at, e, refl), rest)
    ]

module _ (env : PublishEnv) (log : List Message) (all : (m : Message) → env.write m ≡ written)
    (calm : (op : PublishOp) → env.fails op ≡ false) where
  send_written :
      (rows : List Record) (before : List Message)
      → send env rows before ≡ (true, before ++ map message_of rows)
  unfolding send
  send_written [] before = ap (λ ms. (true, ms)) (sym (append-nil before))
  send_written (r ∷ rows) before =
      let rest = send_written rows (before ++ message_of r ∷ []) in
      let joined = append_assoc before (message_of r ∷ []) (map message_of rows) in
      rw (send, all (message_of r)) (rest ∙ ap (λ ms. (true, ms)) joined)

  none_published : (now : ℕ) (rows : List Record) → published_rows now [] rows ≡ rows
  unfolding published_rows has_id
  none_published now [] = refl
  none_published now (r ∷ rows) = ap (λ rest. r ∷ rest) (none_published now rows)

  -- The batch that was fetched is written, marked and committed.
  fetched_calm :
      (batch rows : List Record)
      → fetched env log (next batch (begin rows))
        ≡ (true, published_rows env.now (ids_of batch) rows, log ++ map message_of batch)
  unfolding mark_batch mark_published commit_batch exec commit
  fetched_calm [] rows = rw (calm commit_op) (
      ap (λ xs. (true, xs, log)) (sym (none_published env.now rows))
      ∙ ap (λ ms. (true, published_rows env.now [] rows, ms)) (sym (append-nil log)))
  fetched_calm (r ∷ batch) rows =
      rw (send_written (r ∷ batch) log, calm mark_op, calm commit_op) refl

  publish_batch_calm :
      (rows : List Record)
      → let batch = unpublished env.batch_size rows in
        publish_batch env rows log
        ≡ (true, published_rows env.now (ids_of batch) rows, log ++ map message_of batch)
  unfolding publish_batch fetch_unpublished exec
  publish_batch_calm rows =
      rw (calm begin_op, calm fetch_op) (fetched_calm (unpublished env.batch_size rows) rows)

unpublished-all :
    (limit : ℕ) (rows : List Record)
    → count is_unpublished rows ≤ limit
    → unpublished limit rows ≡ order_records (filter is_unpublished rows)
unfolding unpublished
unpublished-all limit rows room = take-count limit (order_records (filter is_unpublished rows)) (
    subst (λ n. n ≤ limit)
      (sym (
        count-order_records (λ _. true) (filter is_unpublished rows)
        ∙ count-filter is_unpublished rows))
      room)

-- What a batch that meets no error leaves: each row that was not published is now, and the messages that are
-- written are those of these rows: by any test, as many of the batch pass as of the unpublished rows.
pub record AllSent (env : PublishEnv) (rows : List Record) (log : List Message)
    (result : Bool × List Record × List Message) : Type 0 where
  pub done : result.0 ≡ true
  pub marked : AreMarked env.now rows result.1
  pub batch : List Record
  pub written : result.2 ≡ log ++ map message_of batch
  pub number :
      (p : Record → Bool)
      → count p batch
        ≡ count
            (λ r. if elim r.published_at [ none ↦ true | some at ↦ false ] then p r else false)
            rows

-- If no statement is refused, every message is written, no two rows have one id and no more rows are
-- unpublished than a batch takes, the batch reports no error, every row that was not published is marked
-- with the time while the others stay, and what Kafka then has more is a message for each of
-- these rows, no more and no fewer.
pub publish_batch-AllSent :
    (env : PublishEnv) (rows : List Record) (log : List Message)
    → ((op : PublishOp) → env.fails op ≡ false)
    → ((m : Message) → env.write m ≡ written)
    → AreKeyed rows
    → count (λ r. elim r.published_at [ none ↦ true | some at ↦ false ]) rows ≤ env.batch_size
    → AllSent env rows log (publish_batch env rows log)
unfolding is_unpublished
publish_batch-AllSent env rows log calm all keyed room =
    let batch = unpublished env.batch_size rows in
    let full = unpublished-all env.batch_size rows room in
    let keys = has_id-filter is_unpublished rows keyed in
    let named =
      All-both (λ r e _. ap (λ rs. has_id r.id (ids_of rs)) full ∙ has_id-order_records r.id _ ∙ e)
        rows keys keys in
    let run = publish_batch_calm env log all calm rows in
    record {
      done = ap (λ x. x.0) run;
      marked =
          subst (AreMarked env.now rows) (sym (ap (λ x. x.1) run))
            (published_rows-AreMarked env.now (ids_of batch) rows named);
      batch = batch;
      written = ap (λ x. x.2) run;
      number = λ p.
          ap (λ rs. count p rs) full
          ∙ count-order_records p (filter is_unpublished rows)
          ∙ count-filter_and p is_unpublished rows;
    }
