-- ===== src/Delivery.antt =====
-- The events between the services. A publisher moves the rows of outbox_events to Kafka
-- (internal/outbox of services/booking-service, as of the other services), and a consumer hands each
-- message to a service's handler (internal/consumer and internal/inbox of services/scheduler-service,
-- and libs/kafkax/meta.go). One publisher runs at a time, so no row is skipped as locked. Trace
-- contexts are left out.
pub mod Published
pub mod Drained
pub mod Handled
mod Tests
use appt_remind.Base.{
  ℕ, Bool, true, false, ◌||◌, ◌&&◌, Option, none, some, List, [], ◌∷◌, ◌++◌, String, ◌==◌, leb, eqb,
  if◌then◌else◌, filter, take, map,
}
use appt_remind.Base.Text.{is_empty}
use appt_remind.Tx.{
  Result, ok, err, failure, unique_violation, Statement, Tx, Outcome, reply, next, begin, commit,
  run, expect, close, ◌>>=◌, ◌>>◌,
}

-- A row of outbox_events.
pub record Record : Type 0 where
  pub id : ℕ
  pub event_id : String
  pub aggregate_id : String
  pub event_type : String
  pub payload : String
  pub published_at : Option ℕ

pub record Message : Type 0 where
  pub topic : String
  pub key : String
  pub value : String
  pub headers : List (String × String)

-- What becomes of a message that is written: Kafka has it, it has not, or it has it and the writer
-- reports an error all the same.
pub data Write : Type 0 where
  written lost unanswered : Write

pub data PublishOp : Type 0 where
  begin_op fetch_op mark_op commit_op : PublishOp

pub record PublishEnv : Type 0 where
  pub fails : PublishOp → Bool
  pub now : ℕ
  pub batch_size : ℕ
  pub write : Message → Write

abbrev pub Work : Type 0 → Type 0
Work A = Tx (List Record) → Outcome Bool (List Record) A

pub is_unpublished : Record → Bool
is_unpublished r = elim r.published_at [ none ↦ true | some at ↦ false ]

-- ORDER BY id.
pub insert_record : Record → List Record → List Record
insert_record r [] = r ∷ []
insert_record r (s ∷ rows) =
    let rest = insert_record r rows in if leb r.id s.id then r ∷ s ∷ rows else s ∷ rest

pub order_records : List Record → List Record
unfolding insert_record
order_records [] = []
order_records (r ∷ rows) = insert_record r (order_records rows)

pub unpublished : ℕ → List Record → List Record
unfolding is_unpublished order_records
unpublished limit rows = take limit (order_records (filter is_unpublished rows))

pub fetch_unpublished : ℕ → Statement (List Record) (List Record)
unfolding unpublished
fetch_unpublished limit rows = ok (unpublished limit rows, rows)

pub has_id : ℕ → List ℕ → Bool
has_id id [] = false
has_id id (i ∷ ids) = eqb i id || has_id id ids

pub published_rows : ℕ → List ℕ → List Record → List Record
unfolding has_id
published_rows now ids [] = []
published_rows now ids (r ∷ rows) =
    (if has_id r.id ids then record r { published_at = some now } else r)
    ∷ published_rows now ids rows

pub mark_published : ℕ → List ℕ → Statement (List Record) (Unit {0})
unfolding published_rows
mark_published now ids rows = ok (tt, published_rows now ids rows)

pub message_of : Record → Message
message_of r = record {
  topic = r.event_type;
  key = r.aggregate_id;
  value = r.payload;
  headers = ("event_id", r.event_id) ∷ ("event_type", r.event_type) ∷ [];
}

-- The loop over the records, on the messages that Kafka has: it stops at an error.
pub send : PublishEnv → List Record → List Message → Bool × List Message
unfolding message_of
send env [] log = (true, log)
send env (r ∷ rows) log =
    let m = message_of r in
    let rest = send env rows (log ++ m ∷ []) in
    elim (env.write m) [
      | written ↦ rest
      | lost ↦ (false, log)
      | unanswered ↦ (false, log ++ m ∷ [])
    ]

pub commit_batch : PublishEnv → Work Bool
commit_batch env t = let (done, u) = commit (env.fails commit_op) t in reply done u

pub mark_batch : PublishEnv → List Record → Work Bool
unfolding mark_published commit_batch
mark_batch env rows =
    (run (env.fails mark_op) (mark_published env.now (map (λ r. r.id) rows)) >>= expect false)
    >> commit_batch env

abbrev pub sent :
    PublishEnv
    → List Record
    → Tx (List Record)
    → Bool × List Message
    → Bool × List Record × List Message
sent env rows t (false, log) = (false, t.committed, log)
sent env rows t (true, log) = let (done, d) = close (mark_batch env rows t) in (done, d, log)

abbrev pub fetched :
    PublishEnv
    → List Message
    → Outcome Bool (List Record) (List Record)
    → Bool × List Record × List Message
fetched env log (reply r t) = (r, t.committed, log)
fetched env log (next [] t) = let (done, d) = close (commit_batch env t) in (done, d, log)
fetched env log (next (r ∷ rows) t) = sent env (r ∷ rows) t (send env (r ∷ rows) log)

-- Whether there is no error, the rows, and the messages that Kafka has.
pub publish_batch : PublishEnv → List Record → List Message → Bool × List Record × List Message
unfolding fetch_unpublished send mark_batch commit_batch
publish_batch env rows log =
    if env.fails begin_op
    then (false, rows, log)
    else fetched env log (
        (run (env.fails fetch_op) (fetch_unpublished env.batch_size) >>= expect false) (begin rows))

pub record EventMeta : Type 0 where
  pub event_id : String
  pub event_type : String

pub header_value : List (String × String) → String → String
header_value [] key = ""
header_value (h ∷ headers) key =
    let rest = header_value headers key in if h.0 == key then h.1 else rest

-- A value, or its fallback if it is empty.
abbrev pub or_else : String → String → String
or_else s fallback = if is_empty s then fallback else s

pub extract_event_meta : Message → EventMeta
unfolding header_value is_empty
extract_event_meta m = record {
  event_id = or_else (header_value m.headers "event_id") m.key;
  event_type = or_else (header_value m.headers "event_type") m.topic;
}

-- inbox_events has a unique event_id.
pub is_known : String → List EventMeta → Bool
is_known id [] = false
is_known id (e ∷ inbox) = e.event_id == id || is_known id inbox

-- Record: whether the event is new; an error is `none`.
pub record_inbox : Bool → EventMeta → List EventMeta → Option Bool × List EventMeta
unfolding is_known
record_inbox fails meta inbox =
    if fails
    then (none, inbox)
    else (if is_known meta.event_id inbox
        then (some false, inbox)
        else (some true, inbox ++ meta ∷ []))

-- One message as it is read, whether the inbox refuses it, and the handler's effect on the service `D`
-- with what it returns, `false` for an error.
pub record Delivery (D : Type 0) : Type 0 where
  pub message : Message
  pub inbox_fails : Bool
  pub handler : Message → D → Bool × D

-- `handled` is the ids of the events that the handler was called with.
pub record Consumer (D : Type 0) : Type 0 where
  pub inbox : List EventMeta
  pub service : D
  pub handled : List String

module _ {D : Type 0} where
  abbrev pub dispatch :
      Delivery D → EventMeta → D → List String → Option Bool × List EventMeta → Consumer D
  dispatch d meta service handled (some true, inbox) = record {
    inbox = inbox;
    service = (d.handler d.message service).1;
    handled = handled ++ meta.event_id ∷ [];
  }
  dispatch d meta service handled (some false, inbox) = record {
    inbox = inbox;
    service = service;
    handled = handled;
  }
  dispatch d meta service handled (none, inbox) = record {
    inbox = inbox;
    service = service;
    handled = handled;
  }

  -- A round of the loop. An error of the handler is logged, and the next message is read.
  pub consume : Delivery D → Consumer D → Consumer D
  unfolding extract_event_meta record_inbox
  consume d c =
      let meta = extract_event_meta d.message in
      dispatch d meta c.service c.handled (record_inbox d.inbox_fails meta c.inbox)

  -- The loop over the messages that are read.
  pub run_consumer : List (Delivery D) → Consumer D → Consumer D
  unfolding consume
  run_consumer [] c = c
  run_consumer (d ∷ deliveries) c = run_consumer deliveries (consume d c)
