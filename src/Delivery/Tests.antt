-- ===== src/Delivery/Tests.antt =====
-- Runs of a publisher and of a consumer.
use appt_remind.Base.{◌≡◌, refl, ℕ, suc, arith, true, false, none, some, List, [], ◌∷◌}
use appt_remind.Base.Text.{is_empty}
use appt_remind.Tx.{exec, commit}
use appt_remind.Delivery.{
  Record, written, lost, PublishEnv, message_of, publish_batch, fetch_unpublished, unpublished,
  is_unpublished, order_records, insert_record, send, mark_batch, mark_published, published_rows,
  has_id, commit_batch, extract_event_meta, header_value, record_inbox, is_known, Delivery,
  Consumer, consume, run_consumer,
}
use appt_remind.Delivery.Published.{Published, publish_batch-Published}
use appt_remind.Delivery.Drained.{AllSent, publish_batch-AllSent}
use appt_remind.Delivery.Handled.{IsOnce, run_consumer-IsOnce}

abbrev row : ℕ → Record
row n = record {
  id = n;
  event_id = "e";
  aggregate_id = "a";
  event_type = "t";
  payload = "{}";
  published_at = none;
}

abbrev env : PublishEnv
env = record { fails = λ op. false; now = 9; batch_size = 10; write = λ m. written }

abbrev rows : List Record
rows = row 2 ∷ row 1 ∷ []

both_published : publish_batch env rows [] ≡ (
  true,
  (record (row 2) { published_at = some 9 } ∷ record (row 1) { published_at = some 9 } ∷ []),
  (message_of (row 1) ∷ message_of (row 2) ∷ []),
)
unfolding publish_batch fetch_unpublished unpublished is_unpublished order_records insert_record
    send message_of mark_batch mark_published published_rows has_id commit_batch exec commit
both_published = refl

nothing_written : publish_batch (record env { write = λ m. lost }) rows [] ≡ (false, rows, [])
unfolding publish_batch fetch_unpublished unpublished is_unpublished order_records insert_record
    send message_of exec
nothing_written = refl

abbrev delivery : Delivery ℕ
delivery = record {
  message = message_of (row 1);
  inbox_fails = false;
  handler = λ m n. (true, suc n);
}

abbrev start : Consumer ℕ
start = record { inbox = []; service = 0; handled = [] }

handled_once : (run_consumer (delivery ∷ delivery ∷ []) start).service ≡ 1
unfolding run_consumer consume extract_event_meta header_value is_empty record_inbox is_known
    message_of
handled_once = refl

publish_batch-Published_example : Published env rows [] (publish_batch env rows [])
publish_batch-Published_example = publish_batch-Published env rows []

run_consumer-IsOnce_example : IsOnce (run_consumer (delivery ∷ delivery ∷ []) start)
run_consumer-IsOnce_example =
    run_consumer-IsOnce (delivery ∷ delivery ∷ []) start
      record { once = λ id. omega arith; known = λ id e. refl }

-- A row that is published already, and two that are not.
abbrev three_rows : List Record
three_rows = record (row 3) { published_at = some 4 } ∷ row 2 ∷ row 1 ∷ []

publish_batch-AllSent_example : AllSent env three_rows [] (publish_batch env three_rows [])
publish_batch-AllSent_example =
    publish_batch-AllSent env three_rows [] (λ op. refl) (λ m. refl)
      ((omega arith, (omega arith, tt)), ((omega arith, tt), (tt, tt))) (omega arith)
