-- ===== src/Worker/Messages/Safety.antt =====
-- A dead channel: what a message leaves behind when its verdict cannot reach the broker.
use tiles_processor.Base.{
  Exec, branch, ◌>>◌, ℕ, Bool, true, false, ◌≡◌, ◌<◌, ◌∙◌, some, Text, Exception, Kind, raise,
  arith, runtime_error, key_error, value_error, file_not_found, timeout, empty_upload,
  upload_too_large, amqp_connection, os_error, rainbow_header_error,
}
use tiles_processor.WorkUnit.{WorkUnit, can_retry, create_retry}
use tiles_processor.Rabbit.{Client, publish, publish_to_dlq, ack, not_connected}
use tiles_processor.Rabbit.Guards.{is_live, publish_declines}
use tiles_processor.Rabbit.Pika.{Amqp}
use tiles_processor.Worker.Metrics.{collect}
use tiles_processor.Worker.Site.{Site, Answers}
use tiles_processor.Worker.Handler.{State, handle}
use tiles_processor.Worker.Handler.Frame.{SameClient}
use tiles_processor.Worker.Handler.Effects.{handle-client}
use tiles_processor.Worker.Messages.{
  attempt, on_error, retry_or_bury, handle_processing_error, record_metrics, process_message_async,
}

module _ (amqp : Amqp) (answers : Answers amqp) (u : WorkUnit) (tag : ℕ) (q : Text) where
  declined :
      (e : Exception) (st : State amqp answers u)
      → st.0.running ≡ true
      → is_live amqp st.0.client ≡ false
      → 0 < st.0.client.outstanding_deliveries
      → handle_processing_error amqp answers u tag q e st ≡ (raise not_connected, st)
  unfolding handle_processing_error retry_or_bury
  declined e st runs dead busy = ground (
    arith,
    publish_declines amqp st.0.client (create_retry u) (some q) answers.clock_text e.message dead
        busy,
    publish_declines amqp st.0.client u (some q) answers.clock_text e.message dead busy,
  )

  -- Whether the except clauses leave an exception to `_handle_processing_error`.
  abbrev pub is_unexpected : Kind → Bool
  is_unexpected k = elim k [
    | runtime_error ↦ true
    | key_error ↦ true
    | value_error ↦ true
    | file_not_found ↦ true
    | timeout ↦ true
    | empty_upload ↦ true
    | upload_too_large ↦ true
    | amqp_connection ↦ true
    | os_error ↦ true
    | rainbow_header_error ↦ true
    | Kind.other ↦ true
    | _ ↦ false
  ]

  on_error-unexpected :
      (e : Exception) (st : State amqp answers u)
      → is_unexpected e.kind ≡ true
      → on_error amqp answers u tag q e st ≡ handle_processing_error amqp answers u tag q e st
  unfolding on_error
  on_error-unexpected e st h = ground arith

  abbrev begun : Site amqp → State amqp answers u
  begun s = (s, collect u s.worker_host answers.now)

  dead-same :
      (c d : Client amqp)
      → SameClient amqp c d
      → (is_live amqp d ≡ is_live amqp c) × (d.outstanding_deliveries ≡ c.outstanding_deliveries)
  dead-same c d same = ground (arith, same)

  -- If the channel is dead while a delivery is outstanding, a unit whose processor runs in a child
  -- and whose handling raised an exception that no except clause names, while no shutdown is on after
  -- it, is neither published again nor buried nor acked: "Not connected" leaves
  -- `process_message_async`, and the wire and the count of outstanding deliveries stay as they were.
  pub process_message_async-dead :
      (s : Site amqp) (e : Exception)
      → is_live amqp s.client ≡ false
      → 0 < s.client.outstanding_deliveries
      → answers.is_inline u.processor_id ≡ false
      → (handle amqp answers u (begun s)).0 ≡ raise e
      → is_unexpected e.kind ≡ true
      → (handle amqp answers u (begun s)).1.0.running ≡ true
      → let out = process_message_async amqp answers u tag q s in
        (out.0 ≡ raise not_connected)
        × (out.1.client.wire ≡ s.client.wire)
        × (out.1.client.outstanding_deliveries ≡ s.client.outstanding_deliveries)
  unfolding process_message_async attempt record_metrics
  process_message_async-dead s e dead busy child fails class runs =
      let h = handle amqp answers u (begun s) in
      let same = handle-client amqp answers u (begun s) child in
      let (d, n) = dead-same s.client h.1.0.client same in
      ground (
        arith,
        same,
        on_error-unexpected e h.1 class,
        declined e h.1 runs (d ∙ dead) (ground arith),
      )

  -- Another attempt or the dead letter, and then the ack.
  abbrev pub resend : (message : Text) → Exec (Client amqp) Unit
  resend message = do
    branch (can_retry u) (publish amqp (create_retry u) (some q))
        (publish_to_dlq amqp answers.clock_text u message)
    ack amqp tag
