-- ===== src/Worker/Messages/Verdict.antt =====
-- What reaches the broker for one message, on every way in which its handling can end.
use tiles_processor.Base.{
  ℕ, Bool, true, false, ◌≡◌, List, [], ◌∷◌, ◌++◌, ◌∙◌, ◌>>◌, none, some, Text, if◌then◌else◌, Exec,
  Exception, Result, return, raise, recover, arith, and_then, unprocessable_input,
  invalid_grib_response, forecast_not_available, transient_download, source_file_not_found,
  shutdown_requested,
}
use tiles_processor.WorkUnit.{WorkUnit, can_retry, create_retry}
use tiles_processor.WorkUnit.Body.{Body, to_dict, dead_letter}
use tiles_processor.Rabbit.{Client, ack, or_default}
use tiles_processor.Rabbit.Guards.{is_live}
use tiles_processor.Rabbit.Wire.{publish-wire, publish_to_dlq-wire, ack-wire, nack-wire, after-ack}
use tiles_processor.Rabbit.Log.{Call, published, acked, nacked, logged}
use tiles_processor.Rabbit.Pika.{Amqp}
use tiles_processor.Worker.Metrics.{collect, mark_outcome, JobOutcome}
use tiles_processor.Worker.Site.{Site, Answers}
use tiles_processor.Worker.Handler.{State, handle}
use tiles_processor.Worker.Handler.Frame.{SameClient}
use tiles_processor.Worker.Handler.Effects.{handle-client}
use tiles_processor.Worker.Messages.{
  on_queue, attempt, on_error, retry_or_bury, handle_processing_error, release_progress,
  record_metrics, process_message_async,
}

-- What one message is to put on the wire, by how its handling ended, whether the worker still runs,
-- and the names of its client.
module _ (u : WorkUnit) (tag : ℕ) (q clock : Text) where
  abbrev another_go : (default dlx dlq : Text) → Text → Call
  another_go default dlx dlq message =
      if can_retry u
      then published [] (or_default (some q) default) (to_dict (create_retry u))
      else published dlx dlq (dead_letter u message clock)

  abbrev pub calls_for : (running : Bool) → (default dlx dlq : Text) → Result Unit → List Call
  calls_for running default dlx dlq (return _) = acked tag ∷ []
  calls_for running default dlx dlq (raise e) = elim e.kind [
    | forecast_not_available ↦ acked tag ∷ []
    | unprocessable_input ↦ acked tag ∷ []
    | invalid_grib_response ↦ acked tag ∷ []
    | transient_download ↦ acked tag ∷ []
    | source_file_not_found ↦ acked tag ∷ []
    | shutdown_requested ↦ nacked tag true ∷ []
    | _ ↦
        if running
        then another_go default dlx dlq e.message ∷ acked tag ∷ []
        else nacked tag true ∷ []
  ]

module _ (a : Amqp) where
  abbrev A : Amqp
  A = logged a

  -- What the AMQP library is relied on for while the connection holds.
  module _
      (publishes : (e k : Text) (b : Body) (w : a.Wire) → (a.basic_publish e k b w).0 ≡ return tt)
      (stays_open : (e k : Text) (b : Body) (w : a.Wire)
        → a.is_closed (a.basic_publish e k b w).1 ≡ a.is_closed w)
      (acks : (t : ℕ) (w : a.Wire) → (a.basic_ack t w).0 ≡ return tt)
      (nacks : (t : ℕ) (r : Bool) (w : a.Wire) → (a.basic_nack t r w).0 ≡ return tt) where
    same_log :
        (answers : Answers A) (u : WorkUnit) (tag : ℕ) (q : Text) (running : Bool) (r : Result Unit)
        (c d : Client A)
        → SameClient A c d
        → d.wire.1
            ++ calls_for u tag q answers.clock_text running d.queue_name d.dlx_name d.dlq_name r
          ≡ c.wire.1
            ++ calls_for u tag q answers.clock_text running c.queue_name c.dlx_name c.dlq_name r
    same_log answers u tag q running r c d same =
        rw (same.wire, same.queue_name, same.dlx_name, same.dlq_name)

    module _ (answers : Answers A) (u : WorkUnit) (tag : ℕ) (q : Text) where
      abbrev Puts : Result Unit × State A answers u → State A answers u → List Call → Type 0
      Puts out st calls =
          (out.0 ≡ return tt) × (out.1.0.client.wire.1 ≡ st.0.client.wire.1 ++ calls)

      abbrev expected : State A answers u → Result Unit → List Call
      expected st r =
          let c = st.0.client in
          calls_for u tag q answers.clock_text st.0.running c.queue_name c.dlx_name c.dlq_name r

      retry_or_bury-ack :
          (e : Exception) (st : State A answers u)
          → is_live A st.0.client ≡ true
          → let c = st.0.client in
            Puts
              ((retry_or_bury A answers u tag q e >> on_queue A answers u tag q (ack A tag)) st)
              st
              (another_go u tag q answers.clock_text c.queue_name c.dlx_name c.dlq_name e.message
                ∷ acked tag
                ∷ [])
      unfolding retry_or_bury
      retry_or_bury-ack e st live =
          let c = st.0.client in
          let k = or_default (some q) c.queue_name in
          let b = to_dict (create_retry u) in
          let d = dead_letter u e.message answers.clock_text in
          ground (
            arith,
            publish-wire a publishes (create_retry u) (some q) c live,
            publish_to_dlq-wire a publishes answers.clock_text u e.message c live,
            after-ack a acks (published [] k b) (a.basic_publish [] k b) tag c (ground arith)
                (stays_open [] k b c.wire.0),
            after-ack a acks (published c.dlx_name c.dlq_name d)
                (a.basic_publish c.dlx_name c.dlq_name d) tag c (ground arith)
                (stays_open c.dlx_name c.dlq_name d c.wire.0),
          )

      handle_processing_error-Puts :
          (e : Exception) (st : State A answers u)
          → is_live A st.0.client ≡ true
          → Puts (handle_processing_error A answers u tag q e st) st (
              if st.0.running
              then another_go u tag q answers.clock_text st.0.client.queue_name st.0.client.dlx_name
                  st.0.client.dlq_name e.message
                ∷ acked tag
                ∷ []
              else nacked tag true ∷ [])
      unfolding handle_processing_error
      handle_processing_error-Puts e st live = ground (
        arith,
        retry_or_bury-ack e st live,
        nack-wire a nacks tag true st.0.client (ground arith),
      )

      on_error-Puts :
          (e : Exception) (st : State A answers u)
          → is_live A st.0.client ≡ true
          → Puts (on_error A answers u tag q e st) st (expected st (raise e))
      unfolding on_error release_progress
      on_error-Puts e st live = ground (
        arith,
        handle_processing_error-Puts e st live,
        ack-wire a acks tag st.0.client (ground arith),
        nack-wire a nacks tag true st.0.client (ground arith),
      )

      succeeded : Exec (State A answers u) Unit
      succeeded =
          (λ (t, c). (return tt, (t, mark_outcome JobOutcome.success none c)))
          >> on_queue A answers u tag q (ack A tag)

      concluded : Result Unit → Exec (State A answers u) Unit
      unfolding succeeded
      concluded r st =
          let (r', st') = and_then r (λ _. succeeded) st in
          recover r' (on_error A answers u tag q) st'

      succeeded-Puts :
          (st : State A answers u)
          → is_live A st.0.client ≡ true
          → Puts (succeeded st) st (acked tag ∷ [])
      unfolding succeeded
      succeeded-Puts st live = ground (arith, ack-wire a acks tag st.0.client (ground arith))

      concluded-Puts :
          (r : Result Unit) (st : State A answers u)
          → is_live A st.0.client ≡ true
          → Puts (concluded r st) st (expected st r)
      unfolding concluded
      concluded-Puts (return _) st live = ground (arith, succeeded-Puts st live)
      concluded-Puts (raise e) st live = on_error-Puts e st live

      abbrev pub begun : Site A → State A answers u
      begun s = (s, collect u s.worker_host answers.now)

      -- While the connection holds, and if the processor of the unit runs in a child, one message puts
      -- exactly the calls of `calls_for` on the wire, and no exception leaves
      -- `process_message_async`: an ack for a success and for each outcome that is not retried, the
      -- retry or the dead letter before the ack for an error, and a nack with requeue for a
      -- shutdown.
      pub process_message_async-calls :
          (s : Site A)
          → is_live A s.client ≡ true
          → answers.is_inline u.processor_id ≡ false
          → let (r, t) = handle A answers u (begun s) in
            let out = process_message_async A answers u tag q s in
            (out.0 ≡ return tt)
            × (out.1.client.wire.1
                ≡ s.client.wire.1
                  ++ calls_for u tag q answers.clock_text t.0.running s.client.queue_name
                      s.client.dlx_name s.client.dlq_name r)
      unfolding process_message_async attempt concluded succeeded record_metrics
      process_message_async-calls s live child =
          let st = begun s in
          let h = handle A answers u st in
          let same = handle-client A answers u st child in
          let c = h.1.0.client in
          let (ok, put) = concluded-Puts h.0 h.1 (ground (arith, same)) in
          (ok, put ∙ same_log answers u tag q h.1.0.running h.0 s.client h.1.0.client same)
