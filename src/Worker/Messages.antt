-- ===== src/Worker/Messages.antt =====
-- src/worker/worker.py: the disposition of one message, the metrics row, and the loop's tiers.
pub mod Verdict
pub mod Safety
pub mod Release
use tiles_processor.Base.{
  ℕ, Bool, true, false, not, List, [], ◌∷◌, ◌++◌, Option, none, some, Text, codes, text_eq,
  if◌then◌else◌, Exec, Exception, Kind, Result, return, raise, pure, throw, branch, recover, gets,
  modify, ◌>>=◌, ◌>>◌, unprocessable_input, invalid_grib_response, forecast_not_available,
  transient_download, source_file_not_found, shutdown_requested,
}
use tiles_processor.WorkUnit.{WorkUnit, can_retry, create_retry}
use tiles_processor.Tracker.{mark_completed}
use tiles_processor.Rabbit.{Client, publish, publish_to_dlq, ack, nack}
use tiles_processor.Rabbit.Pika.{Amqp}
use tiles_processor.Worker.Metrics.{
  JobMetrics, JobMetricsContext, JobOutcome, Timings, collect, mark_outcome, has_outcome, build,
}
use tiles_processor.Worker.Site.{Site, Answers, on_client}
use tiles_processor.Worker.Handler.{State, handle}

-- Settings of the worker that choose its queues.
pub record WorkerConfig : Type 0 where
  pub worker_type : Text
  pub rabbitmq_queue : Text
  pub rabbitmq_radar_light_queue : Text
  pub rabbitmq_wrf_light_queue : Text

-- The strict queues and the round-robin queues.
unfoldable pub consume_tiers : WorkerConfig → List Text × List Text
consume_tiers c =
    let light = c.rabbitmq_radar_light_queue ∷ c.rabbitmq_wrf_light_queue ∷ [] in
    if text_eq c.worker_type (codes "light") then ([], light) else (c.rabbitmq_queue ∷ [], light)

abbrev with_row : Bool → Option (List JobMetrics) → Option JobMetrics → Option (List JobMetrics)
with_row works none _ = none
with_row works (some l) none = some l
with_row works (some l) (some m) = if works then some (l ++ m ∷ []) else some l

-- With no repository or no outcome there is no row; a database error is logged and goes no further.
unfoldable pub record_metrics :
    {amqp : Amqp} → ℕ → (works : Bool) → JobMetricsContext → Site amqp → Site amqp
record_metrics now works c s = record s { metrics = with_row works s.metrics (build now c) }

module _ (amqp : Amqp) (answers : Answers amqp) (u : WorkUnit) (tag : ℕ) (source_queue : Text) where
  abbrev pub Step : Type 0
  Step = Exec (State amqp answers u) Unit

  abbrev pub on_queue : Exec (Client amqp) Unit → Step
  on_queue m (s, c) = let (r, t) = on_client amqp m s in (r, (t, c))

  abbrev pub stamp : JobOutcome → Text → Step
  stamp o message (s, c) = (return tt, (s, mark_outcome o (some message) c))

  -- WorkHandler.release_progress
  pub release_progress : Step
  release_progress (s, c) =
      (return tt, (record s { tracker = mark_completed u.image_id u.band_id s.tracker }, c))

  -- Another attempt on the queue that the message came from, or the dead letter.
  pub retry_or_bury : Exception → Step
  retry_or_bury e =
      branch (can_retry u)
        (on_queue (publish amqp (create_retry u) (some source_queue))
          >> stamp JobOutcome.error e.message)
        (on_queue (publish_to_dlq amqp answers.clock_text u e.message)
          >> stamp JobOutcome.dlq e.message)

  pub handle_processing_error : Exception → Step
  handle_processing_error e st =
      branch st.0.running (retry_or_bury e >> on_queue (ack amqp tag))
        (on_queue (nack amqp tag true)) st

  -- The except clauses, in order; an InvalidGribResponseError is an UnprocessableInputError.
  pub on_error : Exception → Step
  on_error e = elim e.kind [
    | forecast_not_available ↦ (do
      release_progress
      stamp JobOutcome.skipped e.message
      on_queue (ack amqp tag))
    | unprocessable_input ↦ (do stamp JobOutcome.skipped e.message; on_queue (ack amqp tag))
    | invalid_grib_response ↦ (do stamp JobOutcome.skipped e.message; on_queue (ack amqp tag))
    | transient_download ↦ (do
      release_progress
      stamp JobOutcome.requeued e.message
      on_queue (ack amqp tag))
    | source_file_not_found ↦ (do stamp JobOutcome.error e.message; on_queue (ack amqp tag))
    | shutdown_requested ↦ on_queue (nack amqp tag true)
    | _ ↦ handle_processing_error e
  ]

  -- The statements under `try`.
  pub attempt : Step
  attempt = do
    handle amqp answers u
    (λ (s, c). (return tt, (s, mark_outcome JobOutcome.success none c)))
    on_queue (ack amqp tag)

  unfoldable pub process_message_async : Exec (Site amqp) Unit
  process_message_async s =
      let (r, (t, c)) = attempt (s, collect u s.worker_host answers.now) in
      let (r', (t', c')) = recover r on_error (t, c) in
      (r', record_metrics answers.now answers.records c' t')
