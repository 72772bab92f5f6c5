-- ===== src/Worker/Messages/Release.antt =====
-- What a failed message leaves in the tracker, whatever the broker does.
use tiles_processor.Base.{
  ℕ, Bool, true, false, ◌≡◌, Text, if◌then◌else◌, Exception, Kind, raise, arith,
  forecast_not_available, transient_download,
}
use tiles_processor.WorkUnit.{WorkUnit}
use tiles_processor.Tracker.{ProgressTracker, mark_processing, mark_completed}
use tiles_processor.Rabbit.Pika.{Amqp}
use tiles_processor.Worker.Metrics.{collect}
use tiles_processor.Worker.Site.{Site, Answers}
use tiles_processor.Worker.Handler.{State, handle}
use tiles_processor.Worker.Handler.Effects.{handle-tracker}
use tiles_processor.Worker.Messages.{
  attempt, on_error, retry_or_bury, handle_processing_error, release_progress, record_metrics,
  process_message_async,
}

-- Whether the image is given back to discovery at once.
abbrev pub is_released : Kind → Bool
is_released k = elim k [ forecast_not_available ↦ true | transient_download ↦ true | _ ↦ false ]

module _ (amqp : Amqp) (answers : Answers amqp) (u : WorkUnit) (tag : ℕ) (q : Text) where
  abbrev released_if : Bool → ProgressTracker → ProgressTracker
  released_if b t = if b then mark_completed u.image_id u.band_id t else t

  handle_processing_error-tracker :
      (e : Exception) (st : State amqp answers u)
      → (handle_processing_error amqp answers u tag q e st).1.0.tracker ≡ st.0.tracker
  unfolding handle_processing_error retry_or_bury
  handle_processing_error-tracker e st = ground arith

  on_error-tracker :
      (e : Exception) (st : State amqp answers u)
      → (on_error amqp answers u tag q e st).1.0.tracker
        ≡ released_if (is_released e.kind) st.0.tracker
  unfolding on_error release_progress
  on_error-tracker e st = ground (arith, handle_processing_error-tracker e st)

  -- After a message whose handling raised, the image is released if the forecast was not there yet or
  -- the download is to be tried again later. In every other case its entry stays, armed with the
  -- TTL, so it is not discovered anew while it is retried, buried or redelivered. This holds
  -- whatever the broker's calls answer or raise.
  pub process_message_async-tracker :
      (s : Site amqp) (e : Exception)
      → (handle amqp answers u (s, collect u s.worker_host answers.now)).0 ≡ raise e
      → let started = mark_processing answers.now u.image_id u.band_id s.tracker in
        (process_message_async amqp answers u tag q s).1.tracker
        ≡ (if is_released e.kind then mark_completed u.image_id u.band_id started else started)
  unfolding process_message_async attempt record_metrics
  process_message_async-tracker s e fails =
      let st : State amqp answers u = (s, collect u s.worker_host answers.now) in
      let h = handle amqp answers u st in
      ground (arith, handle-tracker amqp answers u st, on_error-tracker e h.1)
