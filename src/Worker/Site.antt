-- ===== src/Worker/Site.antt =====
-- What the coroutines of one worker process share, and what the world answers to one message.
use tiles_processor.Base.{
  ℕ, Bool, true, false, List, Option, Text, Exec, Result, pure, branch, ◌>>◌, modify,
}
use tiles_processor.WorkUnit.{WorkUnit}
use tiles_processor.Tracker.{ProgressTracker}
use tiles_processor.Rabbit.{RabbitMqClient, Client, stop_consuming}
use tiles_processor.Rabbit.Pika.{Amqp}
use tiles_processor.Worker.Metrics.{JobMetrics, Timings}
use tiles_processor.Worker.Subprocess.{Exit}

pub record Site (amqp : Amqp) : Type 0 where
  pub worker_host : Text
  pub base_dir : Text
  pub client : RabbitMqClient amqp
  pub tracker : ProgressTracker
  -- The scratch paths that exist below `base_dir`.
  pub scratch : List Text
  -- `_metrics_repository`, with the rows that it holds.
  pub metrics : Option (List JobMetrics)
  pub running : Bool
  pub aborting : Bool

-- The answers of the clock, of uuid4, of the source's backend and of the processors to the handling
-- of one unit. A signal may arrive while the handler waits for a download or for a processor.
pub record Answers (amqp : Amqp) : Type 0 where
  pub now : ℕ
  pub clock_text : Text
  pub attempt : Text
  -- `_data_source_registry.get(...)` and then the download of that source.
  pub has_source : Text → Bool
  pub download : WorkUnit → Result Text
  pub download_time : ℕ
  pub signal_in_download : Bool
  -- `_inline_processors`, which use the queue client.
  pub is_inline : Text → Bool
  pub inline : (path : Text) → WorkUnit → Exec (RabbitMqClient amqp) Timings
  -- The child: how it ended, what it wrote on stderr, the object in its sink, and when it was reaped.
  pub child : (path : Text) → WorkUnit → Exit × List Text
  pub sink : Result (Option Timings)
  pub exited_at : ℕ
  -- The scratch paths that the child makes and does not remove.
  pub left : List Text
  pub process_time : ℕ
  pub signal_in_process : Bool
  -- Whether rmtree and unlink work, and whether the metrics database takes a row.
  pub removes : Bool
  pub records : Bool

module _ (amqp : Amqp) where
  abbrev pub on_client : {A : Type 0} → Exec (Client amqp) A → Exec (Site amqp) A
  on_client m s = let (r, c) = m s.client in (r, record s { client = c })

  -- Worker._signal_handler; `abort` signals the children.
  unfoldable pub signal_handler : Exec (Site amqp) Unit
  unfolding stop_consuming
  signal_handler = do
    modify (λ s. record s { running = false })
    modify (λ s. record s { aborting = true })
    on_client (stop_consuming amqp)

  abbrev pub interrupt : Bool → Exec (Site amqp) Unit
  interrupt arrived = branch arrived signal_handler (pure tt)
