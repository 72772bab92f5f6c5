-- ===== src/Examples/Jobs.antt =====
-- One message, handled by a worker.
use tiles_processor.Worker.Drain.{Round, nothing_yet, drain}
use tiles_processor.Worker.Drain.Shutdown.{Stands, drain-settles}
use tiles_processor.Worker.Messages.{WorkerConfig}
use tiles_processor.Base.{
  member, text_eq, not, ◌&&◌, ◌||◌, ◌++◌, ◌∷◌, List, Result, raise, ◌≡◌, refl, Bool, true, false,
  [], ◌++◌, none, codes, arith, return, raise,
}
use tiles_processor.Worker.Subprocess.{run_processing_subprocess}
use tiles_processor.Worker.Handler.{
  guarded, fetch, download, process, process_child, complete, make_dirs, cleanup,
}
use tiles_processor.Rabbit.{ack, Client, not_connected}
use tiles_processor.Rabbit.Pika.{Amqp}
use tiles_processor.Rabbit.Log.{logged}
use tiles_processor.Worker.Subprocess.{code}
use tiles_processor.Worker.Metrics.{collect}
use tiles_processor.Worker.Site.{Site, Answers}
use tiles_processor.Worker.Handler.{State, handle, unknown_source}
use tiles_processor.Worker.Handler.Effects.{is_own, handle-scratch}
use tiles_processor.Worker.Messages.{process_message_async}
use tiles_processor.Worker.Messages.Verdict.{calls_for, process_message_async-calls}
use tiles_processor.Worker.Messages.Release.{process_message_async-tracker}
use tiles_processor.Tracker.{mark_processing}
use tiles_processor.Worker.Messages.Safety.{process_message_async-dead}
use tiles_processor.Examples.Data.{image, band, unit, broker, dropping, client, table, queued}

abbrev world : (amqp : Amqp) → (has_source : Bool) → Answers amqp
world amqp has_source = record {
  now = 50;
  clock_text = codes "50";
  attempt = codes "0001";
  has_source = λ s. has_source;
  download = λ u. return (codes "scan.nc");
  download_time = 3;
  signal_in_download = false;
  is_inline = λ p. false;
  inline = λ p u c. (return [], c);
  child = λ p u. (code 0, []);
  sink = return none;
  exited_at = 9;
  left = codes "tmp/radar/left" ∷ [];
  process_time = 4;
  signal_in_process = false;
  removes = true;
  records = true;
}

abbrev site : (amqp : Amqp) → Client amqp → Site amqp
site amqp c = record {
  worker_host = codes "host";
  base_dir = codes "tmp";
  client = c;
  tracker = table queued;
  scratch = [];
  metrics = none;
  running = true;
  aborting = false;
}

abbrev start : State broker (world broker true) unit
start = let s = site broker (client broker (7, true) 1) in (s, collect unit s.worker_host 50)

handle-scratch_example :
    let p = codes "tmp/radar/left" in
    let own = is_own broker (world broker true) unit (codes "tmp") p in
    let after = member p (handle broker (world broker true) unit start).1.0.scratch in
    let new = member p (world broker true).left || text_eq (codes "tmp" ++ b'/' ∷ unit.band_id) p in
    ((own && after) ≡ false)
    × ((false && not own && not after) ≡ false)
    × ((after && not (false || new)) ≡ false)
unfolding member
handle-scratch_example =
    handle-scratch broker (world broker true) unit start (codes "tmp/radar/left") refl refl

abbrev A : Amqp
A = logged broker

abbrev on_log : Site A
on_log = site A (client A ((7, true), []) 1)

process_message_async-calls_example :
    let (r, t) = handle A (world A true) unit (on_log, collect unit (codes "host") 50) in
    let out = process_message_async A (world A true) unit 7 (codes "work") on_log in
    (out.0 ≡ return tt)
    × (out.1.client.wire.1
        ≡ []
          ++ calls_for unit 7
              (codes "work")
              (codes "50")
              t.0.running
              (codes "work")
              (codes "dlx")
              (codes "dead")
              r)
process_message_async-calls_example =
    process_message_async-calls broker (λ e k b w. refl) (λ e k b w. refl) (λ t w. refl)
      (λ t r w. refl) (world A true) unit 7 (codes "work") on_log refl refl

abbrev cut_off : Site broker
cut_off = site broker (client broker (7, false) 1)

unknown :
    let out = handle broker (world broker false) unit (cut_off, collect unit (codes "host") 50) in
    (out.0 ≡ raise unknown_source) × (out.1.0.running ≡ true)
unfolding handle
unknown = (refl, refl)

process_message_async-dead_example :
    let out = process_message_async broker (world broker false) unit 7 (codes "work") cut_off in
    (out.0 ≡ raise not_connected)
    × (out.1.client.wire ≡ cut_off.client.wire)
    × (out.1.client.outstanding_deliveries ≡ cut_off.client.outstanding_deliveries)
process_message_async-dead_example =
    process_message_async-dead broker (world broker false) unit 7 (codes "work") cut_off
      unknown_source refl (omega arith) refl unknown.0 refl unknown.1

abbrev last_words : Site dropping
last_words = site dropping (client dropping (7, true) 1)

abbrev ended : Result Unit × State dropping (world dropping true) unit
ended = handle dropping (world dropping true) unit (last_words, collect unit (codes "host") 50)

abbrev unacked : Result Unit × Client dropping
unacked = ack dropping 7 ended.1.0.client

succeeded : (ended.0 ≡ return tt) × (ended.1.0.running ≡ true)
unfolding handle guarded fetch download process process_child complete make_dirs cleanup
    run_processing_subprocess
succeeded = (refl, refl)

process_message_async-tracker_example :
    (process_message_async broker (world broker false) unit 7 (codes "work") cut_off).1.tracker
    ≡ mark_processing 50 image band (table queued)
process_message_async-tracker_example =
    process_message_async-tracker broker (world broker false) unit 7 (codes "work") cut_off
      unknown_source unknown.0

abbrev normal : WorkerConfig
normal = record {
  worker_type = codes "normal";
  rabbitmq_queue = codes "work";
  rabbitmq_radar_light_queue = codes "radar";
  rabbitmq_wrf_light_queue = codes "wrf";
}

-- Nothing finishes in the first turn; the signal comes in the second.
abbrev schedule : List Round
schedule =
    (record { done = λ m. false; signal = false })
    ∷ (record { done = λ m. true; signal = true })
    ∷ (record { done = λ m. true; signal = false })
    ∷ []

abbrev fresh : Site broker
fresh = site broker (client broker (7, true) 0)

drain-settles_example :
    Stands broker normal 2
      (codes "now")
      (λ m. world broker true)
      fresh
      schedule
      (drain broker normal 2 (codes "now") (λ m. world broker true) schedule nothing_yet fresh)
drain-settles_example =
    drain-settles broker normal 2 (codes "now") (λ m. world broker true) schedule fresh
