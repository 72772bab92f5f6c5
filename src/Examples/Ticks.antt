-- ===== src/Examples/Ticks.antt =====
-- Ticks of the producer.
use tiles_processor.Base.{
  ◌≡◌, refl, true, false, List, [], ◌∷◌, some, Text, codes, text_eq, Result, return,
}
use tiles_processor.Tracker.{has_key, cleanup_stale}
use tiles_processor.Tracker.Keys.{find, find-nil, IsKeyed}
use tiles_processor.Rabbit.{ensure_channel, get_queue_size}
use tiles_processor.Rabbit.Log.{logged}
use tiles_processor.Rabbit.Pika.{Amqp}
use tiles_processor.Worker.Messages.{WorkerConfig}
use tiles_processor.Producer.Routing.{router_of, QueueRouter}
use tiles_processor.Producer.Discovery.{
  Config, DataSource, ImageInfo, ImageDiscoveryProducer, tiled, on_tracker, work_queue_empty,
  publish_images, discover_and_publish,
}
use tiles_processor.Producer.Discovery.Backlog.{IsQueued, discover_and_publish-IsQueued}
use tiles_processor.Producer.Discovery.Published.{IsPublished, publish_images-IsPublished}
use tiles_processor.Examples.Data.{image, band, queued, table, broker, client}

abbrev settings : WorkerConfig
settings = record {
  worker_type = codes "normal";
  rabbitmq_queue = codes "work";
  rabbitmq_radar_light_queue = codes "radar";
  rabbitmq_wrf_light_queue = codes "wrf";
}

abbrev light_settings : WorkerConfig
light_settings = record settings { worker_type = codes "light" }

abbrev router : QueueRouter
router = router_of settings true (codes "colmax" ∷ [])

abbrev config : Config
config = record {
  enable_band_13 = true;
  enable_band_9 = true;
  enable_band_2 = true;
  enable_glm_fed = true;
  enable_ecmwf_precipitation = true;
  enable_gfs_mslp = true;
  enable_gfs_500 = true;
  enable_gfs_250 = true;
  enabled_radar_products = λ p. some true;
  enabled_inta_products = λ p. some true;
  enabled_wrf_products = λ p. some true;
  rabbitmq_queue = codes "work";
  rabbitmq_radar_light_queue = codes "radar";
  rabbitmq_wrf_light_queue = codes "wrf";
  gfs_producer_data_source_id = codes "gfs";
  bounds = [];
}

abbrev scan : ImageInfo
scan = record {
  image_id = codes "new.nc";
  source_uri = codes "s3://new";
  data_source_id = codes "other";
  processor_id = codes "p";
  output_prefix = codes "tiles";
}

abbrev source : DataSource
source = record {
  source_id = codes "other";
  class = tiled;
  discover_images = λ c. return (scan ∷ []);
  expires = false;
}

abbrev no_tiles : Text → Result (List Text)
no_tiles p = return []

abbrev fixed : Text → Text
fixed i = codes "id"

abbrev producer : (amqp : Amqp) → amqp.Wire → ImageDiscoveryProducer amqp
producer amqp w = record { mq_client = client amqp w 0; progress_tracker = table queued }

one_row : IsKeyed (queued ∷ [])
one_row = (find-nil image band, tt)

found : find image band (queued ∷ []) ≡ some queued
unfolding find has_key text_eq
found = refl

backlog :
    (work_queue_empty broker config router 9
      (codes "9")
      fixed
      no_tiles
      (on_tracker broker config router 9
        (codes "9")
        fixed
        no_tiles
        (cleanup_stale 9)
        (producer broker (0, true))).1).0
    ≡ return false
unfolding work_queue_empty get_queue_size ensure_channel
backlog = refl

discover_and_publish-IsQueued_example :
    IsQueued image band
      (discover_and_publish broker config router 9
        (codes "9")
        fixed
        no_tiles
        (source ∷ [])
        (producer broker (0, true))).1.progress_tracker
discover_and_publish-IsQueued_example =
    discover_and_publish-IsQueued broker config router 9 (codes "9") fixed no_tiles image band
      (source ∷ []) (producer broker (0, true))
      (record { keyed = one_row; row = queued; found = found; status = refl }) backlog

publish_images-IsPublished_example :
    let p = producer (logged broker) ((0, true), []) in
    IsPublished broker config router 9 (codes "9") fixed no_tiles (codes "other") (scan ∷ []) 0 p (
      publish_images
        (logged broker)
        config
        router
        9
        (codes "9")
        fixed
        no_tiles
        (codes "other")
        (scan ∷ [])
        0
        p)
publish_images-IsPublished_example =
    publish_images-IsPublished broker config router 9 (codes "9") fixed no_tiles (λ e k b w. refl)
      (λ e k b w. (refl, refl)) (codes "other") (scan ∷ []) 0
      (producer (logged broker) ((0, true), [])) refl
