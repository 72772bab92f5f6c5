-- ===== src/Producer/Discovery.antt =====
-- src/producer/image_discovery_producer.py: one tick of discovery. The sources and the object store
-- are parameters: what `discover_images` and `list_prefixes` answer.
pub mod Marks
pub mod Backlog
pub mod Published
use tiles_processor.Base.{
  ℕ, zero, suc, ◌+◌, Bool, true, false, ◌&&◌, ◌||◌, List, [], ◌∷◌, ◌++◌, Option, none, some, Text,
  codes, text_eq, starts_with, remove_prefix, if◌then◌else◌, ◌==◌, Exec, Exception, Kind, timeout,
  Result, return, raise, pure, throw, lift, gets, modify, branch, try_except, ◌>>=◌, ◌>>◌,
}
use tiles_processor.WorkUnit.{WorkUnit, Bounds, create}
use tiles_processor.Tracker.{
  ProgressTracker, cleanup_stale, reclaim_orphan_in_progress, mark_in_progress,
  get_in_progress_images,
}
use tiles_processor.Rabbit.{Client, publish, get_queue_size}
use tiles_processor.Rabbit.Pika.{Amqp}
use tiles_processor.Producer.Routing.{QueueRouter, route}
use tiles_processor.Producer.Tilesets.{
  get_existing_tilesets, get_wrf_existing_tilesets, get_radar_existing_tilesets,
}

pub record ImageInfo : Type 0 where
  pub image_id : Text
  pub source_uri : Text
  pub data_source_id : Text
  pub processor_id : Text
  pub output_prefix : Text

pub record DiscoveryConfig : Type 0 where
  pub current_time : ℕ
  pub existing_tilesets : List Text
  pub in_progress_images : List Text
  pub bounds : Bounds

-- The classes that `_discover_source` tells apart, with what it reads of each. The two GOES classes
-- carry a BandConfig.
pub data SourceClass : Type 0 where
  goes : (band_id s3_tiles_prefix : Text) → SourceClass
  radar : (product_id s3_tiles_prefix : Text) → SourceClass
  wrf : (product_id : Text) → SourceClass
  untiled : SourceClass
  tiled : SourceClass

pub record DataSource : Type 0 where
  pub source_id : Text
  pub class : SourceClass
  pub discover_images : DiscoveryConfig → Result (List ImageInfo)
  -- Whether `wait_for` gives up on this source in this tick.
  pub expires : Bool

pub record Config : Type 0 where
  pub enable_band_13 : Bool
  pub enable_band_9 : Bool
  pub enable_band_2 : Bool
  pub enable_glm_fed : Bool
  pub enable_ecmwf_precipitation : Bool
  pub enable_gfs_mslp : Bool
  pub enable_gfs_500 : Bool
  pub enable_gfs_250 : Bool
  pub enabled_radar_products : Text → Option Bool
  pub enabled_inta_products : Text → Option Bool
  pub enabled_wrf_products : Text → Option Bool
  pub rabbitmq_queue : Text
  pub rabbitmq_radar_light_queue : Text
  pub rabbitmq_wrf_light_queue : Text
  pub gfs_producer_data_source_id : Text
  pub bounds : Bounds

-- `products.get(product_id, False)`
abbrev get_flag : Option Bool → Bool
get_flag none = false
get_flag (some b) = b

unfoldable pub is_source_enabled : Config → Text → Bool
unfolding starts_with remove_prefix
is_source_enabled c source_id =
    if text_eq source_id (codes "goes19_abi_c13")
    then c.enable_band_13
    else if text_eq source_id (codes "goes19_abi_c09")
    then c.enable_band_9
    else if text_eq source_id (codes "goes19_abi_c02")
    then c.enable_band_2
    else if text_eq source_id (codes "goes19_glm")
    then c.enable_glm_fed
    else if starts_with source_id (codes "radar_sinarame_")
    then get_flag (c.enabled_radar_products (remove_prefix source_id (codes "radar_sinarame_")))
    else if starts_with source_id (codes "radar_inta_")
    then get_flag (c.enabled_inta_products (remove_prefix source_id (codes "radar_inta_")))
    else if starts_with source_id (codes "wrf_arg4k_")
    then get_flag (c.enabled_wrf_products (remove_prefix source_id (codes "wrf_arg4k_")))
    else if text_eq source_id (codes "ecmwf_ifs_total_precipitation_producer")
    then c.enable_ecmwf_precipitation
    else if text_eq source_id c.gfs_producer_data_source_id
    then c.enable_gfs_mslp || (c.enable_gfs_500 || c.enable_gfs_250)
    else true

abbrev pub band_of : DataSource → Text
band_of s = elim s.class [
  | goes band_id prefix ↦ band_id
  | wrf product_id ↦ codes "wrf_arg4k_" ++ product_id
  | _ ↦ s.source_id
]

abbrev expired : Exception
expired = record { kind = timeout; message = codes "Discovery exceeded its time" }

pub record ImageDiscoveryProducer (amqp : Amqp) : Type 0 where
  pub mq_client : Client amqp
  pub progress_tracker : ProgressTracker

-- The clock, what uuid4 answers for an image, and the object store.
module _ (amqp : Amqp) (config : Config) (router : QueueRouter) (now : ℕ) (clock_text : Text)
    (uuid : Text → Text) (list_prefixes : Text → Result (List Text)) where
  abbrev pub Producer : Type 0
  Producer = ImageDiscoveryProducer amqp

  abbrev pub on_mq : {A : Type 0} → Exec (Client amqp) A → Exec Producer A
  on_mq m p = let (r, c) = m p.mq_client in (r, record p { mq_client = c })

  abbrev pub on_tracker : (ProgressTracker → ProgressTracker) → Exec Producer Unit
  on_tracker f = modify (λ p. record p { progress_tracker = f p.progress_tracker })

  abbrev pub existing : DataSource → List Text
  existing s = elim s.class [
    | goes band_id prefix ↦ get_existing_tilesets list_prefixes prefix
    | radar product_id prefix ↦ get_radar_existing_tilesets list_prefixes product_id prefix
    | wrf product_id ↦ get_wrf_existing_tilesets list_prefixes product_id
    | untiled ↦ []
    | tiled ↦ get_existing_tilesets list_prefixes (codes "tiles/" ++ s.source_id)
  ]

  abbrev pub unit_of : (band_id : Text) → ImageInfo → WorkUnit
  unit_of band_id i =
      create (uuid i.image_id) clock_text i.image_id i.source_uri i.data_source_id i.processor_id
        i.output_prefix config.bounds band_id

  -- One round of the loop: the mark comes before the publish.
  unfoldable pub publish_image : (band_id : Text) → ImageInfo → Exec Producer Unit
  publish_image band_id i = do
    on_tracker (mark_in_progress now i.image_id band_id)
    let u = unit_of band_id i
    on_mq (publish amqp u (some (route router u)))

  pub publish_images : (band_id : Text) → List ImageInfo → (published : ℕ) → Exec Producer ℕ
  publish_images band_id [] published = pure published
  publish_images band_id (i ∷ images) published = do
    publish_image band_id i
    publish_images band_id images (published + 1)

  pub discovery_config : DataSource → ProgressTracker → DiscoveryConfig
  discovery_config s t = record {
    current_time = now;
    existing_tilesets = existing s;
    in_progress_images = get_in_progress_images (band_of s) t;
    bounds = config.bounds;
  }

  pub discover_source : DataSource → Exec Producer ℕ
  discover_source s = do
    t ← gets (λ p. p.progress_tracker)
    new_images ← lift (s.discover_images (discovery_config s t))
    publish_images (band_of s) new_images 0

  -- The loop that publishes awaits nothing, so the time can only run out before it.
  pub discover_with_timeout : DataSource → Exec Producer ℕ
  discover_with_timeout s = branch s.expires (throw expired) (discover_source s)

  unfoldable pub work_queue_empty : Exec Producer Bool
  work_queue_empty =
      try_except
        (do
          normal ← on_mq (get_queue_size amqp (some config.rabbitmq_queue))
          radar_light ← on_mq (get_queue_size amqp (some config.rabbitmq_radar_light_queue))
          wrf_light ← on_mq (get_queue_size amqp (some config.rabbitmq_wrf_light_queue))
          pure (normal == 0 && (radar_light == 0 && wrf_light == 0)))
        (λ _. pure false)

  pub reclaim_if : (drained : Bool) → Exec Producer Unit
  reclaim_if true = on_tracker (λ t. (reclaim_orphan_in_progress now none t).0)
  reclaim_if false = pure tt

  -- A source that is not enabled is skipped, and one that fails counts nothing.
  pub attempt_source : DataSource → Exec Producer ℕ
  attempt_source s =
      branch (is_source_enabled config s.source_id)
        (try_except (discover_with_timeout s) (λ _. pure 0)) (pure 0)

  pub attempt_sources : List DataSource → (total : ℕ) → Exec Producer ℕ
  attempt_sources [] total = pure total
  attempt_sources (s ∷ sources) total = do
    count ← attempt_source s
    attempt_sources sources (total + count)

  unfoldable pub discover_and_publish : List DataSource → Exec Producer ℕ
  discover_and_publish sources = do
    on_tracker (cleanup_stale now)
    drained ← work_queue_empty
    reclaim_if drained
    attempt_sources sources 0
