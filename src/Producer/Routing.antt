-- ===== src/Producer/Routing.antt =====
-- src/producer/queue_router.py, and the queues that the two kinds of worker drain.
use tiles_processor.Base.{
  ◌≡◌, Bool, true, false, ◌&&◌, List, ◌++◌, Text, codes, text_eq, text_eq_refl, strip, starts_with,
  remove_prefix, member, if◌then◌else◌, arith, starts_with-append, remove_prefix-append,
}
use tiles_processor.WorkUnit.{WorkUnit}
use tiles_processor.Worker.Messages.{WorkerConfig, consume_tiers}

pub record QueueRouter : Type 0 where
  pub normal_queue : Text
  pub radar_light_queue : Text
  pub wrf_light_queue : Text
  pub all_radar_light : Bool
  pub light_wrf_products : List Text

unfoldable pub route : QueueRouter → WorkUnit → Text
unfolding starts_with remove_prefix member
route r u =
    if r.all_radar_light && starts_with u.data_source_id (codes "radar_")
    then r.radar_light_queue
    else if starts_with u.data_source_id (codes "wrf_arg4k_")
        && member (remove_prefix u.data_source_id (codes "wrf_arg4k_")) r.light_wrf_products
    then r.wrf_light_queue
    else r.normal_queue

-- The router that run_producer builds from the settings that the worker reads too.
abbrev pub router_of : WorkerConfig → Bool → List Text → QueueRouter
router_of c all_radar products = record {
  normal_queue = c.rabbitmq_queue;
  radar_light_queue = c.rabbitmq_radar_light_queue;
  wrf_light_queue = c.rabbitmq_wrf_light_queue;
  all_radar_light = all_radar;
  light_wrf_products = products;
}

abbrev pub queues_of : WorkerConfig → List Text
queues_of c = let (strict, light) = consume_tiers c in strict ++ light

-- A worker that is not of the light type drains every queue that the producer can route a unit to,
-- whatever the routing policy. A light worker drains the queue of each unit that is not routed to
-- the normal queue.
pub route-consumed :
    (c : WorkerConfig) (all_radar : Bool) (products : List Text) (u : WorkUnit)
    → let q = route (router_of c all_radar products) u in
      (text_eq c.worker_type (codes "light") ≡ false → member q (queues_of c) ≡ true)
      × (text_eq c.worker_type (codes "light") ≡ true
          → text_eq q c.rabbitmq_queue ≡ false
          → member q (queues_of c) ≡ true)
unfolding route consume_tiers member
route-consumed c all_radar products u = ground (
  arith,
  text_eq_refl c.rabbitmq_queue,
  text_eq_refl c.rabbitmq_radar_light_queue,
  text_eq_refl c.rabbitmq_wrf_light_queue,
)

-- A unit of a WRF source goes to the WRF light queue if its product is configured, and to the normal
-- queue otherwise, also when all radar goes to the light queue.
pub route-wrf :
    (r : QueueRouter) (u : WorkUnit) (product : Text)
    → u.data_source_id ≡ codes "wrf_arg4k_" ++ product
    → route r u
      ≡ (if member product r.light_wrf_products then r.wrf_light_queue else r.normal_queue)
unfolding route starts_with strip
route-wrf r u product e = ground (
  arith,
  starts_with-append (codes "wrf_arg4k_") product,
  remove_prefix-append (codes "wrf_arg4k_") product,
)
