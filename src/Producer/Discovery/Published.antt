-- ===== src/Producer/Discovery/Published.antt =====
-- What the publishing loop puts on the wire and into the tracker, while the connection holds.
use mathlib.Core.List.{append-nil, append_assoc}
use tiles_processor.Base.{
  sym, ℕ, ◌+◌, ◌≡◌, refl, true, List, [], ◌∷◌, ◌++◌, map, some, Text, arith, length, Result, return,
}
use tiles_processor.WorkUnit.Body.{Body, to_dict}
use tiles_processor.Tracker.Lookup.{Operation, queues, apply, run}
use tiles_processor.Rabbit.{or_default}
use tiles_processor.Rabbit.Guards.{is_live}
use tiles_processor.Rabbit.Log.{Call, published, logged}
use tiles_processor.Rabbit.Wire.{publish-wire}
use tiles_processor.Rabbit.Pika.{Amqp}
use tiles_processor.Producer.Routing.{QueueRouter, route}
use tiles_processor.Producer.Discovery.{
  Config, ImageInfo, ImageDiscoveryProducer, publish_image, publish_images, unit_of,
}

module _ (a : Amqp) (config : Config) (router : QueueRouter) (now : ℕ) (clock_text : Text)
    (uuid : Text → Text) (list_prefixes : Text → Result (List Text)) where
  abbrev A : Amqp
  A = logged a

  abbrev P : Type 0
  P = ImageDiscoveryProducer A

  abbrev pub call_of : (default band : Text) → ImageInfo → Call
  call_of default band i =
      let u = unit_of A config router now clock_text uuid list_prefixes band i in
      published [] (or_default (some (route router u)) default) (to_dict u)

  abbrev pub marks_of : (band : Text) → List ImageInfo → List Operation
  marks_of band images = map (λ i. queues now i.image_id band) images

  -- What the loop leaves after `images`, from `p` and a count of `n`.
  pub record IsPublished (band : Text) (images : List ImageInfo) (n : ℕ) (p : P)
      (out : Result ℕ × P) : Type 0 where
    pub count : out.0 ≡ return (n + length images)
    pub log :
        out.1.mq_client.wire.1
        ≡ p.mq_client.wire.1 ++ map (call_of p.mq_client.queue_name band) images
    pub tracker : out.1.progress_tracker ≡ run p.progress_tracker (marks_of band images)

  module _
      (publishes : (e k : Text) (b : Body) (w : a.Wire) → (a.basic_publish e k b w).0 ≡ return tt)
      (stays_open : (e k : Text) (b : Body) (w : a.Wire)
        → (a.is_closed (a.basic_publish e k b w).1 ≡ a.is_closed w)
          × (a.is_open (a.basic_publish e k b w).1 ≡ a.is_open w)) where
    -- While the connection holds, the loop publishes one unit for each image, in the order of the
    -- images and each on the queue that the router names, counts them, and marks each image.
    pub publish_images-IsPublished :
        (band : Text) (images : List ImageInfo) (n : ℕ) (p : P)
        → is_live A p.mq_client ≡ true
        → IsPublished band images n p
            (publish_images A config router now clock_text uuid list_prefixes band images n p)
    unfolding publish_images publish_image run apply
    publish_images-IsPublished band [] n p live = record {
      count = ground arith;
      log = sym (append-nil _);
      tracker = refl;
    }
    publish_images-IsPublished band (i ∷ images) n p live =
        let u = unit_of A config router now clock_text uuid list_prefixes band i in
        let q = or_default (some (route router u)) p.mq_client.queue_name in
        let out = publish_image A config router now clock_text uuid list_prefixes band i p in
        let sent = publish-wire a publishes u (some (route router u)) p.mq_client live in
        let kept = stays_open [] q (to_dict u) p.mq_client.wire.0 in
        let rest =
          publish_images-IsPublished band images (n + 1) out.1 (ground (arith, sent, kept)) in
        record {
          count = ground (arith, sent, rest);
          log = ground (
            arith,
            sent,
            rest,
            append_assoc p.mq_client.wire.1 (published [] q (to_dict u) ∷ [])
                (map (call_of p.mq_client.queue_name band) images),
          );
          tracker = ground (arith, sent, rest);
        }
