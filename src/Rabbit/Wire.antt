-- ===== src/Rabbit/Wire.antt =====
-- The calls that one operation of a live client logs, where the calls of pika do not raise.
use tiles_processor.Base.{
  ℕ, Bool, true, ◌≡◌, refl, List, [], ◌∷◌, ◌++◌, ◌∙◌, Option, Text, Exec, Result, return, arith,
}
use tiles_processor.WorkUnit.{WorkUnit}
use tiles_processor.WorkUnit.Body.{Body, to_dict, dead_letter}
use tiles_processor.Rabbit.{
  Client, ensure_channel, publish, publish_to_dlq, ack, nack, or_default, channel_live,
}
use tiles_processor.Rabbit.Guards.{is_live}
use tiles_processor.Rabbit.Log.{Call, published, acked, nacked, logged}
use tiles_processor.Rabbit.Pika.{Amqp}

two_more : {X : Type 0} (l : List X) (x y : X) → (l ++ x ∷ []) ++ y ∷ [] ≡ l ++ x ∷ y ∷ []
two_more [] x y = refl
two_more (z ∷ l) x y = ground (arith, two_more l x y)

module _ (a : Amqp) where
  abbrev pub A : Amqp
  A = logged a

  -- A copy of `c` after one more logged call.
  abbrev pub after : Call → Exec a.Wire Unit → Client A → Client A
  after call m c = record c { wire = ((m c.wire.0).1, c.wire.1 ++ call ∷ []) }

  module _
      (publishes : (e k : Text) (b : Body) (w : a.Wire)
        → (a.basic_publish e k b w).0 ≡ return tt) where
    pub publish-wire :
        (u : WorkUnit) (q : Option Text) (c : Client A)
        → is_live A c ≡ true
        → let e = or_default q c.queue_name in
          publish A u q c
          ≡ (return tt, after (published [] e (to_dict u)) (a.basic_publish [] e (to_dict u)) c)
    unfolding publish ensure_channel
    publish-wire u q c live =
        ground (arith, publishes [] (or_default q c.queue_name) (to_dict u) c.wire.0)

    pub publish_to_dlq-wire :
        (now : Text) (u : WorkUnit) (message : Text) (c : Client A)
        → is_live A c ≡ true
        → let body = dead_letter u message now in
          publish_to_dlq A now u message c ≡ (
            return tt,
            after
                (published c.dlx_name c.dlq_name body)
                (a.basic_publish c.dlx_name c.dlq_name body)
                c,
          )
    unfolding publish_to_dlq ensure_channel
    publish_to_dlq-wire now u message c live =
        ground (arith, publishes c.dlx_name c.dlq_name (dead_letter u message now) c.wire.0)

  abbrev pub Settled : (call : Call) → Result Unit × Client A → Client A → Type 0
  Settled call out c = (out.0 ≡ return tt) × (out.1.wire.1 ≡ c.wire.1 ++ call ∷ [])

  module _ (acks : (t : ℕ) (w : a.Wire) → (a.basic_ack t w).0 ≡ return tt) where
    pub ack-wire :
        (t : ℕ) (c : Client A) → channel_live A c ≡ true → Settled (acked t) (ack A t c) c
    unfolding ack
    ack-wire t c live = ground (arith, acks t c.wire.0)

    pub after-ack :
        (call : Call) (m : Exec a.Wire Unit) (t : ℕ) (c : Client A)
        → channel_live A c ≡ true
        → a.is_closed (m c.wire.0).1 ≡ a.is_closed c.wire.0
        → let out = ack A t (after call m c) in
          (out.0 ≡ return tt) × (out.1.wire.1 ≡ c.wire.1 ++ call ∷ acked t ∷ [])
    after-ack call m t c live same =
        let d = after call m c in
        let (r, w) = ack-wire t d (ground arith) in (r, w ∙ two_more c.wire.1 call (acked t))

  pub nack-wire :
      (nacks : (t : ℕ) (r : Bool) (w : a.Wire) → (a.basic_nack t r w).0 ≡ return tt)
      → (t : ℕ) (r : Bool) (c : Client A) → channel_live A c ≡ true
      → Settled (nacked t r) (nack A t r c) c
  unfolding nack
  nack-wire nacks t r c live = ground (arith, nacks t r c.wire.0)
