-- ===== src/Rabbit/Guards.antt =====
-- Reconnecting: when a publish may open a new connection, and what it then finds.
use tiles_processor.Base.{
  Bool-cases, throw, codes, ℕ, zero, suc, ◌<◌, ◌≡◌, ◌≢◌, ◌⊎◌, inl, inr, refl, Bool, true, false,
  ◌&&◌, Option, Text, arith, Exception, Result, return, raise, amqp_connection, Exec, recover, Kind,
}
use tiles_processor.WorkUnit.{WorkUnit}
use tiles_processor.Rabbit.{
  is_amqp, Client, channel_live, not_connected, attempt, connect, ensure_channel, publish,
  publish_to_dlq, get_queue_size, on_amqp_error, error,
}
use tiles_processor.Rabbit.Pika.{Amqp}

is_amqp-ne : (k : Kind) → is_amqp k ≡ false → k ≢ amqp_connection
is_amqp-ne amqp_connection h = cc
is_amqp-ne _ h = λ e. cc

recover-kind :
    {S : Type 0} (r : Result Unit) (handler : Exec S Unit) (s : S) (e : Exception)
    → ((handler s).0 ≡ raise e → e.kind ≢ amqp_connection)
    → (recover r (on_amqp_error handler) s).0 ≡ raise e
    → e.kind ≢ amqp_connection
recover-kind (return a) handler s e k h = cc
recover-kind (raise x) handler s e k h = elim (Bool-cases (is_amqp x.kind)) [
  | inl t ↦ k (rw t at h)
  | inr f ↦ ground (arith, is_amqp-ne x.kind f)
]

abbrev pub failed : Exception
failed = error (codes "Failed to connect to RabbitMQ")

module _ (amqp : Amqp) where
  open amqp use {is_open}

  abbrev pub is_live : Client amqp → Bool
  is_live c = c.has_connection && is_open c.wire && channel_live amqp c

  ensure_channel_declines :
      (c : Client amqp)
      → is_live c ≡ false
      → 0 < c.outstanding_deliveries
      → ensure_channel amqp c ≡ (raise not_connected, c)
  unfolding ensure_channel
  ensure_channel_declines c dead busy = ground arith

  -- While a delivery is outstanding, a dead channel is not replaced: a publish, a dead letter and a
  -- depth query all raise at once, with no call of pika and no change of the client.
  pub publish_declines :
      (c : Client amqp) (u : WorkUnit) (queue : Option Text) (now message : Text)
      → is_live c ≡ false
      → 0 < c.outstanding_deliveries
      → (publish amqp u queue c ≡ (raise not_connected, c))
        × (publish_to_dlq amqp now u message c ≡ (raise not_connected, c))
        × (get_queue_size amqp queue c ≡ (raise not_connected, c))
  unfolding publish publish_to_dlq get_queue_size
  publish_declines c u queue now message dead busy =
      let e = ensure_channel_declines c dead busy in (rw e refl, rw e refl, rw e refl)

  -- If the channel is returned, it is live, and tags of an older channel are forgotten.
  pub ensure_channel_live :
      (c : Client amqp)
      → (ensure_channel amqp c).0 ≡ return tt
      → let d = (ensure_channel amqp c).1 in
        (channel_live amqp d ≡ true) × ((d ≡ c) ⊎ (c.outstanding_deliveries ≡ 0))
  unfolding ensure_channel
  ensure_channel_live c h = ground arith

  -- A connection error never leaves `connect`: after one attempt or more, it has become a
  -- RuntimeError.
  pub connect-kind :
      (n : ℕ) (c : Client amqp) (e : Exception)
      → (connect amqp (suc n) c).0 ≡ raise e
      → e.kind ≢ amqp_connection
  unfolding connect
  connect-kind zero c e h =
      recover-kind (attempt amqp c).0 (throw failed) (attempt amqp c).1 e (λ g. ground arith) h
  connect-kind (suc n) c e h =
      recover-kind (attempt amqp c).0 (connect amqp (suc n)) (attempt amqp c).1 e
        (connect-kind n (attempt amqp c).1 e) h
