-- ===== src/Rabbit.antt =====
-- src/clients/rabbitmq_client.py. pika and the broker are the parameter `Amqp`: each of its calls
-- may raise, and all that pika's objects remember is its `Wire`.
pub mod Pika
pub mod Log
pub mod Guards
pub mod Wire
pub mod Polling
use tiles_processor.Base.{
  ℕ, zero, suc, ◌+◌, ◌-◌, ◌%◌, Bool, true, false, not, ◌&&◌, ◌||◌, List, [], ◌∷◌, Option, none,
  some, Text, text_eq, codes, if◌then◌else◌, ◌==◌, ltb, length, get_elem?, Exec, Exception, Kind,
  Result, return, raise, amqp_connection, runtime_error, pure, throw, gets, modify, try_except,
  ◌>>=◌, ◌>>◌,
}
use tiles_processor.WorkUnit.{WorkUnit}
use tiles_processor.WorkUnit.Body.{Body, to_dict, from_dict, dead_letter}
use Pika.{Amqp, Delivery, Payload, json, malformed}

-- `_connection` and `_channel` are Optional: a flag says that one is set.
pub record RabbitMqClient (amqp : Amqp) : Type 0 where
  pub queue_name : Text
  pub dlq_name : Text
  pub dlx_name : Text
  pub extra_queue_names : List Text
  pub has_connection : Bool
  pub has_channel : Bool
  pub wire : amqp.Wire
  pub consuming : Bool
  pub rr : ℕ
  pub outstanding_deliveries : ℕ

abbrev pub Message : Type 0
Message = WorkUnit × ℕ × Text

-- `queue_name or default`: an empty name counts as none.
abbrev pub or_default : Option Text → Text → Text
or_default none d = d
or_default (some []) d = d
or_default (some (c ∷ s)) d = c ∷ s

abbrev pub error : Text → Exception
error message = record { kind = runtime_error; message = message }

abbrev pub not_connected : Exception
not_connected = error (codes "Not connected to RabbitMQ")

abbrev pub is_amqp : Kind → Bool
is_amqp amqp_connection = true
is_amqp _ = false

-- An except clause for AMQPConnectionError; any other exception goes on.
abbrev pub on_amqp_error : {S A : Type 0} → Exec S A → Exception → Exec S A
on_amqp_error handler e = if is_amqp e.kind then handler else throw e

module _ (amqp : Amqp) where
  open amqp use {Wire, is_open, is_closed}

  abbrev pub Client : Type 0
  Client = RabbitMqClient amqp

  abbrev pub on_wire : {A : Type 0} → Exec Wire A → Exec Client A
  on_wire m c = let (r, w) = m c.wire in (r, record c { wire = w })

  -- `self._channel is not None and not self._channel.is_closed`
  abbrev pub channel_live : Client → Bool
  channel_live c = c.has_channel && not (is_closed c.wire)

  unfoldable pub declare_work_queue : Text → Exec Client Unit
  declare_work_queue name = do
    c ← gets (λ c. c)
    if c.has_channel then pure tt else throw not_connected
    on_wire (amqp.queue_declare name (some (c.dlx_name, c.dlq_name)))

  unfoldable pub declare_extra : List Text → Exec Client Unit
  unfolding declare_work_queue
  declare_extra [] = pure tt
  declare_extra (q ∷ qs) = do
    c ← gets (λ c. c)
    if text_eq q [] || text_eq q c.queue_name then pure tt else declare_work_queue q
    declare_extra qs

  unfoldable pub setup_queues : Exec Client Unit
  unfolding declare_work_queue declare_extra
  setup_queues = do
    c ← gets (λ c. c)
    if c.has_channel then pure tt else throw not_connected
    on_wire (amqp.exchange_declare c.dlx_name)
    on_wire (amqp.queue_declare c.dlq_name none)
    on_wire (amqp.queue_bind c.dlq_name c.dlx_name c.dlq_name)
    declare_work_queue c.queue_name
    declare_extra c.extra_queue_names

  -- The body of the `try` in connect.
  unfoldable pub attempt : Exec Client Unit
  unfolding setup_queues
  attempt = do
    on_wire amqp.blocking_connection
    modify (λ c. record c { has_connection = true })
    on_wire amqp.channel
    modify (λ c. record c { has_channel = true })
    setup_queues

  -- `max_retries` attempts. With none at all the loop does not run, and nothing is raised.
  unfoldable pub connect : (max_retries : ℕ) → Exec Client Unit
  unfolding attempt
  connect zero = pure tt
  connect (suc zero) =
      try_except attempt (on_amqp_error (throw (error (codes "Failed to connect to RabbitMQ"))))
  connect (suc (suc n)) = try_except attempt (on_amqp_error (connect (suc n)))

  unfoldable pub close : Exec Client Unit
  close = do
    c ← gets (λ c. c)
    if c.has_connection && is_open c.wire then on_wire amqp.close else pure tt

  unfoldable pub stop_consuming : Exec Client Unit
  stop_consuming = modify (λ c. record c { consuming = false })

  unfoldable pub discard_connection : Exec Client Unit
  unfolding close
  discard_connection = do
    try_except close (λ _. pure tt)
    modify
        (λ c. record c { has_connection = false; has_channel = false; outstanding_deliveries = 0 })

  unfoldable pub ensure_channel : Exec Client Unit
  unfolding discard_connection
  ensure_channel = do
    c ← gets (λ c. c)
    if c.has_connection && is_open c.wire && channel_live c then pure tt else do
      if c.outstanding_deliveries == 0 then pure tt else throw not_connected
      discard_connection
      connect 2
      d ← gets (λ d. d)
      if channel_live d then pure tt else throw not_connected

  unfoldable pub publish : WorkUnit → Option Text → Exec Client Unit
  unfolding ensure_channel
  publish u queue_name = do
    ensure_channel
    c ← gets (λ c. c)
    on_wire (amqp.basic_publish [] (or_default queue_name c.queue_name) (to_dict u))

  unfoldable pub publish_to_dlq : (now : Text) → WorkUnit → (message : Text) → Exec Client Unit
  unfolding ensure_channel
  publish_to_dlq now u message = do
    ensure_channel
    c ← gets (λ c. c)
    on_wire (amqp.basic_publish c.dlx_name c.dlq_name (dead_letter u message now))

  -- `WorkUnit.from_json(body.decode("utf-8"))`, or `none` where that raises.
  unfoldable pub decode : (now : Text) → Payload → Option WorkUnit
  decode now malformed = none
  decode now (json body) = from_dict now body

  receive : (now : Text) → Text → Delivery → Exec Client (Option Message)
  unfolding decode
  receive now queue_name d = elim d.body [
    | none ↦ pure none
    | some payload ↦ elim (decode now payload) [
      | none ↦ on_wire (amqp.basic_nack d.delivery_tag false) >> pure none
      | some u ↦ do
        modify (λ c. record c { outstanding_deliveries = c.outstanding_deliveries + 1 })
        pure (some (u, d.delivery_tag, queue_name))
    ]
  ]

  unfoldable pub basic_get_one : (now : Text) → Text → Exec Client (Option Message)
  unfolding receive
  basic_get_one now queue_name = do
    c ← gets (λ c. c)
    if c.has_channel then pure tt else throw not_connected
    found ← on_wire (amqp.basic_get queue_name)
    elim found [ none ↦ pure none | some d ↦ receive now queue_name d ]

  -- The `for` over the strict tier.
  unfoldable pub poll_strict : (now : Text) → List Text → Exec Client (Option Message)
  poll_strict now [] = pure none
  poll_strict now (q ∷ qs) = do
    found ← basic_get_one now q
    elim found [ none ↦ poll_strict now qs | some m ↦ pure (some m) ]

  -- The `for offset` over the light queues, by the number of offsets left.
  unfoldable pub poll_light :
      (now : Text) → List Text → (left offset : ℕ) → Exec Client (Option Message)
  poll_light now qs zero offset = pure none
  poll_light now qs (suc left) offset = do
    c ← gets (λ c. c)
    let index = (c.rr + offset) % length qs
    elim (get_elem? qs index) [
      | none ↦ throw (error (codes "IndexError"))
      | some q ↦ do
        found ← basic_get_one now q
        elim found [
          | none ↦ poll_light now qs left (offset + 1)
          | some m ↦ modify (λ d. record d { rr = (index + 1) % length qs }) >> pure (some m)
        ]
    ]

  unfoldable pub poll_one :
      (now : Text) → (strict round_robin : List Text) → Exec Client (Option Message)
  poll_one now strict round_robin = do
    c ← gets (λ c. c)
    if channel_live c then pure tt else throw not_connected
    found ← poll_strict now strict
    elim found [ none ↦ poll_light now round_robin (length round_robin) 0 | some m ↦ pure (some m) ]

  unfoldable pub service_events : Exec Client Unit
  service_events = do
    c ← gets (λ c. c)
    if channel_live c then on_wire amqp.process_data_events else pure tt

  -- The subtraction stops at 0, as `max(0, n - 1)` does.
  unfoldable pub settle_delivery : Exec Client Unit
  settle_delivery = modify (λ c. record c { outstanding_deliveries = c.outstanding_deliveries - 1 })

  unfoldable pub ack : ℕ → Exec Client Unit
  unfolding settle_delivery
  ack delivery_tag = do
    settle_delivery
    c ← gets (λ c. c)
    if channel_live c then on_wire (amqp.basic_ack delivery_tag) else pure tt

  unfoldable pub nack : ℕ → (requeue : Bool) → Exec Client Unit
  unfolding settle_delivery
  nack delivery_tag requeue = do
    settle_delivery
    c ← gets (λ c. c)
    if channel_live c then on_wire (amqp.basic_nack delivery_tag requeue) else pure tt

  unfoldable pub get_queue_size : Option Text → Exec Client ℕ
  unfolding ensure_channel
  get_queue_size queue_name = do
    ensure_channel
    c ← gets (λ c. c)
    on_wire (amqp.message_count (or_default queue_name c.queue_name))
