-- ===== src/Rabbit/Pika.antt =====
-- What rabbitmq_client.py calls of pika and of the broker behind it.
use tiles_processor.Base.{ℕ, Bool, Option, Text, Exec}
use tiles_processor.WorkUnit.Body.{Body}

-- The bytes of a message: a JSON object with the program's keys, or anything else.
pub data Payload : Type 0 where
  json : Body → Payload
  malformed : Payload

pub record Delivery : Type 0 where
  pub delivery_tag : ℕ
  pub body : Option Payload

pub record Amqp : Type 1 where
  pub Wire : Type 0
  pub is_open : Wire → Bool
  pub is_closed : Wire → Bool
  pub blocking_connection : Exec Wire Unit
  pub channel : Exec Wire Unit
  pub exchange_declare : (exchange : Text) → Exec Wire Unit
  -- The queue, and the exchange and key for its dead letters.
  pub queue_declare : (queue : Text) → Option (Text × Text) → Exec Wire Unit
  pub queue_bind : (queue exchange routing_key : Text) → Exec Wire Unit
  pub close : Exec Wire Unit
  pub basic_get : (queue : Text) → Exec Wire (Option Delivery)
  pub basic_publish : (exchange routing_key : Text) → Body → Exec Wire Unit
  pub basic_ack : (delivery_tag : ℕ) → Exec Wire Unit
  pub basic_nack : (delivery_tag : ℕ) → (requeue : Bool) → Exec Wire Unit
  pub process_data_events : Exec Wire Unit
  -- The passive declaration that reads a queue's depth.
  pub message_count : (queue : Text) → Exec Wire ℕ
