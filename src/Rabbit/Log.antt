-- ===== src/Rabbit/Log.antt =====
-- Any AMQP library and broker, with a log of what reaches the wire: publishes and settlements.
use tiles_processor.Base.{ℕ, Bool, List, [], ◌∷◌, ◌++◌, Text, Exec}
use tiles_processor.WorkUnit.Body.{Body}
use tiles_processor.Rabbit.Pika.{Amqp}

pub data Call : Type 0 where
  published : (exchange routing_key : Text) → Body → Call
  acked : ℕ → Call
  nacked : ℕ → (requeue : Bool) → Call

abbrev pub plain : {W A : Type 0} → Exec W A → Exec (W × List Call) A
plain m (w, log) = let (r, w') = m w in (r, (w', log))

-- A call is logged whether it raises or not.
abbrev pub noted : {W A : Type 0} → Call → Exec W A → Exec (W × List Call) A
noted call m (w, log) = let (r, w') = m w in (r, (w', log ++ call ∷ []))

abbrev pub logged : Amqp → Amqp
logged a = record {
  Wire = a.Wire × List Call;
  is_open = λ w. a.is_open w.0;
  is_closed = λ w. a.is_closed w.0;
  blocking_connection = plain a.blocking_connection;
  channel = plain a.channel;
  exchange_declare = λ e. plain (a.exchange_declare e);
  queue_declare = λ q d. plain (a.queue_declare q d);
  queue_bind = λ q e k. plain (a.queue_bind q e k);
  close = plain a.close;
  basic_get = λ q. plain (a.basic_get q);
  basic_publish = λ e k b. noted (published e k b) (a.basic_publish e k b);
  basic_ack = λ t. noted (acked t) (a.basic_ack t);
  basic_nack = λ t r. noted (nacked t r) (a.basic_nack t r);
  process_data_events = plain a.process_data_events;
  message_count = λ q. plain (a.message_count q);
}
