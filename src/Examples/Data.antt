-- ===== src/Examples/Data.antt =====
-- A unit, brokers held in memory, and the tables and clients that the examples start from.
use tiles_processor.Base.{
  ℕ, ◌+◌, Bool, true, false, not, [], ◌∷◌, some, Text, codes, Exception, return, raise,
  amqp_connection,
}
use tiles_processor.WorkUnit.{WorkUnit}
use tiles_processor.WorkUnit.Body.{to_dict}
use tiles_processor.Tracker.{Row, ProgressTracker, in_progress, processing}
use tiles_processor.Rabbit.{RabbitMqClient}
use tiles_processor.Rabbit.Pika.{Amqp, json}

abbrev pub image : Text
image = codes "scan.nc"

abbrev pub band : Text
band = codes "C13"

abbrev pub unit : WorkUnit
unit = record {
  work_unit_id = codes "id";
  image_id = image;
  data_source_id = codes "wrf_arg4k_colmax";
  source_uri = codes "s3://scan";
  output_prefix = codes "tiles";
  bounds = [];
  processor_id = codes "band13";
  band_id = band;
  created_at = codes "2026";
  retry_count = 0;
  max_retries = 3;
}

abbrev pub queued : Row
queued = record {
  image_id = image;
  band_id = band;
  status = in_progress;
  created_at = 5;
  updated_at = 5;
}

abbrev pub busy : Row
busy = record {
  image_id = image;
  band_id = band;
  status = processing;
  created_at = 5;
  updated_at = 7;
}

abbrev pub table : Row → ProgressTracker
table r = record { ttl = 10; rows = r ∷ [] }

-- The number of fetches, and whether the connection is up. Every queue holds the one unit for ever.
abbrev pub broker : Amqp
broker = record {
  Wire = ℕ × Bool;
  is_open = λ w. w.1;
  is_closed = λ w. not w.1;
  blocking_connection = λ w. (return tt, (w.0, true));
  channel = λ w. (return tt, w);
  exchange_declare = λ e w. (return tt, w);
  queue_declare = λ q d w. (return tt, w);
  queue_bind = λ q e k w. (return tt, w);
  close = λ w. (return tt, (w.0, false));
  basic_get = λ q w. (
    return (some (record { delivery_tag = w.0; body = some (json (to_dict unit)) })),
    (w.0 + 1, w.1),
  );
  basic_publish = λ e k b w. (return tt, w);
  basic_ack = λ t w. (return tt, w);
  basic_nack = λ t r w. (return tt, w);
  process_data_events = λ w. (return tt, w);
  message_count = λ q w. (return 4, w);
}

abbrev pub refused : Exception
refused = record { kind = amqp_connection; message = codes "refused" }

-- A broker that takes no connection and no message.
abbrev pub refusing : Amqp
refusing = record broker {
  blocking_connection = λ w. (raise refused, w);
  basic_publish = λ e k b w. (raise refused, w);
}

-- A broker whose connection drops at each ack.
abbrev pub dropping : Amqp
dropping = record broker { basic_ack = λ t w. (raise refused, (w.0, false)) }

abbrev pub client : (amqp : Amqp) → amqp.Wire → (outstanding : ℕ) → RabbitMqClient amqp
client amqp w outstanding = record {
  queue_name = codes "work";
  dlq_name = codes "dead";
  dlx_name = codes "dlx";
  extra_queue_names = [];
  has_connection = true;
  has_channel = true;
  wire = w;
  consuming = true;
  rr = 1;
  outstanding_deliveries = outstanding;
}
