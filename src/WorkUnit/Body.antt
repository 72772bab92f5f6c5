-- ===== src/WorkUnit/Body.antt =====
-- src/models/work_unit.py, to_dict and from_dict: the JSON object of a message, by its keys. An
-- absent key is `none`; the keys `error` and `failed_at` are those that a dead letter adds.
use tiles_processor.Base.{ℕ, Option, none, some, Text}
use tiles_processor.WorkUnit.{WorkUnit, Bounds}

pub data Key : Type 0 where
  work_unit_id image_id data_source_id source_uri output_prefix : Key
  bounds processor_id band_id created_at retry_count max_retries : Key
  error failed_at : Key

-- What the program stores under each key.
abbrev pub Field : Key → Type 0
Field bounds = Bounds
Field retry_count = ℕ
Field max_retries = ℕ
Field _ = Text

abbrev pub Body : Type 0
Body = (k : Key) → Option (Field k)

unfoldable pub to_dict : WorkUnit → Body
to_dict u work_unit_id = some u.work_unit_id
to_dict u image_id = some u.image_id
to_dict u data_source_id = some u.data_source_id
to_dict u source_uri = some u.source_uri
to_dict u output_prefix = some u.output_prefix
to_dict u bounds = some u.bounds
to_dict u processor_id = some u.processor_id
to_dict u band_id = some u.band_id
to_dict u created_at = some u.created_at
to_dict u retry_count = some u.retry_count
to_dict u max_retries = some u.max_retries
to_dict u error = none
to_dict u failed_at = none

infixl 5 ◌>>=◌
abbrev ◌>>=◌ : {A B : Type 0} → Option A → (A → Option B) → Option B
none >>= f = none
some a >>= f = f a

-- `data.get(key, default)`
abbrev get_or : {A : Type 0} → Option A → A → Option A
get_or none d = some d
get_or (some a) d = some a

-- A missing required key is a KeyError, which is `none`. `now` is the clock's answer.
unfoldable pub from_dict : Text → Body → Option WorkUnit
from_dict now d = do
  v_id ← d work_unit_id
  v_image ← d image_id
  v_source ← d data_source_id
  v_uri ← d source_uri
  v_prefix ← d output_prefix
  v_bounds ← d bounds
  v_processor ← d processor_id
  v_band ← d band_id
  v_created ← get_or (d created_at) now
  v_count ← get_or (d retry_count) 0
  v_max ← get_or (d max_retries) 3
  some (record {
    work_unit_id = v_id;
    image_id = v_image;
    data_source_id = v_source;
    source_uri = v_uri;
    output_prefix = v_prefix;
    bounds = v_bounds;
    processor_id = v_processor;
    band_id = v_band;
    created_at = v_created;
    retry_count = v_count;
    max_retries = v_max;
  })

-- The message that publish_to_dlq builds: the unit's object with two more keys.
unfoldable pub dead_letter : WorkUnit → (message now : Text) → Body
unfolding to_dict
dead_letter u message now error = some message
dead_letter u message now failed_at = some now
dead_letter u message now k = to_dict u k
