-- ===== src/WorkUnit.antt =====
-- src/models/work_unit.py: the unit of work that a queue message carries, and its retries.
-- A bound is kept as the decimal that JSON writes for it; no code here computes with it.
pub mod Body
pub mod Retry
use tiles_processor.Base.{ℕ, ◌+◌, List, Bool, ltb, Text}

abbrev pub Bounds : Type 0
Bounds = List (Text × Text)

pub record WorkUnit : Type 0 where
  pub work_unit_id : Text
  pub image_id : Text
  pub data_source_id : Text
  pub source_uri : Text
  pub output_prefix : Text
  pub bounds : Bounds
  pub processor_id : Text
  pub band_id : Text
  pub created_at : Text
  pub retry_count : ℕ
  pub max_retries : ℕ

unfoldable pub can_retry : WorkUnit → Bool
can_retry u = ltb u.retry_count u.max_retries

unfoldable pub create_retry : WorkUnit → WorkUnit
create_retry u = record {
  work_unit_id = u.work_unit_id;
  image_id = u.image_id;
  data_source_id = u.data_source_id;
  source_uri = u.source_uri;
  output_prefix = u.output_prefix;
  bounds = u.bounds;
  processor_id = u.processor_id;
  band_id = u.band_id;
  created_at = u.created_at;
  retry_count = u.retry_count + 1;
  max_retries = u.max_retries;
}

-- `uuid` and `now` are what uuid4 and the clock answer.
unfoldable pub create :
    (uuid now : Text) (image_id source_uri data_source_id processor_id output_prefix : Text)
    → Bounds
    → (band_id : Text) → WorkUnit
create uuid now image_id source_uri data_source_id processor_id output_prefix bounds band_id =
    record {
      work_unit_id = uuid;
      image_id = image_id;
      data_source_id = data_source_id;
      source_uri = source_uri;
      output_prefix = output_prefix;
      bounds = bounds;
      processor_id = processor_id;
      band_id = band_id;
      created_at = now;
      retry_count = 0;
      max_retries = 3;
    }
