-- ===== src/Sources/Ecmwf.antt =====
-- src/data_sources/ecmwf_producer_source.py: EcmwfProducerDataSource over the store's client. Times are
-- microseconds from a midnight on, and later than the look-back; isoformat and strftime are parameters,
-- and so is the answer of the injected repository.
pub mod Offers
use tiles_processor.Base.{
  ℕ, zero, suc, ◌+◌, ◌-◌, ◌*◌, ◌%◌, Bool, true, false, not, List, [], ◌∷◌, ◌++◌, Option, none, some,
  Text, codes, member, contains, ltb, leb, if◌then◌else◌, length, Exec, Exception, Result, return,
  raise, runtime_error, pure, throw, lift, branch, ◌>>=◌, ◌>>◌,
}
use tiles_processor.Producer.Discovery.{ImageInfo, DiscoveryConfig}
use tiles_processor.Store.Client.{S3Client, head_exists}
use tiles_processor.Store.Client.Aws.{Gateway}
use tiles_processor.Sources.Gfs.{hour, range}

abbrev pub half_day : ℕ
half_day = 12 * hour

-- The loop over the hours back.
unfoldable pub walk_back : (now : ℕ) (hours : List ℕ) (candidates : List ℕ) → List ℕ
unfolding contains
walk_back now [] candidates = candidates
walk_back now (hours_back ∷ hours) candidates =
    let t = now - hours_back * hour in
    let base = t - t % half_day in
    let found = if contains base candidates then candidates else candidates ++ base ∷ [] in
    let more = walk_back now hours found in if leb 3 (length found) then found else more

-- `range(0, MAX_LOOKBACK_HOURS, 12)`
unfoldable pub candidate_forecast_times : (now : ℕ) → List ℕ
unfolding walk_back range
candidate_forecast_times now = walk_back now (range 0 12 4) []

pub record EcmwfSource : Type 0 where
  pub grib_prefix : Text
  pub source_id : Text
  pub processor_id : Text
  pub has_s3_client : Bool
  pub format_run_timestamp : (time : ℕ) → Text
  pub iso_format : (time : ℕ) → Text

abbrev pub not_built : EcmwfSource → Exception
not_built src = record {
  kind = runtime_error;
  message = src.source_id ++ codes " requires an S3 client";
}

module _ (g : Gateway) (src : EcmwfSource) where
  abbrev pub grib_key : (time : ℕ) → Text
  grib_key time = src.grib_prefix ++ b'/' ∷ (src.format_run_timestamp time ++ codes ".grib")

  unfoldable pub image_of : (time : ℕ) → ImageInfo
  image_of time = record {
    image_id = src.format_run_timestamp time;
    source_uri = src.iso_format time;
    data_source_id = src.source_id;
    processor_id = src.processor_id;
    output_prefix = src.grib_prefix;
  }

  abbrev pub require_s3_client : Exec (S3Client g) Unit
  require_s3_client = branch src.has_s3_client (pure tt) (throw (not_built src))

  unfoldable pub to_image_info_if_missing :
      (forecast_time latest : ℕ) → DiscoveryConfig → Exec (S3Client g) (Option ImageInfo)
  to_image_info_if_missing forecast_time latest config =
      branch (ltb latest forecast_time) (pure none) (do
        require_s3_client
        cached ← head_exists g (grib_key forecast_time)
        pure (
            if cached
            then none
            else if member (src.format_run_timestamp forecast_time) config.in_progress_images
            then none
            else some (image_of forecast_time)))

  abbrev pub with_image : Option ImageInfo → List ImageInfo → List ImageInfo
  with_image none images = images
  with_image (some i) images = i ∷ images

  unfoldable pub images_of :
      (latest : ℕ) → DiscoveryConfig → (candidates : List ℕ) → Exec (S3Client g) (List ImageInfo)
  images_of latest config [] = pure []
  images_of latest config (forecast_time ∷ candidates) = do
    image ← to_image_info_if_missing forecast_time latest config
    more ← images_of latest config candidates
    pure (with_image image more)

  -- `latest_available_run` is what the repository answers, or what it raises.
  unfoldable pub discover_images :
      (latest_available_run : Result (Option ℕ))
      → DiscoveryConfig
      → Exec (S3Client g) (List ImageInfo)
  discover_images latest_available_run config = do
    latest ← lift latest_available_run
    elim latest [
      | none ↦ pure []
      | some run ↦ images_of run config (candidate_forecast_times config.current_time)
    ]
