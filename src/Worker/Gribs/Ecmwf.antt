-- ===== src/Worker/Gribs/Ecmwf.antt =====
-- src/worker/ecmwf_grib_downloader.py: EcmwfGribDownloader. JSON and dates are parameters, and a date is
-- a number of microseconds; `stamp` gives the id and the time of the unit for an hour.
use tiles_processor.Base.{
  ℕ, ◌+◌, ◌*◌, Bool, not, List, [], ◌∷◌, ◌++◌, map, keep, Text, codes, member, if◌then◌else◌, Exec,
  Exception, Result, runtime_error, pure, throw, lift, branch, try_except, ◌>>=◌, ◌>>◌,
}
use tiles_processor.WorkUnit.{WorkUnit, Bounds, create}
use tiles_processor.Rabbit.Pika.{Amqp}
use tiles_processor.Store.Client.{S3Client}
use tiles_processor.Store.Client.Aws.{Gateway}
use tiles_processor.Sources.Gfs.{range, hour}
use tiles_processor.Worker.Gribs.{
  slash, Clients, on_store, upload_grib_if_missing, heads, publish_all,
}

-- What an EcmwfProductConfig has for a downloader, and the downloader's own fields.
pub record EcmwfSetup : Type 0 where
  pub grib_prefix : Text
  pub cog_prefix : Text
  pub tiles_prefix : Text
  pub period_data_source_id : Text
  pub processor_id : Text
  pub band_id : Text
  pub has_s3_client : Bool
  pub bounds : Bounds
  pub from_iso_format : Text → Result ℕ
  pub fmt_ts : (time : ℕ) → Text
  pub write_source : (grib_key : Text) → (forecast_time end_time hour_end : ℕ) → Text
  pub stamp : (hour_end : ℕ) → Text × Text

-- 6, 9, …, 144.
unfoldable pub end_hours : List ℕ
unfolding range
end_hours = range 6 3 47

abbrev pub no_s3_client : Exception
no_s3_client = record {
  kind = runtime_error;
  message = codes "EcmwfGribDownloader requires an S3 client";
}

-- `{key for key, exists in zip(keys, results) if exists}`
unfoldable pub marked : List Text → List Bool → List Text
marked [] results = []
marked (key ∷ keys) [] = []
marked (key ∷ keys) (exists ∷ results) =
    let rest = marked keys results in if exists then key ∷ rest else rest

module _ (g : Gateway) (amqp : Amqp) (content_type : Text → Text) (cfg : EcmwfSetup) where
  unfoldable pub cog_key : (forecast_ts : Text) (forecast_time hour_end : ℕ) → Text
  cog_key forecast_ts forecast_time hour_end =
      slash cfg.cog_prefix
        (slash forecast_ts (cfg.fmt_ts (forecast_time + hour_end * hour) ++ codes ".tif"))

  unfoldable pub list_existing_cog_keys :
      (forecast_ts : Text) (forecast_time : ℕ) → Exec (S3Client g) (List Text)
  unfolding marked cog_key
  list_existing_cog_keys forecast_ts forecast_time =
      try_except
        (do
          results ← heads g amqp content_type (map (cog_key forecast_ts forecast_time) end_hours)
          pure (marked (map (cog_key forecast_ts forecast_time) end_hours) results))
        (λ e. pure [])

  unfoldable pub period_unit : (forecast_ts grib_key : Text) (forecast_time hour_end : ℕ) → WorkUnit
  unfolding create
  period_unit forecast_ts grib_key forecast_time hour_end =
      let end_time = forecast_time + hour_end * hour in
      let (uuid, now) = cfg.stamp hour_end in
      create uuid now (cfg.fmt_ts end_time)
        (cfg.write_source grib_key forecast_time end_time hour_end) cfg.period_data_source_id
        cfg.processor_id (slash cfg.tiles_prefix forecast_ts) cfg.bounds cfg.band_id

  abbrev pub missing_hours :
      (forecast_ts : Text) (forecast_time : ℕ) (existing : List Text) → List ℕ
  missing_hours forecast_ts forecast_time existing =
      keep (λ h. not (member (cog_key forecast_ts forecast_time h) existing)) end_hours

  unfoldable pub process_ecmwf : (file_path : Text) → WorkUnit → Exec (Clients g amqp) Unit
  process_ecmwf file_path u = do
    branch cfg.has_s3_client (pure tt) (throw no_s3_client)
    forecast_time ← lift (cfg.from_iso_format u.source_uri)
    let grib_key = slash cfg.grib_prefix (u.image_id ++ codes ".grib")
    on_store g amqp content_type (upload_grib_if_missing g amqp content_type file_path grib_key)
    existing ← on_store g amqp content_type (list_existing_cog_keys u.image_id forecast_time)
    publish_all g amqp content_type (
        map (period_unit u.image_id grib_key forecast_time)
          (missing_hours u.image_id forecast_time existing))
