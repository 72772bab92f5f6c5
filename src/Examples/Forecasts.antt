-- ===== src/Examples/Forecasts.antt =====
-- An ECMWF discovery at noon of the fourth day, over a bucket that has nothing yet.
use tiles_processor.Base.{◌*◌, ◌+◌, true, [], ◌∷◌, some, codes, arith, return}
use tiles_processor.Producer.Discovery.{DiscoveryConfig}
use tiles_processor.Store.Client.{S3Client}
use tiles_processor.Store.Client.Aws.{Gateway, HeadFailure}
use tiles_processor.Sources.Gfs.{hour}
use tiles_processor.Sources.Ecmwf.{EcmwfSource, discover_images}
use tiles_processor.Sources.Ecmwf.Offers.{Outcome, discover_images-Outcome}
use tiles_processor.Examples.Data.{refused}
use tiles_processor.Examples.Stores.{bucket, start}

abbrev new_bucket : Gateway
new_bucket = record bucket {
  head_object = λ k n. (some (HeadFailure.client_error (codes "404") refused), n);
}

abbrev tp : EcmwfSource
tp = record {
  grib_prefix = codes "grib/tp";
  source_id = codes "ecmwf_tp";
  processor_id = codes "ecmwf_grib";
  has_s3_client = true;
  format_run_timestamp = λ t. t ∷ [];
  iso_format = λ t. t ∷ [];
}

abbrev tick : DiscoveryConfig
tick = record {
  current_time = 84 * hour + 5;
  existing_tilesets = [];
  in_progress_images = (72 * hour ∷ []) ∷ [];
  bounds = [];
}

abbrev no_gribs : S3Client new_bucket
no_gribs = record { world = 0; disk = start.disk }

-- Of 84, 72 and 60 hours the newest is not published and the second is in progress.
discover_images-Outcome_example :
    Outcome new_bucket tp
      (return (some (78 * hour)))
      tick
      (discover_images new_bucket tp (return (some (78 * hour))) tick no_gribs).0
discover_images-Outcome_example =
    discover_images-Outcome new_bucket tp (return (some (78 * hour))) tick no_gribs (omega arith)
