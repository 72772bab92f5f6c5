-- ===== src/Examples/Steps.antt =====
-- A forecast step and a forecast that are fanned out, over a bucket that has nothing yet.
use tiles_processor.Base.{refl, true, [], ◌∷◌, some, Text, codes, return}
use tiles_processor.Rabbit.Log.{logged}
use tiles_processor.Store.Client.Aws.{Gateway, HeadFailure}
use tiles_processor.Worker.Gribs.{Clients}
use tiles_processor.Worker.Gribs.Gfs.{GfsSetup, GfsProductConfig, process_gfs}
use tiles_processor.Worker.Gribs.Ecmwf.{EcmwfSetup, process_ecmwf}
use tiles_processor.Worker.Gribs.FanOut.{process_gfs-Outcome}
use tiles_processor.Worker.Gribs.FanOut
use tiles_processor.Worker.Gribs.Periods.{process_ecmwf-Outcome}
use tiles_processor.Worker.Gribs.Periods
use tiles_processor.Examples.Data.{broker, client, unit, refused}
use tiles_processor.Examples.Stores.{bucket, start, content_type}

abbrev empty_bucket : Gateway
empty_bucket = record bucket {
  head_object = λ k n. (some (HeadFailure.client_error (codes "404") refused), n);
}

abbrev mslp : GfsProductConfig
mslp = record {
  product_id = codes "mslp";
  band_id = codes "gfs_mslp";
  processor_id = codes "gfs_mslp";
  cog_prefix = codes "cog/gfs/mslp";
  tiles_prefix = codes "tiles/gfs/mslp";
}

abbrev gfs : GfsSetup
gfs = record {
  products = mslp ∷ [];
  bounds = [];
  read_cycle = λ t. return (codes "20260217T0000Z", codes "2026-02-17");
  read_hours = λ t. return 3;
  write_source = λ k m p. k;
  stamp = λ p. (codes "id", codes "now");
}

abbrev ecmwf : EcmwfSetup
ecmwf = record {
  grib_prefix = codes "grib/tp";
  cog_prefix = codes "cog/tp";
  tiles_prefix = codes "tiles/tp";
  period_data_source_id = codes "tp_period";
  processor_id = codes "tp";
  band_id = codes "tp";
  has_s3_client = true;
  bounds = [];
  from_iso_format = λ t. return 0;
  fmt_ts = λ t. codes "ts";
  write_source = λ k f e h. k;
  stamp = λ h. (codes "id", codes "now");
}

abbrev clients : Clients empty_bucket (logged broker)
clients = record {
  store = record { world = 0; disk = start.disk };
  mq = client (logged broker) ((0, true), []) 0;
}

abbrev grib : Text
grib = codes "/scratch/out.tif"

process_gfs-Outcome_example :
    let out = process_gfs empty_bucket (logged broker) content_type gfs grib unit clients in
    FanOut.Outcome empty_bucket broker content_type gfs grib unit clients out.0 out.1
process_gfs-Outcome_example =
    process_gfs-Outcome empty_bucket broker content_type gfs (λ e k b w. refl)
      (λ e k b w. (refl, refl)) grib unit clients refl

process_ecmwf-Outcome_example :
    let out = process_ecmwf empty_bucket (logged broker) content_type ecmwf grib unit clients in
    Periods.Outcome empty_bucket broker content_type ecmwf grib unit clients out.0 out.1
process_ecmwf-Outcome_example =
    process_ecmwf-Outcome empty_bucket broker content_type ecmwf (λ e k b w. refl)
      (λ e k b w. (refl, refl)) grib unit clients refl
