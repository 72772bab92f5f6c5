-- ===== src/Worker/Gribs/Gfs.antt =====
-- src/worker/gfs_grib_downloader.py: GfsGribDownloader. JSON and dates are parameters; `stamp` gives
-- the id and the time of the unit for a product.
use tiles_processor.Base.{
  ℕ, Bool, List, [], ◌∷◌, ◌++◌, map, Text, codes, if◌then◌else◌, Exec, Result, return, bind, pure,
  lift, try_except, ◌>>=◌, ◌>>◌,
}
use tiles_processor.WorkUnit.{WorkUnit, Bounds, create}
use tiles_processor.Rabbit.Pika.{Amqp}
use tiles_processor.Store.Client.{S3Client}
use tiles_processor.Store.Client.Aws.{Gateway}
use tiles_processor.Worker.Gribs.{
  slash, Clients, on_store, upload_grib_if_missing, heads, publish_all,
}

-- What a GfsProductConfig has for a downloader.
pub record GfsProductConfig : Type 0 where
  pub product_id : Text
  pub band_id : Text
  pub processor_id : Text
  pub cog_prefix : Text
  pub tiles_prefix : Text

unfoldable pub primary_cog_key : GfsProductConfig → (cycle_ts image_id : Text) → Text
primary_cog_key product cycle_ts image_id =
    slash product.cog_prefix (slash cycle_ts (image_id ++ codes ".tif"))

-- The cycle as a text of the two forms, and the step.
pub record StepMeta : Type 0 where
  pub cycle_ts : Text
  pub cycle_iso : Text
  pub step_hours : ℕ

-- `[product for product, done in zip(products, existing) if not done]`
unfoldable pub not_done : {T : Type 0} → List T → List Bool → List T
not_done [] existing = []
not_done (t ∷ ts) [] = []
not_done (t ∷ ts) (done ∷ existing) =
    let rest = not_done ts existing in if done then rest else t ∷ rest

pub record GfsSetup : Type 0 where
  pub products : List GfsProductConfig
  pub bounds : Bounds
  -- `_fmt_cycle` and `isoformat` of the cycle, and `step_hours`, of the object in `source_uri`.
  pub read_cycle : (source_uri : Text) → Result (Text × Text)
  pub read_hours : (source_uri : Text) → Result ℕ
  pub write_source : (grib_key : Text) → StepMeta → (product_id : Text) → Text
  pub stamp : (product_id : Text) → Text × Text

abbrev pub gfs_grib_prefix : Text
gfs_grib_prefix = codes "grib/gfs"

abbrev pub grib_key_of : (cycle_ts image_id : Text) → Text
grib_key_of cycle_ts image_id = slash gfs_grib_prefix (slash cycle_ts (image_id ++ codes ".grib2"))

module _ (g : Gateway) (amqp : Amqp) (content_type : Text → Text) (cfg : GfsSetup) where
  unfoldable pub pending_products :
      (cycle_ts image_id : Text) → Exec (S3Client g) (List GfsProductConfig)
  unfolding not_done primary_cog_key
  pending_products cycle_ts image_id =
      try_except
        (do
          existing ←
              heads g amqp content_type
                (map (λ p. primary_cog_key p cycle_ts image_id) cfg.products)
          pure (not_done cfg.products existing))
        (λ e. pure cfg.products)

  unfoldable pub build_work_unit :
      (step_unit : WorkUnit) → StepMeta → (grib_key : Text) → GfsProductConfig → WorkUnit
  unfolding create
  build_work_unit step_unit meta grib_key product =
      let (uuid, now) = cfg.stamp product.product_id in
      create uuid now step_unit.image_id (cfg.write_source grib_key meta product.product_id)
        (codes "gfs_step") product.processor_id (slash product.tiles_prefix meta.cycle_ts)
        cfg.bounds product.band_id

  abbrev pub meta_of : (cycle : Text × Text) (step_hours : ℕ) → StepMeta
  meta_of cycle step_hours = record {
    cycle_ts = cycle.0;
    cycle_iso = cycle.1;
    step_hours = step_hours;
  }

  -- The step is read again for each unit, from the same text: it can be read for all units or for
  -- none, so no unit is published before one of them cannot be built.
  unfoldable pub build_work_units :
      (step_unit : WorkUnit)
      → (cycle : Text × Text) → (grib_key : Text) → (pending : List GfsProductConfig)
      → Result (List WorkUnit)
  unfolding build_work_unit
  build_work_units step_unit cycle grib_key [] = return []
  build_work_units step_unit cycle grib_key (product ∷ pending) =
      bind (cfg.read_hours step_unit.source_uri) (λ step_hours.
        bind (build_work_units step_unit cycle grib_key pending) (λ units.
          return (build_work_unit step_unit (meta_of cycle step_hours) grib_key product ∷ units)))

  unfoldable pub process_gfs : (file_path : Text) → WorkUnit → Exec (Clients g amqp) Unit
  process_gfs file_path u = do
    cycle ← lift (cfg.read_cycle u.source_uri)
    let grib_key = grib_key_of cycle.0 u.image_id
    on_store g amqp content_type (upload_grib_if_missing g amqp content_type file_path grib_key)
    pending ← on_store g amqp content_type (pending_products cycle.0 u.image_id)
    units ← lift (build_work_units u cycle grib_key pending)
    publish_all g amqp content_type units
