-- ===== src/Grib/Backends.antt =====
-- src/data_sources/gfs_repository.py and gfs_fetcher.py: where the GRIB of one forecast step comes from. A
-- cycle is the number of its hour; strftime, the formats of numbers, urlencode, with_suffix and the answers of requests
-- are parameters. A copy raises only where the source is gone.
pub mod Ended
pub mod Bucket
pub mod Contract
use tiles_processor.Base.{
  ℕ, zero, suc, ◌+◌, ◌*◌, ◌%◌, Bool, true, false, not, ◌||◌, List, [], ◌∷◌, ◌++◌, map, Option, none,
  some, Text, codes, text_eq, starts_with, lower, drop, leb, ◌==◌, if◌then◌else◌, ℤ, pos, negsuc,
  ◌+ℤ◌, Exec, Exception, Kind, Result, return, raise, pure, throw, lift, gets, branch, try_except,
  ◌>>=◌, ◌>>◌, forecast_not_available, transient_download, invalid_grib_response, file_not_found,
  value_error,
}
use tiles_processor.Settings.Endpoints.{is_slash, drop_while, strip_of, partition, s3_uri_scheme}
use tiles_processor.Sources.Lister.Template.{join_s3_prefix}
use tiles_processor.Store.Client.{
  Client, S3Client, Disk, on_world, head_exists, download_to_file, write_file, whole,
}
use tiles_processor.Store.Client.Aws.{Gateway, Stream}
use tiles_processor.Grib.{grib_error, opened, validate_gfs_grib}

-- src/data_sources/s3_repository_utils.py
abbrev pub key_or_bucket : Text × Text → Text
key_or_bucket (bucket, []) = bucket
key_or_bucket (bucket, c ∷ key) = c ∷ key

unfoldable pub strip_s3_scheme : (uri expected_bucket : Text) → Result Text
unfolding partition
strip_s3_scheme uri expected_bucket =
    if not (starts_with (lower uri) s3_uri_scheme)
    then return uri
    else (let found = partition (drop 5 uri) in
        if text_eq found.0 expected_bucket
        then return (key_or_bucket found)
        else raise (grib_error value_error))

pub record Formats : Type 0 where
  pub fmt_cycle : (cycle : ℕ) → Text
  pub fmt_day : (cycle : ℕ) → Text
  pub format_02d : ℕ → Text
  pub format_03d : ℕ → Text
  pub format_g : ℤ → Text
  pub urlencode : List (Text × Text) → Text
  pub with_suffix : (path suffix : Text) → Text

-- The box of the project, in microdegrees.
pub record Bounds : Type 0 where
  pub minx : ℤ
  pub maxx : ℤ
  pub miny : ℤ
  pub maxy : ℤ

abbrev pub grib_suffix : Text
grib_suffix = codes ".grib2"

-- requests.get: no answer at all, or a status with the body as it is read.
pub data Answer : Type 0 where
  no_answer : Answer
  answer : (status : ℕ) → Stream → Answer

module _ (f : Formats) where
  unfoldable pub step_filename : (cycle step_hours : ℕ) → Text
  step_filename cycle step_hours =
      f.fmt_cycle cycle ++ codes "_f" ++ f.format_03d step_hours ++ grib_suffix

  unfoldable pub step_relative_path : (cycle step_hours : ℕ) → Text
  unfolding step_filename
  step_relative_path cycle step_hours = f.fmt_cycle cycle ++ b'/' ∷ step_filename cycle step_hours

  unfoldable pub fmt_lon : ℤ → Text
  fmt_lon (pos lon) = f.format_g (pos lon)
  fmt_lon (negsuc lon) = f.format_g (pos 360000000 +ℤ negsuc lon)

  unfoldable pub bbox_params : Bounds → List (Text × Text)
  unfolding fmt_lon
  bbox_params b =
      (codes "leftlon", fmt_lon b.minx)
      ∷ (codes "rightlon", fmt_lon b.maxx)
      ∷ (codes "toplat", f.format_g b.maxy)
      ∷ (codes "bottomlat", f.format_g b.miny)
      ∷ []

  abbrev pub levels : List Text
  levels = codes "mean_sea_level" ∷ codes "1000_mb" ∷ codes "500_mb" ∷ codes "250_mb" ∷ []

  abbrev pub variables : List Text
  variables = codes "HGT" ∷ codes "MSLET" ∷ codes "TMP" ∷ codes "UGRD" ∷ codes "VGRD" ∷ []

  unfoldable pub build_url : (endpoint : Text) → Bounds → (cycle step_hours : ℕ) → Text
  unfolding bbox_params
  build_url endpoint b cycle step_hours =
      let file =
        codes "gfs.t"
        ++ f.format_02d (cycle % 24)
        ++ codes "z.pgrb2.0p25.f"
        ++ f.format_03d step_hours in
      let dir =
        codes "/gfs." ++ f.fmt_day cycle ++ b'/' ∷ f.format_02d (cycle % 24) ++ codes "/atmos" in
      let params =
        (codes "file", file)
        ∷ (map (λ level. (codes "lev_" ++ level, codes "on")) levels
            ++ map (λ var. (codes "var_" ++ var, codes "on")) variables
            ++ (codes "subregion", []) ∷ bbox_params b
            ++ (codes "dir", dir) ∷ []) in
      endpoint ++ b'?' ∷ f.urlencode params

-- `none` for 200.
unfoldable pub status_failure : (status : ℕ) → Option Kind
status_failure status =
    if status == 200
    then none
    else if status == 403 || status == 404
    then some forecast_not_available
    else if leb 500 status
    then some transient_download
    else some invalid_grib_response

abbrev pub is_file : Option Text → Bool
is_file none = false
is_file (some bytes) = true

module _ (f : Formats) (g : Gateway) where
  abbrev pub on_disk : {A : Type 0} → Exec Disk A → Exec (Client g) A
  on_disk m c = let (r, d) = m c.disk in (r, record c { disk = d })

  abbrev pub exists : (path : Text) → Client g → Bool
  exists path c = is_file (c.disk path)

  abbrev pub write_copy : (target : Text) → Option Text → Exec (Client g) Unit
  write_copy target none = throw (grib_error file_not_found)
  write_copy target (some bytes) = write_file g target (some bytes)

  abbrev pub copy : (source target : Text) → Exec (Client g) Unit
  copy source target c = write_copy target (c.disk source) c

  -- LocalGfsGribRepository.fetch
  unfoldable pub fetch_local :
      (input_dir : Text) → (cycle step_hours : ℕ) → (dest : Text) → Exec (Client g) Text
  unfolding step_relative_path
  fetch_local input_dir cycle step_hours dest = do
    let target = f.with_suffix dest grib_suffix
    let source_path = input_dir ++ b'/' ∷ step_relative_path f cycle step_hours
    there ← gets (exists source_path)
    branch there (pure tt) (throw (grib_error forecast_not_available))
    write_file g target none
    copy source_path target
    on_disk (validate_gfs_grib target)
    pure target

  -- S3GfsGribRepository.fetch
  unfoldable pub fetch_s3 :
      (bucket prefix : Text) → (cycle step_hours : ℕ) → (dest : Text) → Exec (Client g) Text
  unfolding step_relative_path join_s3_prefix strip_s3_scheme
  fetch_s3 bucket prefix cycle step_hours dest = do
    let target = f.with_suffix dest grib_suffix
    let key = join_s3_prefix prefix (step_relative_path f cycle step_hours)
    there ← head_exists g key
    branch there (pure tt) (throw (grib_error forecast_not_available))
    write_file g target none
    s3_key ← lift (strip_s3_scheme key bucket)
    download_to_file g 3 s3_key target
    on_disk (validate_gfs_grib target)
    pure target

  module _ (get : (url : Text) → g.World → Answer × g.World) where
    abbrev pub ended : (failure : Option Exception) → Exec (Client g) Unit
    ended none = pure tt
    ended (some e) = throw (grib_error transient_download)

    abbrev pub streamed : (target : Text) → Option Kind → Stream → Exec (Client g) Unit
    streamed target (some kind) body = throw (grib_error kind)
    streamed target none body = do
      write_file g target none
      write_file g target (some (whole body.chunks))
      ended body.failure

    unfoldable pub received : (target : Text) → Answer → Exec (Client g) Unit
    unfolding status_failure whole
    received target no_answer = throw (grib_error transient_download)
    received target (answer status body) = streamed target (status_failure status) body

    -- GfsGribFetcher.fetch, with _download
    unfoldable pub fetch_http :
        (endpoint : Text) → Bounds → (cycle step_hours : ℕ) → (dest : Text) → Exec (Client g) Text
    unfolding build_url received
    fetch_http endpoint b cycle step_hours dest = do
      let target = f.with_suffix dest grib_suffix
      got ←
          on_world g
            (λ w. let (a, v) = get (build_url f endpoint b cycle step_hours) w in (return a, v))
      received target got
      on_disk (validate_gfs_grib target)
      pure target
