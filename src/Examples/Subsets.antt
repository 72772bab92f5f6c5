-- ===== src/Examples/Subsets.antt =====
-- A GRIB file of thirteen messages, and its fetch from the backends.
use tiles_processor.Base.{
  ℕ, zero, suc, ◌≡◌, refl, true, [], ◌∷◌, ◌++◌, none, some, Text, codes, text_eq, return,
  if◌then◌else◌, pos, negsuc,
}
use tiles_processor.Store.Client.{Disk, whole}
use tiles_processor.Grib.{
  expected_message_count, scan_grib, walk, is_header, from_bytes, validate_gfs_grib, assert_is_grib,
  assert_message_count,
}
use tiles_processor.Grib.Messages.{Messages}
use tiles_processor.Grib.Verdict.{Judged, validate_gfs_grib-Judged}
use tiles_processor.Sources.Lister.Template.{join_s3_prefix}
use tiles_processor.Grib.Backends.{
  Formats, Bounds, Answer, answer, step_relative_path, fetch_local, fetch_s3, fetch_http, received,
  status_failure,
}
use tiles_processor.Grib.Backends.Ended.{Fetched, target_of}
use tiles_processor.Grib.Backends.Bucket.{StoreRaised}
use tiles_processor.Grib.Backends.Contract.{CopyRaised, fetch-Fetched}
use tiles_processor.Examples.Stores.{bucket, start}

abbrev message : Text
message = codes "GRIB" ++ 0 ∷ 0 ∷ 0 ∷ 2 ∷ 0 ∷ 0 ∷ 0 ∷ 0 ∷ 0 ∷ 0 ∷ 0 ∷ 16 ∷ []

abbrev repeated : ℕ → Text
repeated zero = []
repeated (suc n) = message ++ repeated n

abbrev subset : Text
subset = repeated 13

scanned : scan_grib subset ≡ record { message_count = 13; ends_at_eof = true }
unfolding scan_grib walk is_header from_bytes text_eq
scanned = refl

abbrev disk : Disk
disk path = if text_eq path (codes "f003.grib2") then some subset else none

on_disk : disk (codes "f003.grib2") ≡ some subset
unfolding text_eq
on_disk = refl

validate_gfs_grib-Judged_example :
    Judged (codes "f003.grib2") disk subset (validate_gfs_grib (codes "f003.grib2") disk)
    × (Messages expected_message_count subset
        → validate_gfs_grib (codes "f003.grib2") disk ≡ (return tt, disk))
validate_gfs_grib-Judged_example = validate_gfs_grib-Judged (codes "f003.grib2") disk subset on_disk

abbrev formats : Formats
formats = record {
  fmt_cycle = λ n. codes "20260808T0000Z";
  fmt_day = λ n. codes "20260808";
  format_02d = λ n. codes "00";
  format_03d = λ n. codes "003";
  format_g = λ n. codes "0";
  urlencode = λ ps. codes "q";
  with_suffix = λ path suffix. path ++ suffix;
}

abbrev box : Bounds
box = record { minx = negsuc 109999999; maxx = pos 0; miny = pos 0; maxy = pos 0 }

abbrev served : (url : Text) → ℕ → Answer × ℕ
served url n = (answer 200 (record { chunks = subset ∷ []; failure = none }), n)

fetch-Fetched_example :
    ((input_dir : Text)
      → Fetched formats bucket
          (CopyRaised formats bucket 0 3 (codes "f003") start input_dir)
          (target_of formats (codes "f003"))
          start
          (fetch_local formats bucket input_dir 0 3 (codes "f003") start))
    × ((name prefix : Text)
        → Fetched formats bucket
            (StoreRaised formats bucket 0 3
              (codes "f003")
              start
              (join_s3_prefix prefix (step_relative_path formats 0 3))
              name)
            (target_of formats (codes "f003"))
            start
            (fetch_s3 formats bucket name prefix 0 3 (codes "f003") start))
    × ((get : (url : Text) → ℕ → Answer × ℕ) (endpoint : Text) (b : Bounds)
        → Fetched formats bucket
            (λ e. ⊥)
            (target_of formats (codes "f003"))
            start
            (fetch_http formats bucket get endpoint b 0 3 (codes "f003") start))
fetch-Fetched_example = fetch-Fetched formats bucket 0 3 (codes "f003") start

fetched :
    (fetch_http formats bucket served (codes "e") box 0 3 (codes "f003") start).0
    ≡ return (codes "f003.grib2")
unfolding fetch_http received validate_gfs_grib assert_is_grib assert_message_count scan_grib walk
    is_header from_bytes text_eq status_failure whole
fetched = refl
