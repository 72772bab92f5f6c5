-- ===== src/Sources/Abi.antt =====
-- src/data_sources/goes19_base.py and goes19_abi.py: Goes19AbiDataSource. Times are microseconds, later
-- than the look-back; `strftime` gives the text of an hour, and the repository is the parameter
-- `list_files`, which may raise for any directory.
pub mod Latest
use mathlib.Core.List.{reverse}
use tiles_processor.Base.{
  is_digit, ℕ, zero, suc, ◌+◌, ◌-◌, ◌*◌, Bool, true, false, ◌&&◌, ◌||◌, List, [], ◌∷◌, ◌++◌, Option,
  none, some, Text, codes, member, leb, ◌==◌, if◌then◌else◌, take, sort_by, text_leb, Result,
  return, raise,
}
use tiles_processor.Producer.Discovery.{ImageInfo, DiscoveryConfig}
use tiles_processor.Producer.Tilesets.{until_sep}
use tiles_processor.Sources.Gfs.{hour}

-- What the source reads of models/band_config.py.
pub record BandConfig : Type 0 where
  pub band_id : Text
  pub file_pattern : Text
  pub s3_tiles_prefix : Text

pub record AbiSource : Type 0 where
  pub band_config : BandConfig
  pub product_path : Text
  pub target_images : ℕ
  pub max_hours_back : ℕ

abbrev or_default : Option ℕ → ℕ → ℕ
or_default none n = n
or_default (some m) n = m

-- The two constructors, with TARGET_IMAGES and MAX_HOURS_BACK.
abbrev pub new_source : BandConfig → (target_images max_hours_back : Option ℕ) → AbiSource
new_source band_config target_images max_hours_back = record {
  band_config = band_config;
  product_path = codes "ABI-L1b-RadF";
  target_images = or_default target_images 24;
  max_hours_back = or_default max_hours_back 5;
}

-- `\d{n}_` at the front: the digits.
unfoldable pub digits_then_underscore : (n : ℕ) → Text → Option Text
digits_then_underscore n [] = none
digits_then_underscore zero (c ∷ s) = if c == b'_' then some [] else none
digits_then_underscore (suc n) (c ∷ s) =
    let rest = digits_then_underscore n s in
    if is_digit c then elim rest [ none ↦ none | some digits ↦ some (c ∷ digits) ] else none

-- `re.search(r"s(\d{14})_", filename)`
unfoldable pub search_timestamp : (filename : Text) → Option Text
unfolding digits_then_underscore
search_timestamp [] = none
search_timestamp (c ∷ s) =
    let later = search_timestamp s in
    if c == b's'
    then elim (digits_then_underscore 14 s) [ none ↦ later | some digits ↦ some digits ]
    else later

unfoldable pub build_directory_path : AbiSource → (strftime : (time : ℕ) → Text) → (time : ℕ) → Text
build_directory_path src strftime time = src.product_path ++ b'/' ∷ strftime time

abbrev pub or_nothing : Result (List Text) → List Text
or_nothing (return files) = files
or_nothing (raise e) = []

module _ (src : AbiSource) (strftime : (time : ℕ) → Text)
    (list_files : (directory_path : Text) (file_pattern : Text) → Result (List Text)) where
  -- The `while` loop, by the rounds that are left.
  unfoldable pub collect_hours : (current_time : ℕ) (rounds hours_back : ℕ) → List Text
  unfolding build_directory_path
  collect_hours current_time zero hours_back = []
  collect_hours current_time (suc rounds) hours_back =
      or_nothing (
        list_files (build_directory_path src strftime (current_time - hours_back * hour))
          src.band_config.file_pattern)
      ++ collect_hours current_time rounds (hours_back + 1)

  unfoldable pub collect_candidates_from_hourly_paths : (current_time : ℕ) → List Text
  unfolding collect_hours
  collect_candidates_from_hourly_paths current_time =
      collect_hours current_time (suc src.max_hours_back) 0

  unfoldable pub new_image : DiscoveryConfig → (s3_key : Text) → Option ImageInfo
  new_image config s3_key = elim (search_timestamp (until_sep b'/' [] (reverse s3_key))) [
    | none ↦ none
    | some timestamp ↦
        if member timestamp config.existing_tilesets
        then none
        else if member timestamp config.in_progress_images
        then none
        else some (record {
          image_id = timestamp;
          source_uri = s3_key;
          data_source_id = src.band_config.band_id;
          processor_id = src.band_config.band_id;
          output_prefix = src.band_config.s3_tiles_prefix;
        })
  ]

  unfoldable pub new_images : DiscoveryConfig → (target_candidates : List Text) → List ImageInfo
  unfolding new_image
  new_images config [] = []
  new_images config (key ∷ target_candidates) = elim (new_image config key) [
    | none ↦ new_images config target_candidates
    | some i ↦ i ∷ new_images config target_candidates
  ]

  unfoldable pub discover_images : DiscoveryConfig → List ImageInfo
  unfolding collect_candidates_from_hourly_paths new_images
  discover_images config =
      let all_candidates = collect_candidates_from_hourly_paths config.current_time in
      new_images config (take src.target_images (sort_by (λ s t. text_leb t s) all_candidates))
