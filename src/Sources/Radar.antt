-- ===== src/Sources/Radar.antt =====
-- src/data_sources/radar.py: RadarDataSource, with RadarStationFilter and parse_radar_filename of
-- src/models/radar_config.py. Times are microseconds; strptime and the repository's listing are
-- parameters. A dictionary is the list of its entries.
pub mod Groups
pub mod Newest
use mathlib.Core.List.{reverse}
use tiles_processor.Base.{
  ℕ, zero, suc, ◌+◌, ◌-◌, Bool, true, false, not, ◌&&◌, List, [], ◌∷◌, ◌++◌, Option, none, some,
  Text, codes, text_eq, starts_with, member, split_on, ltb, if◌then◌else◌, length, take, text_leb,
  sort_by, Result, return, raise, bind,
}
use tiles_processor.Producer.Discovery.{ImageInfo, DiscoveryConfig}
use tiles_processor.Producer.Tilesets.{until_sep}

pub data RadarStationFilter : Type 0 where
  all_stations : RadarStationFilter
  no_station : RadarStationFilter
  whitelist : List Text → RadarStationFilter
  blacklist : List Text → RadarStationFilter

unfoldable pub allows : RadarStationFilter → (radar_id : Text) → Bool
allows RadarStationFilter.all_stations radar_id = true
allows RadarStationFilter.no_station radar_id = false
allows (RadarStationFilter.whitelist stations) radar_id = member radar_id stations
allows (RadarStationFilter.blacklist stations) radar_id = not (member radar_id stations)

-- `s.replace(pattern, "")`; `skip` characters belong to the occurrence that was just found.
unfoldable pub without : (pattern : Text) (skip : ℕ) → Text → Text
without pattern skip [] = []
without pattern (suc skip) (c ∷ s) = without pattern skip s
without pattern zero (c ∷ s) =
    let cut = without pattern (length pattern - 1) s in
    let kept = without pattern 0 s in if starts_with (c ∷ s) pattern then cut else c ∷ kept

pub record RadarName : Type 0 where
  pub radar_id : Text
  pub volume : Text
  pub subvolume : Text
  pub variable : Text
  pub timestamp : Text

unfoldable pub name_of : List Text → Option RadarName
name_of (radar_id ∷ volume ∷ subvolume ∷ variable ∷ timestamp ∷ more) = some (record {
  radar_id = radar_id;
  volume = volume;
  subvolume = subvolume;
  variable = variable;
  timestamp = timestamp;
})
name_of _ = none

-- `none` for a ValueError.
unfoldable pub parse_radar_filename : (filename : Text) → Option RadarName
unfolding name_of without
parse_radar_filename filename =
    name_of (split_on b'_' (without (codes ".h5") 0 (without (codes ".H5") 0 filename)))

-- `variable` is what the property of that name of the product's configuration answers.
pub record RadarSource : Type 0 where
  pub product_id : Text
  pub variable : Text
  pub subvolume : Text
  pub s3_tiles_prefix : Text
  pub station_filter : Option RadarStationFilter
  pub target_images : ℕ
  pub max_age : ℕ

abbrev pub first_part : List Text → Text
first_part [] = []
first_part (part ∷ parts) = part

-- `image_id.split("_")[0]`
abbrev pub station_of : ImageInfo → Text
station_of i = first_part (split_on b'_' i.image_id)

-- `by_radar[radar_id].append(img)`
unfoldable pub append_to :
    (radar_id : Text) → ImageInfo → List (Text × List ImageInfo) → List (Text × List ImageInfo)
append_to radar_id i [] = (radar_id, i ∷ []) ∷ []
append_to radar_id i ((k, images) ∷ groups) =
    if text_eq k radar_id
    then (k, images ++ i ∷ []) ∷ groups
    else (k, images) ∷ append_to radar_id i groups

unfoldable pub group_by_radar :
    List ImageInfo → List (Text × List ImageInfo) → List (Text × List ImageInfo)
group_by_radar [] groups = groups
group_by_radar (i ∷ images) groups = group_by_radar images (append_to (station_of i) i groups)

-- `sort(key=lambda img: img.image_id, reverse=True)`
abbrev pub later_id : ImageInfo → ImageInfo → Bool
later_id i j = text_leb j.image_id i.image_id

unfoldable pub newest_of_each : (target_images : ℕ) → List (Text × List ImageInfo) → List ImageInfo
newest_of_each n [] = []
newest_of_each n ((k, images) ∷ groups) =
    take n (sort_by later_id images) ++ newest_of_each n groups

module _ (src : RadarSource) (parse_scan_time : Text → Option ℕ) where
  abbrev pub is_enabled : Option RadarStationFilter → (radar_id : Text) → Bool
  is_enabled none radar_id = true
  is_enabled (some filter) radar_id = allows filter radar_id

  unfoldable pub image_of : (source_uri : Text) → RadarName → ImageInfo
  image_of source_uri name = record {
    image_id = name.radar_id ++ (b'_' ∷ src.product_id) ++ (b'_' ∷ name.timestamp);
    source_uri = source_uri;
    data_source_id = codes "radar_sinarame_" ++ src.product_id;
    processor_id = codes "radar_sinarame";
    output_prefix = src.s3_tiles_prefix;
  }

  -- The tests of the loop body after the name was parsed, in their order.
  unfoldable pub is_new : DiscoveryConfig → RadarName → (image_id : Text) → Bool
  is_new config name image_id =
      if text_eq name.variable src.variable
        && (is_enabled src.station_filter name.radar_id && text_eq name.subvolume src.subvolume)
      then elim (parse_scan_time name.timestamp) [
        | none ↦ false
        | some scan_time ↦
            not (ltb scan_time (config.current_time - src.max_age))
            && (not (member image_id config.existing_tilesets)
                && not (member image_id config.in_progress_images))
      ]
      else false

  unfoldable pub new_image : DiscoveryConfig → (source_uri : Text) → Option ImageInfo
  new_image config source_uri =
      elim (parse_radar_filename (until_sep b'/' [] (reverse source_uri))) [
        | none ↦ none
        | some name ↦
            let i = image_of source_uri name in
            if is_new config name i.image_id then some i else none
      ]

  unfoldable pub new_images : DiscoveryConfig → (source_uris : List Text) → List ImageInfo
  new_images config [] = []
  new_images config (uri ∷ source_uris) = elim (new_image config uri) [
    | none ↦ new_images config source_uris
    | some i ↦ i ∷ new_images config source_uris
  ]

  unfoldable pub discover_images :
      (list_files : Result (List Text)) → DiscoveryConfig → Result (List ImageInfo)
  discover_images list_files config = bind list_files (λ source_uris.
      return (newest_of_each src.target_images (group_by_radar (new_images config source_uris) [])))
