-- ===== src/Sources/Inta.antt =====
-- src/data_sources/inta_radar.py: IntaRadarDataSource, with IntaScanSpec of src/models/radar_config.py.
-- Times are microseconds, ranges metres and coordinates microdegrees; strptime, the repository's listing and its header reads are
-- parameters. The reads run one after the other.
pub mod Header
pub mod Newest
pub mod Sinking
use mathlib.Core.List.{reverse}
use tiles_processor.Base.{
  is_digit, upper, lower, is_letter, ℕ, zero, suc, ◌+◌, ◌-◌, Bool, true, false, not, ◌&&◌, ◌||◌,
  List, [], ◌∷◌, ◌++◌, Option, none, some, Text, codes, text_eq, member, leb, ltb, ◌==◌,
  if◌then◌else◌, take, drop, Exception, Kind, rainbow_header_error, os_error, file_not_found,
  Result, return, raise, bind,
}
use tiles_processor.Producer.Discovery.{ImageInfo, DiscoveryConfig}
use tiles_processor.Producer.Tilesets.{until_sep}
use tiles_processor.Sources.Radar.{RadarStationFilter, allows, group_by_radar, newest_of_each}
use Header.{RainbowHeader, parse_rainbow_header, Window}

pub record IntaName : Type 0 where
  pub radar_id : Text
  pub timestamp : Text
  pub sequence : Text
  pub variable : Text
  pub extension : Text

-- The longest prefix of letters, and the rest.
unfoldable pub letters : Text → Text × Text
letters [] = ([], [])
letters (c ∷ s) = let rest = letters s in if is_letter c then (c ∷ rest.0, rest.1) else ([], c ∷ s)

-- `\d{n}`
unfoldable pub exactly_digits : (n : ℕ) → Text → Option (Text × Text)
exactly_digits zero s = some ([], s)
exactly_digits (suc n) [] = none
exactly_digits (suc n) (c ∷ s) =
    let rest = exactly_digits n s in
    if is_digit c
    then elim rest [ none ↦ none | some (digits, s') ↦ some (c ∷ digits, s') ]
    else none

-- `\.(?i:vol|azi)$`: the extension, in lower case.
unfoldable pub extension_of : Text → Option Text
extension_of [] = none
extension_of (c ∷ s) =
    if c == b'.' && (text_eq (lower s) (codes "vol") || text_eq (lower s) (codes "azi"))
    then some (b'.' ∷ lower s)
    else none

unfoldable pub name_of : (radar raw sequence : Text) → Text × Text → Option IntaName
name_of radar raw sequence ([], rest) = none
name_of radar raw sequence (c ∷ variable, rest) = elim (extension_of rest) [
  | none ↦ none
  | some extension ↦ some (record {
    radar_id = upper radar;
    timestamp = take 8 raw ++ b'T' ∷ (drop 8 raw ++ b'Z' ∷ []);
    sequence = sequence;
    variable = c ∷ variable;
    extension = extension;
  })
]

-- `none` for a ValueError. Digits and letters are those of ASCII.
unfoldable pub parse_inta_filename : (filename : Text) → Option IntaName
unfolding letters exactly_digits extension_of name_of
parse_inta_filename filename =
    let (radar, rest) = letters filename in
    elim (exactly_digits 14 rest) [
      | none ↦ none
      | some (raw, rest') ↦ elim (exactly_digits 2 rest') [
        | none ↦ none
        | some (sequence, rest'') ↦ name_of radar raw sequence (letters rest'')
      ]
    ]

abbrev pub file_name : (source_uri : Text) → Text
file_name source_uri = until_sep b'/' [] (reverse source_uri)

pub record IntaScanSpec : Type 0 where
  pub rainbow_variable : Text
  pub extension : Text
  pub product_id : Text
  pub long_range : Bool

abbrev pub inta_stop_range : ℕ
inta_stop_range = 240000

unfoldable pub accepts_range : IntaScanSpec → (stop_range : ℕ) → Bool
accepts_range spec stop_range =
    if spec.long_range then ltb inta_stop_range stop_range else stop_range == inta_stop_range

pub record IntaSource : Type 0 where
  pub spec : IntaScanSpec
  pub s3_tiles_prefix : Text
  pub station_filter : Option RadarStationFilter
  pub target_images : ℕ
  pub max_age : ℕ

unfoldable pub matches_variable : IntaSource → (source_uri : Text) → Bool
matches_variable src source_uri = elim (parse_inta_filename (file_name source_uri)) [
  | none ↦ false
  | some name ↦
      text_eq name.variable src.spec.rainbow_variable && text_eq name.extension src.spec.extension
]

-- `except (RainbowHeaderError, OSError)`
unfoldable pub is_unreadable : Kind → Bool
is_unreadable Kind.rainbow_header_error = true
is_unreadable Kind.os_error = true
is_unreadable Kind.file_not_found = true
is_unreadable _ = false

abbrev pub or_unreadable : Result RainbowHeader → Result (Option RainbowHeader)
or_unreadable (return header) = return (some header)
or_unreadable (raise e) = if is_unreadable e.kind then return none else raise e

module _ (src : IntaSource) (parse_inta_timestamp : Text → Option ℕ)
    (read_header : (source_uri : Text) → Result Window) where
  abbrev pub not_before : (cutoff : ℕ) → Option ℕ → Bool
  not_before cutoff none = false
  not_before cutoff (some scan_time) = not (ltb scan_time cutoff)

  -- A name with no date counts as the oldest of all.
  unfoldable pub is_recent : (cutoff : ℕ) → (source_uri : Text) → Bool
  is_recent cutoff source_uri = elim (parse_inta_filename (file_name source_uri)) [
    | none ↦ false
    | some name ↦ not_before cutoff (parse_inta_timestamp name.timestamp)
  ]

  unfoldable pub candidates_of : (cutoff : ℕ) → (source_uris : List Text) → List Text
  unfolding matches_variable is_recent
  candidates_of cutoff [] = []
  candidates_of cutoff (uri ∷ source_uris) =
      let rest = candidates_of cutoff source_uris in
      if matches_variable src uri && is_recent cutoff uri then uri ∷ rest else rest

  unfoldable pub read_one : (source_uri : Text) → Result (Option RainbowHeader)
  unfolding is_unreadable
  read_one source_uri =
      or_unreadable (bind (read_header source_uri) (λ window. parse_rainbow_header window))

  unfoldable pub read_headers :
      (source_uris : List Text) → Result (List (Text × Option RainbowHeader))
  unfolding read_one
  read_headers [] = return []
  read_headers (uri ∷ source_uris) =
      bind (read_one uri)
        (λ header. bind (read_headers source_uris) (λ rest. return ((uri, header) ∷ rest)))

  abbrev pub is_enabled : Option RadarStationFilter → (radar_id : Text) → Bool
  is_enabled none radar_id = true
  is_enabled (some filter) radar_id = allows filter radar_id

  unfoldable pub image_of : (source_uri : Text) → RainbowHeader → IntaName → ImageInfo
  image_of source_uri header name = record {
    image_id = header.radar_id ++ (b'_' ∷ src.spec.product_id) ++ (b'_' ∷ name.timestamp);
    source_uri = source_uri;
    data_source_id = codes "radar_inta_" ++ src.spec.product_id;
    processor_id = codes "radar_inta";
    output_prefix = src.s3_tiles_prefix;
  }

  -- The loop body.
  unfoldable pub new_image : DiscoveryConfig → Text × Option RainbowHeader → Option ImageInfo
  unfolding accepts_range image_of
  new_image config (source_uri, none) = none
  new_image config (source_uri, some header) =
      if accepts_range src.spec header.stop_range && is_enabled src.station_filter header.radar_id
      then elim (parse_inta_filename (file_name source_uri)) [
        | none ↦ none
        | some name ↦
            let i = image_of source_uri header name in
            if not (member i.image_id config.existing_tilesets)
              && not (member i.image_id config.in_progress_images)
            then some i
            else none
      ]
      else none

  unfoldable pub new_images : DiscoveryConfig → List (Text × Option RainbowHeader) → List ImageInfo
  unfolding new_image
  new_images config [] = []
  new_images config (found ∷ headers) = elim (new_image config found) [
    | none ↦ new_images config headers
    | some i ↦ i ∷ new_images config headers
  ]

  unfoldable pub cap_per_station : List ImageInfo → List ImageInfo
  cap_per_station images = newest_of_each src.target_images (group_by_radar images [])

  unfoldable pub discover_images :
      (list_files : Result (List Text)) → DiscoveryConfig → Result (List ImageInfo)
  unfolding candidates_of read_headers new_images cap_per_station
  discover_images list_files config = bind list_files (λ source_uris.
      bind (read_headers (candidates_of (config.current_time - src.max_age) source_uris))
        (λ headers. return (cap_per_station (new_images config headers))))
