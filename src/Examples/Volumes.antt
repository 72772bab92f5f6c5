-- ===== src/Examples/Volumes.antt =====
-- INTA volumes of one station, read well and with one of them malformed.
use tiles_processor.Base.{
  ℕ, ◌-◌, ◌≡◌, refl, true, false, List, [], ◌∷◌, All, Option, none, some, Text, codes, sort_by,
  upper, lower, pos, Exception, Result, return, raise, text_eq, member, text_leb, split_on,
  if◌then◌else◌,
}
use tiles_processor.Producer.Discovery.{ImageInfo, DiscoveryConfig}
use tiles_processor.Producer.Tilesets.{until_sep}
use tiles_processor.Sources.Radar.{
  RadarStationFilter, allows, group_by_radar, newest_of_each, append_to,
}
use tiles_processor.Sources.Inta.Header.{
  Window, RainbowHeader, parse_rainbow_header, float_of, number_or_zero,
}
use tiles_processor.Sources.Inta.{
  IntaSource, parse_inta_filename, letters, exactly_digits, extension_of, name_of, matches_variable,
  is_recent, candidates_of, is_unreadable, read_one, read_headers, accepts_range, image_of,
  new_image, new_images, cap_per_station, discover_images,
}
use tiles_processor.Sources.Inta.Newest.{IsNewestScans, discover_images-IsNewestScans}
use tiles_processor.Sources.Inta.Sinking.{IsHandled, HasNoRange, discover_images-sinks}

abbrev tick : DiscoveryConfig
tick = record {
  current_time = 36000000000;
  existing_tilesets = [];
  in_progress_images = [];
  bounds = [];
}

abbrev inta : IntaSource
inta = record {
  spec = record {
    rainbow_variable = codes "dBZ";
    extension = codes ".vol";
    product_id = codes "dbzh";
    long_range = false;
  };
  s3_tiles_prefix = codes "tiles/radar/inta";
  station_filter = some (RadarStationFilter.blacklist (codes "ANG" ∷ []));
  target_images = 1;
  max_age = 100;
}

abbrev volumes : List Text
volumes =
    codes "in/PAR2026061920000300dBZ.vol"
    ∷ codes "in/PAR2026061920100300dBZ.VOL"
    ∷ codes "in/PAR2026061920100300dBZ.azi"
    ∷ codes "in/PAR2026061920100300V.vol"
    ∷ []

abbrev always : Text → Option ℕ
always timestamp = some 36000000000

abbrev header_of : (raw : Text) (range : Option ℕ) → Window
header_of raw range = record {
  has_radarinfo = true;
  is_utf8 = true;
  id = codes "Par";
  lat = some (record { raw = codes "31"; value = some (pos 31000000) });
  lon = some (record { raw = codes "60"; value = some (pos 60000000) });
  alt = none;
  name = none;
  scan_name = none;
  stoprange = some (some (record { raw = raw; value = range }));
  numele = none;
}

abbrev read_all : (source_uri : Text) → Result Window
read_all uri = return (header_of (codes "240") (some 240000))

abbrev header : RainbowHeader
header = record {
  radar_id = codes "PAR";
  radar_name = codes "Par";
  latitude = pos 31000000;
  longitude = pos 60000000;
  altitude = pos 0;
  stop_range = 240000;
  elevation_count = 0;
  scan_name = [];
}

abbrev found : List (Text × Option RainbowHeader)
found =
    (codes "in/PAR2026061920000300dBZ.vol", some header)
    ∷ (codes "in/PAR2026061920100300dBZ.VOL", some header)
    ∷ []

abbrev newest : List ImageInfo
newest =
    (record {
      image_id = codes "PAR_dbzh_20260619T201003Z";
      source_uri = codes "in/PAR2026061920100300dBZ.VOL";
      data_source_id = codes "radar_inta_dbzh";
      processor_id = codes "radar_inta";
      output_prefix = codes "tiles/radar/inta";
    })
    ∷ []

read :
    read_headers inta always read_all
      (candidates_of inta always read_all (tick.current_time - inta.max_age) volumes)
    ≡ return found
unfolding read_headers read_one is_unreadable parse_rainbow_header float_of number_or_zero upper
    text_eq candidates_of matches_variable is_recent parse_inta_filename letters exactly_digits
    extension_of name_of until_sep lower
read = refl

discovered : discover_images inta always read_all (return volumes) tick ≡ return newest
unfolding discover_images candidates_of matches_variable is_recent parse_inta_filename letters
    exactly_digits extension_of name_of until_sep lower upper text_eq read_headers read_one
    is_unreadable parse_rainbow_header float_of number_or_zero new_images new_image accepts_range
    image_of allows member cap_per_station newest_of_each group_by_radar append_to sort_by text_leb
    split_on
discovered = refl

discover_images-IsNewestScans_example : IsNewestScans inta always read_all volumes tick newest
discover_images-IsNewestScans_example =
    discover_images-IsNewestScans inta always read_all volumes tick newest discovered

abbrev read_one_badly : (source_uri : Text) → Result Window
read_one_badly uri =
    if text_eq uri (codes "in/PAR2026061920000300dBZ.vol")
    then return (header_of (codes "far") none)
    else return (header_of (codes "240") (some 240000))

discover_images-sinks_example :
    let candidates =
      candidates_of inta always read_one_badly (tick.current_time - inta.max_age) volumes in
    (All (IsHandled inta always read_one_badly) candidates
      → (images : List ImageInfo) × (discover_images inta always read_one_badly
            (return volumes)
            tick
          ≡ return images))
    × ((uri : Text) (w : Window)
        → member uri candidates ≡ true
        → read_one_badly uri ≡ return w
        → HasNoRange w
        → (e : Exception) × (discover_images inta always read_one_badly (return volumes) tick
            ≡ raise e))
discover_images-sinks_example = discover_images-sinks inta always read_one_badly volumes tick

malformed : HasNoRange (header_of (codes "far") none)
unfolding float_of text_eq
malformed = record {
  found = refl;
  is_utf8 = refl;
  radar_name = codes "Par";
  name = refl;
  id = refl;
  latitude = pos 31000000;
  lat = refl;
  longitude = pos 60000000;
  lon = refl;
  altitude = pos 0;
  alt = refl;
  raw = codes "far";
  stoprange = refl;
  not_empty = refl;
}
