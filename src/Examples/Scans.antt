-- ===== src/Examples/Scans.antt =====
-- Radar scans of two stations, with a cap of one.
use tiles_processor.Base.{
  ℕ, ◌≡◌, refl, List, [], ◌∷◌, ◌++◌, Option, some, Text, codes, sort_by, return, text_eq, member,
  split_on, starts_with, text_leb,
}
use tiles_processor.Producer.Discovery.{ImageInfo, DiscoveryConfig}
use tiles_processor.Producer.Tilesets.{until_sep}
use tiles_processor.Sources.Radar.{
  RadarSource, RadarStationFilter, new_image, new_images, discover_images, image_of, is_new, allows,
  parse_radar_filename, append_to, group_by_radar, newest_of_each,
}
use tiles_processor.Sources.Radar.Newest.{IsNewest, discover_images-IsNewest}

abbrev sinarame : RadarSource
sinarame = record {
  product_id = codes "dbzh";
  variable = codes "DBZH";
  subvolume = codes "01";
  s3_tiles_prefix = codes "tiles/radar/sinarame";
  station_filter = some (RadarStationFilter.blacklist (codes "RMA3" ∷ []));
  target_images = 1;
  max_age = 100;
}

abbrev scan_uri : Text → Text
scan_uri name = codes "in/" ++ name

abbrev scans : List Text
scans =
    scan_uri (codes "RMA1_0315_01_DBZH_20260114T1.H5")
    ∷ scan_uri (codes "RMA2_0315_01_DBZH_20260114T1.H5")
    ∷ scan_uri (codes "RMA1_0315_01_DBZH_20260114T2.H5")
    ∷ scan_uri (codes "RMA3_0315_01_DBZH_20260114T2.H5")
    ∷ scan_uri (codes "RMA1_0315_02_VRAD_20260114T2.H5")
    ∷ []

abbrev always : Text → Option ℕ
always timestamp = some 500

abbrev tick : DiscoveryConfig
tick = record { current_time = 550; existing_tilesets = []; in_progress_images = []; bounds = [] }

abbrev emitted : Text → Text → ImageInfo
emitted uri image_id = record {
  image_id = image_id;
  source_uri = scan_uri uri;
  data_source_id = codes "radar_sinarame_dbzh";
  processor_id = codes "radar_sinarame";
  output_prefix = codes "tiles/radar/sinarame";
}

abbrev newest_scans : List ImageInfo
newest_scans =
    emitted (codes "RMA1_0315_01_DBZH_20260114T2.H5") (codes "RMA1_dbzh_20260114T2")
    ∷ emitted (codes "RMA2_0315_01_DBZH_20260114T1.H5") (codes "RMA2_dbzh_20260114T1")
    ∷ []

discovered : discover_images sinarame always (return scans) tick ≡ return newest_scans
unfolding discover_images newest_of_each group_by_radar new_images new_image parse_radar_filename
    split_on until_sep starts_with is_new text_eq allows member append_to image_of sort_by text_leb
discovered = refl

discover_images-IsNewest_example : IsNewest sinarame always tick scans newest_scans
discover_images-IsNewest_example =
    discover_images-IsNewest sinarame always tick scans newest_scans discovered
