-- ===== src/Examples/Fields.antt =====
-- WRF steps of two runs, with a cap of one run.
use tiles_processor.Base.{
  ℕ, ◌≡◌, refl, true, List, [], ◌∷◌, ◌++◌, Option, some, Text, codes, return, text_eq, member,
  split_on, starts_with, sort_by, text_leb,
}
use tiles_processor.Producer.Discovery.{ImageInfo, DiscoveryConfig}
use tiles_processor.Producer.Tilesets.{until_sep}
use tiles_processor.Sources.Glm.Filename.{all_digits, digits_from}
use tiles_processor.Sources.Wrf.{
  WrfSource, discover_images, recent_steps, step_of, parse_wrf_filename, runs_newest_first, set_of,
  to_image_info,
}
use tiles_processor.Sources.Wrf.Runs.{IsEmitted, discover_images-lacking}

abbrev wrf : WrfSource
wrf = record {
  product_id = codes "t2";
  skip_f000 = true;
  s3_tiles_prefix = codes "tiles/wrf-arg4k";
  target_runs = 1;
  max_age = 100;
}

abbrev field : (tag step : Text) → Text
field tag step =
    codes "in/WRF_ARG4K.FCST_L0_FIELD2D.01H." ++ (tag ++ (codes "." ++ (step ++ codes ".M000.nc")))

abbrev fields : List Text
fields =
    field (codes "20260601_000000") (codes "F001")
    ∷ field (codes "20260601_060000") (codes "F000")
    ∷ field (codes "20260601_060000") (codes "F001")
    ∷ []

abbrev at_500 : Text → Option ℕ
at_500 tag = some 500

abbrev tick : DiscoveryConfig
tick = record { current_time = 550; existing_tilesets = []; in_progress_images = []; bounds = [] }

abbrev emitted : List ImageInfo
emitted =
    to_image_info wrf at_500 (record {
      init_tag = codes "20260601_060000";
      source_uri = field (codes "20260601_060000") (codes "F001");
      image_id = codes "t2_20260601_060000_F001";
    })
    ∷ []

discovered : discover_images wrf at_500 (return fields) tick ≡ return emitted
unfolding discover_images recent_steps step_of parse_wrf_filename split_on until_sep starts_with
    text_eq member all_digits digits_from runs_newest_first set_of sort_by text_leb
discovered = refl

discover_images-lacking_example : IsEmitted wrf at_500 tick fields emitted
discover_images-lacking_example = discover_images-lacking wrf at_500 tick fields emitted discovered
