-- ===== src/Examples/Runs.antt =====
-- One discovery of GFS steps: eight hours after a run, with a cap of two.
use tiles_processor.Base.{
  ℕ, ◌+◌, ◌*◌, ◌≤◌, ◌≡◌, refl, List, [], Option, none, Text, length, All, Result, return,
}
use tiles_processor.Producer.Discovery.{DiscoveryConfig}
use tiles_processor.Sources.Gfs.{GfsProducer, hour, forecast_steps, range, discover_images}
use tiles_processor.Sources.Gfs.Selection.{IsWanted, discover_images-IsWanted}

abbrev gfs : GfsProducer
gfs = record {
  cycles_to_maintain = 2;
  max_steps_per_tick = 2;
  probe_from_hours = 4;
  probe_to_hours = 24;
}

abbrev config : DiscoveryConfig
config = record {
  current_time = 100 * 24 * hour + 8 * hour;
  existing_tilesets = [];
  in_progress_images = [];
  bounds = [];
}

abbrev no_text : ℕ → Text
no_text n = []

abbrev no_uri : ℕ → ℕ → Text
no_uri cycle step = []

abbrev no_int : Text → Option ℕ
no_int t = none

abbrev no_files : (directory_path file_pattern : Text) → Result (List Text)
no_files prefix pattern = return []

length-forecast_steps : length forecast_steps ≡ 33
unfolding forecast_steps range
length-forecast_steps = refl

discover_images-IsWanted_example :
    (length (discover_images gfs no_text no_text no_uri no_int no_files config) ≤ 2)
    × All
        (IsWanted gfs no_text no_text no_uri no_int no_files config)
        (discover_images gfs no_text no_text no_uri no_int no_files config)
discover_images-IsWanted_example =
    discover_images-IsWanted gfs no_text no_text no_uri no_int no_files config
