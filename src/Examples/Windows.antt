-- ===== src/Examples/Windows.antt =====
-- A listing of GLM files: two minutes of one window, one file given twice, and a file of another kind.
use tiles_processor.Base.{
  arith, ℕ, ◌+◌, ◌-◌, ◌*◌, ◌≤◌, ◌≡◌, ◌↔◌, refl, true, List, [], ◌∷◌, Text, codes, length, All,
  contains, return, member, text_eq, starts_with, sort_by, text_leb,
}
use tiles_processor.Producer.Discovery.{DiscoveryConfig, ImageInfo}
use tiles_processor.Sources.Glm.Filename.{days_before, day_us}
use tiles_processor.Sources.Glm.{
  minute, hour, GlmSource, Calendar, anchors_covering, append_all, set_minute, values, start_of,
  newest, one_file_per_minute, group_into_windows, select_complete_ready_windows, to_image,
  new_images, discover_images,
}
use tiles_processor.Sources.Glm.Anchors.{Covers, anchors_covering-Covers}
use tiles_processor.Sources.Glm.Windows.{IsFresh, discover_images-IsFresh}

abbrev glm : GlmSource
glm = record {
  accum_minutes = 2;
  produce_every_minutes = 2;
  safety_lag = 0;
  target_windows = 24;
  max_age = 270 * minute;
  s3_tiles_prefix = codes "tiles/goes19/glm/fed";
}

-- 14:00 on day 61 of 2026.
abbrev two_pm : ℕ
two_pm = (days_before 2026 + 60) * day_us + 14 * hour

abbrev noon_calendar : ℕ → Calendar
noon_calendar t = record { year = 2026; yday = 61; hours = 14; minutes = 0; seconds = 0 }

abbrev no_padding : (width n : ℕ) → Text
no_padding width n = []

abbrev no_manifest : ℕ → List Text → Text
no_manifest window_start files = []

abbrev first : Text
first = codes "in/CG_GLM-L2-GLMF-M3_G19_s20260611400000_e20260611401000_c20260611402030.nc"

abbrev second : Text
second = codes "in/CG_GLM-L2-GLMF-M3_G19_s20260611401000_e20260611402000_c20260611403030.nc"

abbrev reprocessed : Text
reprocessed = codes "in/CG_GLM-L2-GLMF-M3_G19_s20260611400000_e20260611401000_c20260611409999.nc"

abbrev listing : List Text
listing = second ∷ codes "in/notes.txt" ∷ first ∷ reprocessed ∷ []

abbrev tick : DiscoveryConfig
tick = record {
  current_time = two_pm + 3 * minute;
  existing_tilesets = [];
  in_progress_images = [];
  bounds = [];
}

abbrev window : ImageInfo
window = to_image glm noon_calendar no_padding no_manifest two_pm (reprocessed ∷ second ∷ [])

discovered :
    discover_images glm noon_calendar no_padding no_manifest (return listing) tick
    ≡ return (window ∷ [])
unfolding discover_images group_into_windows start_of starts_with text_eq
    select_complete_ready_windows append_all anchors_covering one_file_per_minute newest sort_by
    text_leb new_images set_minute member values
discovered = refl

discover_images-IsFresh_example :
    (length (window ∷ []) ≤ 24)
    × All (IsFresh glm noon_calendar no_padding no_manifest listing tick) (window ∷ [])
discover_images-IsFresh_example =
    discover_images-IsFresh glm noon_calendar no_padding no_manifest listing tick (omega arith)
      discovered

anchors_covering-Covers_example :
    (contains two_pm (anchors_covering (5 * minute) (10 * minute) (two_pm + 7 * minute)) ≡ true)
    ↔ Covers (5 * minute) (10 * minute) (two_pm + 7 * minute) two_pm
anchors_covering-Covers_example =
    anchors_covering-Covers (5 * minute) (10 * minute) 12 (two_pm + 7 * minute) two_pm (omega arith)
      (omega arith) (omega arith)

-- With a step of 45 minutes, the file of 14:10 is not put in the window of 13:45 to 14:45.
misaligned :
    anchors_covering (45 * minute) (60 * minute) (two_pm + 10 * minute)
    ≡ two_pm ∷ (two_pm - 45 * minute) ∷ []
unfolding anchors_covering
misaligned = refl
