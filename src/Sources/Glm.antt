-- ===== src/Sources/Glm.antt =====
-- src/data_sources/goes19_glm.py: Goes19GlmDataSource. Times and durations are microseconds; the
-- cadence and the length of a window are minutes. The repository's listing, json.dumps and the
-- calendar of datetime are parameters. A dictionary is the list of its entries.
pub mod Filename
pub mod Anchors
pub mod Minutes
pub mod Windows
use mathlib.Core.List.{reverse}
use tiles_processor.Base.{
  ℕ, zero, suc, ◌+◌, ◌-◌, ◌*◌, ◌/◌, ◌%◌, Bool, true, false, ◌&&◌, List, [], ◌∷◌, ◌++◌, Option, none,
  some, Text, codes, member, leb, ltb, ◌==◌, if◌then◌else◌, length, take, text_leb, sort_by,
  Exception, Kind, Result, return, raise, bind, value_error,
}
use tiles_processor.Producer.Discovery.{ImageInfo, DiscoveryConfig}
use tiles_processor.Producer.Tilesets.{until_sep}
use Filename.{parse_goes19_glm_filename}

abbrev pub minute : ℕ
minute = 60000000

abbrev pub hour : ℕ
hour = 3600000000

pub record GlmSource : Type 0 where
  pub accum_minutes : ℕ
  pub produce_every_minutes : ℕ
  pub safety_lag : ℕ
  pub target_windows : ℕ
  pub max_age : ℕ
  pub s3_tiles_prefix : Text

abbrev pub default : Option ℕ → ℕ → ℕ
default none d = d
default (some n) d = n

abbrev bad : Exception
bad = record { kind = value_error; message = codes "must be positive" }

abbrev pub new_source :
    (s3_tiles_prefix : Text) (accum_minutes produce_every_minutes : ℕ)
    (safety_lag_seconds target_windows max_age_minutes : Option ℕ)
    → Result GlmSource
new_source s3_tiles_prefix accum_minutes produce_every_minutes safety_lag_seconds target_windows
      max_age_minutes =
    if accum_minutes == 0
    then raise bad
    else if produce_every_minutes == 0
    then raise bad
    else return (record {
      accum_minutes = accum_minutes;
      produce_every_minutes = produce_every_minutes;
      safety_lag = default safety_lag_seconds 30 * 1000000;
      target_windows = default target_windows 24;
      max_age = default max_age_minutes 270 * minute;
      s3_tiles_prefix = s3_tiles_prefix;
    })

-- The `while` of _anchors_covering, in rounds.
unfoldable pub walk : (step accum file_start rounds anchor : ℕ) → List ℕ
walk step accum file_start zero anchor = []
walk step accum file_start (suc rounds) anchor =
    let earlier = walk step accum file_start rounds (anchor - step) in
    if leb anchor file_start && ltb file_start (anchor + accum) then anchor ∷ earlier else []

-- An anchor falls by a step of at least one each round, so `accum` rounds and one more are enough.
unfoldable pub anchors_covering : (step accum file_start : ℕ) → List ℕ
unfolding walk
anchors_covering step accum file_start =
    let anchored_to_hour = file_start - file_start % hour in
    let delta = file_start % hour in
    walk step accum file_start (suc accum) (anchored_to_hour + step * (delta / step))

-- `windows[anchor].append(uri)`
unfoldable pub append_to : (anchor : ℕ) (uri : Text) → List (ℕ × List Text) → List (ℕ × List Text)
append_to anchor uri [] = (anchor, uri ∷ []) ∷ []
append_to anchor uri ((a, files) ∷ windows) =
    if a == anchor
    then (a, files ++ uri ∷ []) ∷ windows
    else (a, files) ∷ append_to anchor uri windows

unfoldable pub append_all :
    (anchors : List ℕ) (uri : Text) → List (ℕ × List Text) → List (ℕ × List Text)
unfolding append_to
append_all [] uri windows = windows
append_all (anchor ∷ anchors) uri windows = append_all anchors uri (append_to anchor uri windows)

-- `by_minute[minute] = uri`
unfoldable pub set_minute : (m : ℕ) (uri : Text) → List (ℕ × Text) → List (ℕ × Text)
set_minute m uri [] = (m, uri) ∷ []
set_minute m uri ((k, old) ∷ entries) =
    if k == m then (k, uri) ∷ entries else (k, old) ∷ set_minute m uri entries

unfoldable pub values : List (ℕ × Text) → List Text
values [] = []
values ((k, uri) ∷ entries) = uri ∷ values entries

abbrev pub is_value_error : Kind → Bool
is_value_error value_error = true
is_value_error _ = false

-- The start of the file `Path(uri).name`.
unfoldable pub start_of : (uri : Text) → Result ℕ
unfolding parse_goes19_glm_filename until_sep
start_of uri =
    bind (parse_goes19_glm_filename (until_sep b'/' [] (reverse uri)))
      (λ parts. return parts.start_dt)

-- Over the sorted files.
unfoldable pub newest : List Text → (by_minute : List (ℕ × Text)) → Result (List (ℕ × Text))
newest [] by_minute = return by_minute
newest (uri ∷ files) by_minute =
    bind (start_of uri) (λ t. newest files (set_minute (t - t % minute) uri by_minute))

unfoldable pub one_file_per_minute : (files : List Text) → Result (List (ℕ × Text))
one_file_per_minute files = newest (sort_by text_leb files) []

-- `sort(key=lambda item: item[0], reverse=True)`
abbrev pub later_first : ℕ × List Text → ℕ × List Text → Bool
later_first v w = leb w.0 v.0

-- What `window_start.timetuple()` answers.
pub record Calendar : Type 0 where
  pub year : ℕ
  pub yday : ℕ
  pub hours : ℕ
  pub minutes : ℕ
  pub seconds : ℕ

module _ (src : GlmSource) (calendar : ℕ → Calendar) (padded : (width n : ℕ) → Text)
    (manifest : (window_start : ℕ) → (files : List Text) → Text) where
  open src use {
    accum_minutes, produce_every_minutes, safety_lag, target_windows, max_age, s3_tiles_prefix,
  }

  abbrev pub accum : ℕ
  accum = accum_minutes * minute

  abbrev pub anchors_of : ℕ → List ℕ
  anchors_of t = anchors_covering (produce_every_minutes * minute) accum t

  unfoldable pub window_image_id : (window_start : ℕ) → Text
  window_image_id window_start =
      let c = calendar window_start in
      padded 4 c.year
      ++ (padded 3 c.yday
          ++ (padded 2 c.hours ++ (padded 2 c.minutes ++ (padded 2 c.seconds ++ codes "0"))))

  unfoldable pub group_into_windows :
      (cutoff : ℕ) (source_uris : List Text) (windows : List (ℕ × List Text))
      → Result (List (ℕ × List Text))
  group_into_windows cutoff [] windows = return windows
  group_into_windows cutoff (uri ∷ source_uris) windows = elim (start_of uri) [
    | raise e ↦
        if is_value_error e.kind then group_into_windows cutoff source_uris windows else raise e
    | return t ↦
        group_into_windows cutoff source_uris
          (if ltb t cutoff then windows else append_all (anchors_of t) uri windows)
  ]

  -- The window is appended if every one of its minutes has a file.
  abbrev pub keep_complete :
      (anchor : ℕ) (by_minute : List (ℕ × Text)) → List (ℕ × List Text) → List (ℕ × List Text)
  keep_complete anchor by_minute ready =
      if length by_minute == accum_minutes
      then (anchor, sort_by text_leb (values by_minute)) ∷ ready
      else ready

  unfoldable pub select_complete_ready_windows :
      (current_time : ℕ) → List (ℕ × List Text) → Result (List (ℕ × List Text))
  select_complete_ready_windows current_time [] = return []
  select_complete_ready_windows current_time ((anchor, files) ∷ windows) =
      let rest = select_complete_ready_windows current_time windows in
      if ltb (current_time - safety_lag) (anchor + accum)
      then rest
      else bind (one_file_per_minute files)
          (λ by_minute. bind rest (λ ready. return (keep_complete anchor by_minute ready)))

  unfoldable pub to_image : (window_start : ℕ) (files : List Text) → ImageInfo
  unfolding window_image_id
  to_image window_start files = record {
    image_id = window_image_id window_start;
    source_uri = manifest window_start files;
    data_source_id = codes "goes19_glm";
    processor_id = codes "goes19_glm_fed";
    output_prefix = s3_tiles_prefix;
  }

  -- The loop over the complete windows.
  unfoldable pub new_images : DiscoveryConfig → List (ℕ × List Text) → List ImageInfo
  new_images config [] = []
  new_images config ((window_start, files) ∷ complete) =
      let more = new_images config complete in
      let image_id = window_image_id window_start in
      if member image_id config.existing_tilesets
      then more
      else if member image_id config.in_progress_images
      then more
      else to_image window_start files ∷ more

  unfoldable pub discover_images :
      (list_files : Result (List Text)) → DiscoveryConfig → Result (List ImageInfo)
  discover_images list_files config = bind list_files (λ source_uris.
      bind (group_into_windows (config.current_time - max_age) source_uris []) (λ windows.
        bind (select_complete_ready_windows config.current_time windows)
          (λ ready. return (new_images config (take target_windows (sort_by later_first ready))))))
