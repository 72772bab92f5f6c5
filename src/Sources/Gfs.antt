-- ===== src/Sources/Gfs.antt =====
-- src/data_sources/gfs_producer_source.py and forecast_steps of src/models/gfs_config.py. A cycle is
-- the number of its hour since 1970, a time a number of microseconds; an age in hours is compared
-- without division. Formatting of dates and numbers, int() and the object store are parameters.
pub mod Selection
use mathlib.Core.List.{reverse}
use tiles_processor.Base.{
  ℕ, zero, suc, ◌+◌, ◌-◌, ◌*◌, ◌/◌, ◌%◌, Bool, true, false, not, ◌&&◌, ◌||◌, List, [], ◌∷◌, ◌++◌,
  map, Option, none, some, Text, codes, strip, remove_prefix, member, if◌then◌else◌, ◌==◌, ltb, leb,
  length, take, keep, contains, Result, return, raise,
}
use tiles_processor.Producer.Discovery.{ImageInfo, DiscoveryConfig}
use tiles_processor.Producer.Tilesets.{until_sep}

abbrev pub hour : ℕ
hour = 3600000000

-- `range(start, start + count * step, step)`
unfoldable pub range : (start step count : ℕ) → List ℕ
range start step zero = []
range start step (suc count) = start ∷ range (start + step) step count

-- 0, 3, …, 48 and then 54, 60, …, 144.
unfoldable pub forecast_steps : List ℕ
unfolding range
forecast_steps = range 0 3 17 ++ range 54 6 16

abbrev pub is_cycle_hour : ℕ → Bool
is_cycle_hour h = h == 0 || (h == 6 || (h == 12 || h == 18))

-- The loop of _candidate_cycles, with `left` rounds to go.
unfoldable pub probe_cycles : (cycles_to_maintain left probe : ℕ) → (cycles : List ℕ) → List ℕ
unfolding contains
probe_cycles n zero probe cycles = cycles
probe_cycles n (suc left) probe cycles =
    let found = if contains probe cycles then cycles else cycles ++ probe ∷ [] in
    let rest = probe_cycles n left (probe - 1) found in
    let skip = probe_cycles n left (probe - 1) cycles in
    if is_cycle_hour (probe % 24) then (if leb n (length found) then found else rest) else skip

unfoldable pub candidate_cycles : (cycles_to_maintain : ℕ) → (now : ℕ) → List ℕ
candidate_cycles n now = probe_cycles n 48 (now / hour) []

-- The text after the last "_f".
after_marker : Text → Option Text
after_marker [] = none
after_marker (c ∷ s) = elim (after_marker s) [
  | none ↦ strip (codes "_f") (c ∷ s)
  | some found ↦ some found
]

pub record GfsProducer : Type 0 where
  pub cycles_to_maintain : ℕ
  pub max_steps_per_tick : ℕ
  pub probe_from_hours : ℕ
  pub probe_to_hours : ℕ

module _ (p : GfsProducer) (fmt_cycle : ℕ → Text) (format_03d : ℕ → Text)
    (source_uri : ℕ → ℕ → Text) (int : Text → Option ℕ)
    (list_files : (directory_path file_pattern : Text) → Result (List Text)) where
  abbrev pub image_id : (cycle step : ℕ) → Text
  image_id cycle step = fmt_cycle cycle ++ codes "_f" ++ format_03d step

  abbrev pub prefix_of : (cycle : ℕ) → Text
  prefix_of cycle = codes "grib/gfs/" ++ fmt_cycle cycle

  pub step_from_key : Text → Option ℕ
  unfolding until_sep after_marker remove_prefix
  step_from_key key =
      let stem = until_sep b'/' [] (reverse key) in
      let bare = reverse (remove_prefix (reverse stem) (reverse (codes ".grib2"))) in
      elim (after_marker bare) [ none ↦ none | some digits ↦ int digits ]

  -- The keys that have a step.
  pub steps_of : List Text → List ℕ
  unfolding step_from_key
  steps_of [] = []
  steps_of (key ∷ keys) = elim (step_from_key key) [
    | none ↦ steps_of keys
    | some step ↦ step ∷ steps_of keys
  ]

  -- A failed listing counts as an empty one.
  abbrev pub cached_steps : (cycle : ℕ) → List ℕ
  unfolding steps_of
  cached_steps cycle = elim (list_files (prefix_of cycle ++ codes "/") (codes ".grib2")) [
    | return keys ↦ steps_of keys
    | raise _ ↦ []
  ]

  abbrev pub to_image_info : (cycle step : ℕ) → ImageInfo
  to_image_info cycle step = record {
    image_id = image_id cycle step;
    source_uri = source_uri cycle step;
    data_source_id = codes "gfs_producer";
    processor_id = codes "gfs_grib_download";
    output_prefix = prefix_of cycle;
  }

  abbrev pub is_missing : DiscoveryConfig → (cycle step : ℕ) → Bool
  is_missing config cycle step =
      not (contains step (cached_steps cycle))
      && not (member (image_id cycle step) config.in_progress_images)

  abbrev pub is_empty : List ℕ → Bool
  is_empty [] = true
  is_empty (x ∷ xs) = false

  pub discover_cycle : (cycle : ℕ) → DiscoveryConfig → (budget : ℕ) → List ImageInfo
  discover_cycle cycle config budget =
      let now = config.current_time in
      if ltb now (cycle * hour + p.probe_from_hours * hour)
      then []
      else if ltb (cycle * hour + p.probe_to_hours * hour) now && is_empty (cached_steps cycle)
      then []
      else map (to_image_info cycle) (take budget (keep (is_missing config cycle) forecast_steps))

  -- The `for` over the candidates; it stops once the cap is reached.
  pub discover_cycles :
      DiscoveryConfig → (cycles : List ℕ) → (emitted : List ImageInfo) → List ImageInfo
  discover_cycles config [] emitted = emitted
  discover_cycles config (cycle ∷ cycles) emitted =
      let budget = p.max_steps_per_tick - length emitted in
      let more = discover_cycles config cycles (emitted ++ discover_cycle cycle config budget) in
      if budget == 0 then emitted else more

  unfoldable pub discover_images : DiscoveryConfig → List ImageInfo
  discover_images config =
      discover_cycles config (candidate_cycles p.cycles_to_maintain config.current_time) []
