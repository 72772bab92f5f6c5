-- ===== src/Sources/Wrf.antt =====
-- src/data_sources/wrf.py: WrfDataSource, with parse_wrf_filename of src/models/wrf_config.py. Times are
-- microseconds; strptime and the repository's listing are parameters. A set is a list without repeats.
pub mod Runs
use mathlib.Core.List.{reverse}
use tiles_processor.Base.{
  ℕ, zero, suc, ◌+◌, ◌-◌, Bool, true, false, not, ◌&&◌, List, [], ◌∷◌, ◌++◌, map, Option, none,
  some, Text, codes, text_eq, starts_with, member, split_on, ltb, ◌==◌, if◌then◌else◌, length, take,
  drop, keep, text_leb, sort_by, Result, return, bind,
}
use tiles_processor.Producer.Discovery.{ImageInfo, DiscoveryConfig}
use tiles_processor.Producer.Tilesets.{until_sep}
use tiles_processor.Sources.Glm.Filename.{all_digits, digits_from}

pub record WrfName : Type 0 where
  pub field_type : Text
  pub init_tag : Text
  pub fxxx : Text
  pub fnum : ℕ

-- `s.isdigit()`, in ASCII.
abbrev pub is_number : Text → Bool
is_number [] = false
is_number (c ∷ s) = all_digits (c ∷ s)

unfoldable pub name_of : List Text → Option WrfName
name_of (p0 ∷ field_type ∷ p2 ∷ init_tag ∷ fxxx ∷ p5 ∷ p6 ∷ more) =
    if starts_with p0 (codes "WRF_") && (starts_with fxxx (codes "F") && is_number (drop 1 fxxx))
    then some (record {
      field_type = field_type;
      init_tag = init_tag;
      fxxx = fxxx;
      fnum = digits_from 0 (drop 1 fxxx);
    })
    else none
name_of _ = none

-- `none` for a ValueError.
unfoldable pub parse_wrf_filename : (filename : Text) → Option WrfName
unfolding name_of
parse_wrf_filename filename = name_of (split_on b'.' filename)

pub record WrfSource : Type 0 where
  pub product_id : Text
  pub skip_f000 : Bool
  pub s3_tiles_prefix : Text
  pub target_runs : ℕ
  pub max_age : ℕ

-- (init_tag, source_uri, image_id)
pub record Step : Type 0 where
  pub init_tag : Text
  pub source_uri : Text
  pub image_id : Text

-- A set's elements, each where it first came.
unfoldable pub set_of : (seen : List Text) → List Text → List Text
set_of seen [] = seen
set_of seen (t ∷ ts) = set_of (if member t seen then seen else seen ++ t ∷ []) ts

abbrev pub later_tag : Text → Text → Bool
later_tag s t = text_leb t s

unfoldable pub runs_newest_first : List Step → List Text
unfolding set_of
runs_newest_first steps = sort_by later_tag (set_of [] (map (λ s. s.init_tag) steps))

module _ (src : WrfSource) (parse_init_time : Text → Option ℕ) where
  unfoldable pub step_of : (cutoff : ℕ) → (source_uri : Text) → Option Step
  step_of cutoff source_uri = elim (parse_wrf_filename (until_sep b'/' [] (reverse source_uri))) [
    | none ↦ none
    | some name ↦ elim (parse_init_time name.init_tag) [
      | none ↦ none
      | some init_time ↦
          if name.fnum == 0 && src.skip_f000
          then none
          else if ltb init_time cutoff
          then none
          else some (record {
            init_tag = name.init_tag;
            source_uri = source_uri;
            image_id = src.product_id ++ (b'_' ∷ name.init_tag) ++ (b'_' ∷ name.fxxx);
          })
    ]
  ]

  unfoldable pub recent_steps : (source_uris : List Text) (cutoff : ℕ) → List Step
  recent_steps [] cutoff = []
  recent_steps (uri ∷ source_uris) cutoff = elim (step_of cutoff uri) [
    | none ↦ recent_steps source_uris cutoff
    | some step ↦ step ∷ recent_steps source_uris cutoff
  ]

  unfoldable pub to_image_info : Step → ImageInfo
  to_image_info step = record {
    image_id = step.image_id;
    source_uri = step.source_uri;
    data_source_id = codes "wrf_arg4k_" ++ src.product_id;
    processor_id = codes "wrf_arg4k";
    output_prefix = src.s3_tiles_prefix;
  }

  abbrev pub is_target : (allowed : List Text) → DiscoveryConfig → Step → Bool
  is_target allowed config step =
      member step.init_tag allowed
      && (not (member step.image_id config.existing_tilesets)
          && not (member step.image_id config.in_progress_images))

  unfoldable pub discover_images :
      (list_files : Result (List Text)) → DiscoveryConfig → Result (List ImageInfo)
  discover_images list_files config = bind list_files (λ source_uris.
      let steps = recent_steps source_uris (config.current_time - src.max_age) in
      let allowed = take src.target_runs (runs_newest_first steps) in
      return (map to_image_info (keep (is_target allowed config) steps)))
