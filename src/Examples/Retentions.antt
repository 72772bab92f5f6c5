-- ===== src/Examples/Retentions.antt =====
-- Settings for one source only, of ten days but for its GRIBs.
use tiles_processor.Base.{
  ◌≡◌, refl, [], ◌∷◌, Text, codes, text_eq, if◌then◌else◌, member, All, return,
}
use tiles_processor.Retention.{
  Setting, missing, by_kind, whole, source_lifecycle_prefixes, RetentionMap, resolve_retention_map,
  build_lifecycle_rules, resolve_sources, resolve_kinds, days_for, set_days, validate_days,
  has_unknown_kinds, get,
}
use tiles_processor.Retention.Settings.{all_rows}
use tiles_processor.Retention.Rules.{IsRuled, build_lifecycle_rules-IsRuled}

abbrev settings : Text → Setting
settings source =
    if text_eq source (codes "gfs")
    then by_kind ((codes "default", whole 10) ∷ (codes "grib", whole 2) ∷ [])
    else missing

abbrev resolved : RetentionMap
resolved =
    (codes "tiles/goes19/abi", 1)
    ∷ (codes "cog/goes19/abi", 1)
    ∷ (codes "tiles/goes19/glm", 1)
    ∷ (codes "cog/goes19/glm", 1)
    ∷ (codes "tiles/radar/sinarame", 1)
    ∷ (codes "cog/radar/sinarame", 1)
    ∷ (codes "tiles/radar/inta", 1)
    ∷ (codes "cog/radar/inta", 1)
    ∷ (codes "tiles/wrf-arg4k", 1)
    ∷ (codes "cog/wrf-arg4k", 1)
    ∷ (codes "geojson/wrf-arg4k", 1)
    ∷ (codes "tiles/ecmwf-ifs", 1)
    ∷ (codes "cog/ecmwf-ifs", 1)
    ∷ (codes "geojson/ecmwf-ifs", 1)
    ∷ (codes "grib/ecmwf-ifs", 1)
    ∷ (codes "tiles/gfs", 10)
    ∷ (codes "cog/gfs", 10)
    ∷ (codes "geojson/gfs", 10)
    ∷ (codes "grib/gfs", 2)
    ∷ []

accepted : resolve_retention_map settings ≡ return resolved
unfolding resolve_retention_map resolve_sources resolve_kinds days_for set_days validate_days
    has_unknown_kinds get text_eq member
accepted = refl

build_lifecycle_rules-IsRuled_example :
    All (IsRuled settings (build_lifecycle_rules resolved)) (all_rows source_lifecycle_prefixes)
build_lifecycle_rules-IsRuled_example = build_lifecycle_rules-IsRuled settings resolved accepted
