-- ===== src/Retention.antt =====
-- src/models/lifecycle_config.py, and configure_lifecycle_policy of src/clients/s3_client.py. A map from
-- prefixes to days is a list of pairs; a setting is what JSON has for it, and
-- `missing` also where that is null. The messages of the exceptions are cut short.
pub mod Settings
pub mod Rules
use tiles_processor.Base.{
  ℕ, Bool, true, false, not, ◌&&◌, ◌||◌, List, [], ◌∷◌, ◌++◌, map, Option, none, some, Text, codes,
  text_eq, text_leb, member, leb, ltb, if◌then◌else◌, ◌==◌, sort_by, Exec, Exception, Kind, Result,
  return, raise, value_error, pure, throw, lift, gets, modify, branch, try_except, ◌>>=◌, ◌>>◌,
}
use tiles_processor.Store.Client.{S3Client, on_world}
use tiles_processor.Store.Client.Aws.{Gateway, Rule}

-- Whole numbers from 0 on; `other` is anything else, as a boolean, a negative number or None.
pub data Scalar : Type 0 where
  whole : (days : ℕ) → Scalar
  other : Scalar

-- `retention_days` of a source: missing, one value, or an object.
pub data Setting : Type 0 where
  missing : Setting
  uniform : Scalar → Setting
  by_kind : List (Text × Scalar) → Setting

-- SOURCE_LIFECYCLE_PREFIXES
abbrev pub source_lifecycle_prefixes : List (Text × List (Text × Text))
source_lifecycle_prefixes =
    (
      codes "goes19-abi",
      (codes "tiles", codes "tiles/goes19/abi") ∷ (codes "cog", codes "cog/goes19/abi") ∷ [],
    )
    ∷ (
      codes "goes19-glm",
      (codes "tiles", codes "tiles/goes19/glm") ∷ (codes "cog", codes "cog/goes19/glm") ∷ [],
    )
    ∷ (
      codes "radar-sinarame",
      (codes "tiles", codes "tiles/radar/sinarame")
          ∷ (codes "cog", codes "cog/radar/sinarame")
          ∷ [],
    )
    ∷ (
      codes "radar-inta",
      (codes "tiles", codes "tiles/radar/inta") ∷ (codes "cog", codes "cog/radar/inta") ∷ [],
    )
    ∷ (
      codes "wrf-arg4k",
      (codes "tiles", codes "tiles/wrf-arg4k")
          ∷ (codes "cog", codes "cog/wrf-arg4k")
          ∷ (codes "geojson", codes "geojson/wrf-arg4k")
          ∷ [],
    )
    ∷ (
      codes "ecmwf-ifs",
      (codes "tiles", codes "tiles/ecmwf-ifs")
          ∷ (codes "cog", codes "cog/ecmwf-ifs")
          ∷ (codes "geojson", codes "geojson/ecmwf-ifs")
          ∷ (codes "grib", codes "grib/ecmwf-ifs")
          ∷ [],
    )
    ∷ (
      codes "gfs",
      (codes "tiles", codes "tiles/gfs")
          ∷ (codes "cog", codes "cog/gfs")
          ∷ (codes "geojson", codes "geojson/gfs")
          ∷ (codes "grib", codes "grib/gfs")
          ∷ [],
    )
    ∷ []

abbrev pub output_kinds : List Text
output_kinds = codes "tiles" ∷ codes "cog" ∷ codes "geojson" ∷ codes "grib" ∷ []

abbrev pub default_retention_days : ℕ
default_retention_days = 1

-- `raw.get(key)`
unfoldable pub get : Text → List (Text × Scalar) → Option Scalar
get key [] = none
get key ((k, value) ∷ raw) = if text_eq k key then some value else get key raw

abbrev pub invalid : Exception
invalid = record { kind = value_error; message = codes "retention_days" }

unfoldable pub validate_days : Scalar → Result ℕ
validate_days (whole days) = if ltb days 1 then raise invalid else return days
validate_days other = raise invalid

unfoldable pub has_unknown_kinds : List (Text × Scalar) → Bool
has_unknown_kinds [] = false
has_unknown_kinds ((k, value) ∷ raw) =
    not (member k output_kinds || text_eq k (codes "default")) || has_unknown_kinds raw

unfoldable pub days_for : Setting → (kind : Text) → Result ℕ
unfolding validate_days get has_unknown_kinds
days_for missing kind = return default_retention_days
days_for (uniform raw) kind = validate_days raw
days_for (by_kind raw) kind = if has_unknown_kinds raw then raise invalid else elim (get kind raw) [
  | some days ↦ validate_days days
  | none ↦ elim (get (codes "default") raw) [
    | some days ↦ validate_days days
    | none ↦ validate_days (whole default_retention_days)
  ]
]

abbrev pub RetentionMap : Type 0
RetentionMap = List (Text × ℕ)

-- `resolved[prefix] = days`
unfoldable pub set_days : (prefix : Text) (days : ℕ) → RetentionMap → RetentionMap
set_days prefix days [] = (prefix, days) ∷ []
set_days prefix days ((p, old) ∷ resolved) =
    if text_eq p prefix then (p, days) ∷ resolved else (p, old) ∷ set_days prefix days resolved

-- The inner loop, over the kinds of one source, and the outer one.
unfoldable pub resolve_kinds : (raw : Setting) → List (Text × Text) → Exec RetentionMap Unit
unfolding days_for set_days
resolve_kinds raw [] = pure tt
resolve_kinds raw ((kind, prefix) ∷ kind_prefixes) = do
  days ← lift (days_for raw kind)
  modify (set_days prefix days)
  resolve_kinds raw kind_prefixes

unfoldable pub resolve_sources :
    (sources_cfg : Text → Setting) → List (Text × List (Text × Text)) → Exec RetentionMap Unit
unfolding resolve_kinds
resolve_sources sources_cfg [] = pure tt
resolve_sources sources_cfg ((source, kind_prefixes) ∷ sources) = do
  resolve_kinds (sources_cfg source) kind_prefixes
  resolve_sources sources_cfg sources

unfoldable pub resolve_retention_map : (sources_cfg : Text → Setting) → Result RetentionMap
unfolding resolve_sources
resolve_retention_map sources_cfg =
    ((do resolve_sources sources_cfg source_lifecycle_prefixes; gets (λ resolved. resolved)) []).0

-- The order of pairs.
unfoldable pub pair_leb : Text × ℕ → Text × ℕ → Bool
pair_leb (p, d) (q, e) = if text_eq p q then leb d e else text_leb p q

-- `prefix.replace("/", "-")`
unfoldable pub dashed : Text → Text
dashed [] = []
dashed (c ∷ s) = (if c == b'/' then b'-' else c) ∷ dashed s

unfoldable pub rule_of : Text × ℕ → Rule
rule_of (prefix, days) = record {
  rule_id = codes "expire-" ++ dashed prefix;
  days = if leb 1 days then days else 1;
  prefix = prefix;
}

unfoldable pub build_lifecycle_rules : RetentionMap → List Rule
unfolding pair_leb rule_of dashed
build_lifecycle_rules retention_map = map rule_of (sort_by pair_leb retention_map)

unfoldable pub configure_lifecycle_policy : (g : Gateway) → RetentionMap → Exec (S3Client g) Bool
unfolding build_lifecycle_rules
configure_lifecycle_policy g retention_map =
    try_except
      (do
        on_world g (g.put_bucket_lifecycle_configuration (build_lifecycle_rules retention_map))
        pure true)
      (λ e. pure false)
