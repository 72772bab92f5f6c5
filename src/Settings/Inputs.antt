-- ===== src/Settings/Inputs.antt =====
-- src/config.py: _parse_input_source and its helpers. `input` is the object of that name in the
-- settings, whose values have the types that they are documented with; `getenv` reads the environment.
-- The warnings are left out.
pub mod Locations
pub mod Paths
pub mod Accepted
use tiles_processor.Base.{
  lower, upper, ℕ, Bool, true, false, not, ◌&&◌, ◌||◌, List, [], ◌∷◌, ◌++◌, Option, none, some,
  Text, codes, text_eq, member, starts_with, ◌==◌, if◌then◌else◌, Exception, Result, return, raise,
  bind,
}
use tiles_processor.Settings.Endpoints.{
  refused, is_space, is_slash, rstrip, strip_of, normalize_s3_prefix, split_s3_bucket_uri,
  has_url_scheme, Url, normalize_s3_endpoint_url,
}

pub record Input : Type 0 where
  pub mode : Option Text
  pub dir : Option Text
  pub s3_bucket : Option Text
  pub s3_endpoint : Option Text
  pub s3_prefix : Option Text
  pub s3_secure : Option Bool
  pub s3_region : Option Text
  pub s3_addressing_style : Option Text
  pub s3_key_template : Option Text

pub record InputSourceConfig : Type 0 where
  pub mode : Text
  pub input_dir : Text
  pub input_dir_origin : Text
  pub s3_bucket : Option Text
  pub s3_endpoint : Option Text
  pub s3_prefix : Text
  pub s3_secure : Bool
  pub s3_access_key : Option Text
  pub s3_secret_key : Option Text
  pub s3_region : Option Text
  pub s3_addressing_style : Text
  pub s3_key_template : Option Text

-- What one source passes besides its settings.
pub record Defaults : Type 0 where
  pub json_key : Text
  pub env_prefix : Option Text
  pub default_dir : Text
  pub default_mode : Text
  pub default_bucket : Option Text
  pub extra_modes : List Text

-- `value or None`
abbrev pub or_none : Option Text → Option Text
or_none none = none
or_none (some []) = none
or_none (some (c ∷ s)) = some (c ∷ s)

-- `get(key, default)`
abbrev pub get_or : {A : Type 0} → A → Option A → A
get_or default none = default
get_or default (some v) = v

abbrev pub local_mode : Text
local_mode = codes "local"

abbrev pub s3_mode : Text
s3_mode = codes "s3"

abbrev pub allowed_modes : Defaults → List Text
allowed_modes d = local_mode ∷ s3_mode ∷ d.extra_modes

unfoldable pub parse_input_mode : Defaults → Input → Result Text
parse_input_mode d inp =
    let mode = get_or d.default_mode inp.mode in
    if member mode (allowed_modes d) then return mode else raise (refused (codes "input.mode"))

-- `s3_bucket`, or the default if the key is missing.
abbrev pub raw_bucket_of : Defaults → Input → Option Text
raw_bucket_of d inp =
    get_or d.default_bucket (elim inp.s3_bucket [ none ↦ none | some b ↦ some (some b) ])

unfoldable pub prefix_of : (uri_prefix explicit_prefix : Text) → Result Text
unfolding normalize_s3_prefix
prefix_of [] explicit_prefix = return (normalize_s3_prefix explicit_prefix)
prefix_of (c ∷ uri_prefix) [] = return (normalize_s3_prefix (c ∷ uri_prefix))
prefix_of (c ∷ uri_prefix) (d ∷ explicit_prefix) =
    raise (refused (codes "input sets a prefix twice"))

unfoldable pub located : (explicit_prefix raw_bucket : Text) → Result (Option Text × Text)
unfolding split_s3_bucket_uri prefix_of
located explicit_prefix raw_bucket =
    bind (split_s3_bucket_uri raw_bucket)
      (λ found. bind (prefix_of found.1 explicit_prefix) (λ prefix. return (some found.0, prefix)))

unfoldable pub bucket_of :
    (mode explicit_prefix : Text) → (raw_bucket : Option Text) → Result (Option Text × Text)
unfolding located normalize_s3_prefix
bucket_of mode explicit_prefix none =
    if text_eq mode s3_mode
    then raise (refused (codes "input.s3_bucket"))
    else return (none, normalize_s3_prefix explicit_prefix)
bucket_of mode explicit_prefix (some []) =
    if text_eq mode s3_mode
    then raise (refused (codes "input.s3_bucket"))
    else located explicit_prefix []
bucket_of mode explicit_prefix (some (c ∷ raw_bucket)) = located explicit_prefix (c ∷ raw_bucket)

unfoldable pub parse_input_bucket : Defaults → Input → (mode : Text) → Result (Option Text × Text)
unfolding bucket_of
parse_input_bucket d inp mode = bucket_of mode (get_or [] inp.s3_prefix) (raw_bucket_of d inp)

-- `env_prefix or json_key.upper()`
unfoldable pub env_prefix_of : Defaults → Text
env_prefix_of d = elim (or_none d.env_prefix) [ none ↦ upper d.json_key | some p ↦ p ]

unfoldable pub input_credentials :
    (getenv : Text → Option Text) → (env_prefix : Text) → Result (Option Text × Option Text)
input_credentials getenv env_prefix =
    let access_key = or_none (getenv (env_prefix ++ codes "_S3_ACCESS_KEY")) in
    let secret_key = or_none (getenv (env_prefix ++ codes "_S3_SECRET_KEY")) in
    elim access_key [
      | none ↦ elim secret_key [
        | none ↦ return (none, none)
        | some s ↦ raise (refused (codes "credentials"))
      ]
      | some a ↦ elim secret_key [
        | none ↦ raise (refused (codes "credentials"))
        | some s ↦ return (some a, some s)
      ]
    ]

-- `value.rstrip("/") or "/"`
unfoldable pub without_slash : Text → Text
unfolding rstrip
without_slash value = elim (rstrip is_slash value) [ [] ↦ b'/' ∷ [] | c ∷ s ↦ c ∷ s ]

unfoldable pub absolute : (value origin : Text) → Result (Text × Text)
unfolding without_slash
absolute value origin =
    if starts_with value (b'/' ∷ [])
    then return (without_slash value, origin)
    else raise (refused (codes "input.dir"))

unfoldable pub parse_input_dir : Defaults → Input → Result (Text × Text)
unfolding absolute strip_of
parse_input_dir d inp = elim (strip_of is_space (get_or [] inp.dir)) [
  | [] ↦ absolute d.default_dir (codes "default")
  | c ∷ s ↦ absolute (c ∷ s) (codes "settings")
]

abbrev pub addressing_styles : List Text
addressing_styles = codes "path" ∷ codes "virtual" ∷ codes "auto" ∷ []

unfoldable pub parse_addressing_style : Input → Result Text
parse_addressing_style inp =
    let style = get_or (codes "path") inp.s3_addressing_style in
    if member style addressing_styles
    then return style
    else raise (refused (codes "input.s3_addressing_style"))

abbrev pub key_template_sources : List Text
key_template_sources = codes "radar-sinarame" ∷ codes "radar-inta" ∷ []

-- `is_valid` is whether validate_key_template takes the template.
unfoldable pub parse_key_template :
    (is_valid : Text → Bool) → Defaults → Input → Result (Option Text)
parse_key_template is_valid d inp = elim (or_none inp.s3_key_template) [
  | none ↦ return none
  | some template ↦
      if not (member d.json_key key_template_sources)
      then raise (refused (codes "input.s3_key_template"))
      else if is_valid template
      then return (some template)
      else raise (refused (codes "input.s3_key_template"))
]

-- Whether an explicit s3_secure contradicts the scheme of the endpoint.
abbrev pub disagrees : (secure : Option Bool) (endpoint : Option Text) → Bool
disagrees none endpoint = false
disagrees (some secure) none = false
disagrees (some true) (some endpoint) =
    has_url_scheme endpoint && not (starts_with (lower endpoint) (codes "https://"))
disagrees (some false) (some endpoint) =
    has_url_scheme endpoint && starts_with (lower endpoint) (codes "https://")

unfoldable pub endpoint_url :
    (urlparse : Text → Result Url) → InputSourceConfig → Result (Option Text)
endpoint_url urlparse src = normalize_s3_endpoint_url urlparse src.s3_endpoint src.s3_secure

unfoldable pub validate_input_endpoint :
    (urlparse : Text → Result Url) → InputSourceConfig → Input → Result Unit
unfolding endpoint_url
validate_input_endpoint urlparse src inp =
    if disagrees inp.s3_secure src.s3_endpoint
    then raise (refused (codes "s3_secure"))
    else bind (endpoint_url urlparse src) (λ _. return tt)

abbrev pub input_source_of :
    Input
    → (mode : Text) (bucket : Option Text × Text) (keys : Option Text × Option Text)
      (dir : Text × Text) (style : Text)
    → (template : Option Text) → InputSourceConfig
input_source_of inp mode bucket keys dir style template = record {
  mode = mode;
  input_dir = dir.0;
  input_dir_origin = dir.1;
  s3_bucket = bucket.0;
  s3_endpoint = or_none inp.s3_endpoint;
  s3_prefix = bucket.1;
  s3_secure = get_or false inp.s3_secure;
  s3_access_key = keys.0;
  s3_secret_key = keys.1;
  s3_region = or_none inp.s3_region;
  s3_addressing_style = style;
  s3_key_template = template;
}

unfoldable pub parse_input_source :
    (urlparse : Text → Result Url) (is_valid : Text → Bool) (getenv : Text → Option Text)
    → Defaults
    → Input
    → Result InputSourceConfig
unfolding env_prefix_of parse_input_mode parse_input_bucket input_credentials parse_input_dir
    parse_addressing_style parse_key_template validate_input_endpoint
parse_input_source urlparse is_valid getenv d inp = bind (parse_input_mode d inp) (λ mode.
    bind (parse_input_bucket d inp mode) (λ bucket.
      bind (input_credentials getenv (env_prefix_of d)) (λ keys.
        bind (parse_input_dir d inp) (λ dir. bind (parse_addressing_style inp) (λ style.
          bind (parse_key_template is_valid d inp) (λ template.
            let source = input_source_of inp mode bucket keys dir style template in
            bind (validate_input_endpoint urlparse source inp) (λ _. return source)))))))
