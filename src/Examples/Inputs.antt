-- ===== src/Examples/Inputs.antt =====
-- An input that reads one bucket of an S3 store.
use tiles_processor.Base.{
  ◌≡◌, refl, true, [], Option, none, some, Text, codes, Result, return, member, starts_with, strip,
  lower, text_eq,
}
use tiles_processor.Settings.Endpoints.{
  Url, drop_while, rstrip, strip_of, with_slash, normalize_s3_prefix, with_bucket, partition,
  split_s3_bucket_uri, has_url_scheme, has_space, names_scheme, check_url, complete, endpoint_of,
  normalize_s3_endpoint_url,
}
use tiles_processor.Settings.Inputs.{
  Input, InputSourceConfig, Defaults, parse_input_mode, prefix_of, located, bucket_of,
  parse_input_bucket, input_credentials, without_slash, absolute, parse_input_dir,
  parse_addressing_style, parse_key_template, endpoint_url, validate_input_endpoint,
  parse_input_source,
}
use tiles_processor.Settings.Inputs.Accepted.{IsAccepted, parse_input_source-IsAccepted}

abbrev sinarame : Defaults
sinarame = record {
  json_key = codes "radar-sinarame";
  env_prefix = some (codes "RADAR");
  default_dir = codes "/data/radar/";
  default_mode = codes "local";
  default_bucket = none;
  extra_modes = [];
}

abbrev from_s3 : Input
from_s3 = record {
  mode = some (codes "s3");
  dir = none;
  s3_bucket = some (codes "S3://smn/radar/");
  s3_endpoint = some (codes "https://store/");
  s3_prefix = none;
  s3_secure = some true;
  s3_region = none;
  s3_addressing_style = none;
  s3_key_template = some (codes "{station}");
}

abbrev urlparse : Text → Result Url
urlparse url =
    return (record { scheme = codes "https"; netloc = codes "store"; query = []; fragment = [] })

abbrev getenv : Text → Option Text
getenv name = some (codes "key")

abbrev accepted : InputSourceConfig
accepted = record {
  mode = codes "s3";
  input_dir = codes "/data/radar";
  input_dir_origin = codes "default";
  s3_bucket = some (codes "smn");
  s3_endpoint = some (codes "https://store/");
  s3_prefix = codes "radar/";
  s3_secure = true;
  s3_access_key = some (codes "key");
  s3_secret_key = some (codes "key");
  s3_region = none;
  s3_addressing_style = codes "path";
  s3_key_template = some (codes "{station}");
}

parsed : parse_input_source urlparse (λ template. true) getenv sinarame from_s3 ≡ return accepted
unfolding parse_input_source parse_input_mode parse_input_bucket bucket_of located
    split_s3_bucket_uri with_bucket partition prefix_of normalize_s3_prefix with_slash strip_of
    rstrip drop_while input_credentials parse_input_dir absolute without_slash
    parse_addressing_style parse_key_template validate_input_endpoint endpoint_url
    normalize_s3_endpoint_url endpoint_of complete check_url names_scheme has_space has_url_scheme
    member starts_with strip lower text_eq
parsed = refl

parse_input_source-IsAccepted_example :
    IsAccepted urlparse (λ template. true) getenv sinarame from_s3 accepted
parse_input_source-IsAccepted_example =
    parse_input_source-IsAccepted urlparse (λ template. true) getenv sinarame from_s3 accepted
      parsed
