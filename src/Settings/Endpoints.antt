-- ===== src/Settings/Endpoints.antt =====
-- src/models/input_source_config.py: endpoints, bucket URIs and prefixes. White space and letters are
-- those of ASCII; urlparse is a parameter. The messages of the exceptions only name what was refused.
use mathlib.Core.List.{reverse}
use tiles_processor.Base.{
  lower, is_letter, ℕ, Bool, false, not, ◌&&◌, ◌||◌, [], ◌∷◌, ◌++◌, Option, none, some, Text, codes,
  text_eq, member, starts_with, leb, ◌==◌, if◌then◌else◌, drop, Exception, Kind, Result, return,
  raise, bind,
}

abbrev pub refused : Text → Exception
refused what = record { kind = Kind.value_error; message = what }

abbrev pub is_space : ℕ → Bool
is_space c = c == 32 || ((leb 9 c && leb c 13) || (leb 28 c && leb c 31))

abbrev pub is_slash : ℕ → Bool
is_slash c = c == b'/'

unfoldable pub drop_while : (ℕ → Bool) → Text → Text
drop_while p [] = []
drop_while p (c ∷ s) = if p c then drop_while p s else c ∷ s

-- `s.rstrip()` and `s.strip()`, of the characters of a test.
unfoldable pub rstrip : (ℕ → Bool) → Text → Text
unfolding drop_while
rstrip p s = reverse (drop_while p (reverse s))

unfoldable pub strip_of : (ℕ → Bool) → Text → Text
unfolding rstrip
strip_of p s = rstrip p (drop_while p s)

unfoldable pub with_slash : Text → Text
with_slash [] = []
with_slash (c ∷ trimmed) = (c ∷ trimmed) ++ b'/' ∷ []

unfoldable pub normalize_s3_prefix : (prefix : Text) → Text
unfolding strip_of with_slash
normalize_s3_prefix prefix = with_slash (strip_of is_slash (strip_of is_space prefix))

-- `s.partition("/")`, without the separator.
unfoldable pub partition : Text → Text × Text
partition [] = ([], [])
partition (c ∷ s) = let rest = partition s in if c == b'/' then ([], s) else (c ∷ rest.0, rest.1)

abbrev pub s3_uri_scheme : Text
s3_uri_scheme = codes "s3://"

unfoldable pub with_bucket : Text × Text → Result (Text × Text)
with_bucket ([], prefix) = raise (refused (codes "s3 URI has no bucket"))
with_bucket (c ∷ bucket, prefix) = return (c ∷ bucket, prefix)

unfoldable pub split_s3_bucket_uri : (value : Text) → Result (Text × Text)
unfolding drop_while partition with_bucket
split_s3_bucket_uri value =
    if starts_with (lower value) s3_uri_scheme
    then with_bucket (partition (drop_while is_slash (drop 5 value)))
    else return (value, [])

unfoldable pub has_url_scheme : (endpoint : Text) → Bool
has_url_scheme endpoint =
    starts_with (lower endpoint) (codes "http://")
    || starts_with (lower endpoint) (codes "https://")

unfoldable pub has_space : Text → Bool
has_space [] = false
has_space (c ∷ s) = is_space c || has_space s

abbrev is_scheme_character : ℕ → Bool
is_scheme_character c =
    is_letter c || ((leb b'0' c && leb c b'9') || (c == b'+' || (c == b'.' || c == b'-')))

-- `[A-Za-z][A-Za-z0-9+.-]*://`, at the front.
unfoldable pub names_scheme : Text → Bool
names_scheme [] = false
names_scheme (c ∷ s) = is_letter c && starts_with (drop_while is_scheme_character s) (codes "://")

pub record Url : Type 0 where
  pub scheme : Text
  pub netloc : Text
  pub query : Text
  pub fragment : Text

unfoldable pub check_url : (candidate : Text) → Url → Result Text
unfolding rstrip
check_url candidate url =
    if not (member url.scheme (codes "http" ∷ codes "https" ∷ []))
    then raise (refused (codes "endpoint scheme"))
    else if text_eq url.netloc []
    then raise (refused (codes "endpoint has no host"))
    else if not (text_eq url.query []) || not (text_eq url.fragment [])
    then raise (refused (codes "endpoint must not carry a query"))
    else return (rstrip is_slash candidate)

unfoldable pub complete : (secure : Bool) → (candidate : Text) → Text
unfolding names_scheme
complete secure candidate =
    if names_scheme candidate
    then candidate
    else (if secure then codes "https" else codes "http") ++ codes "://" ++ candidate

unfoldable pub endpoint_of :
    (urlparse : Text → Result Url) → (secure : Bool) → (candidate : Text) → Result (Option Text)
unfolding has_space has_url_scheme names_scheme complete check_url
endpoint_of urlparse secure [] = return none
endpoint_of urlparse secure (c ∷ s) =
    if has_space (c ∷ s)
    then raise (refused (codes "endpoint contains whitespace"))
    else if names_scheme (c ∷ s) && not (has_url_scheme (c ∷ s))
    then raise (refused (codes "endpoint scheme"))
    else bind (urlparse (complete secure (c ∷ s)))
        (λ url. bind (check_url (complete secure (c ∷ s)) url) (λ endpoint. return (some endpoint)))

unfoldable pub normalize_s3_endpoint_url :
    (urlparse : Text → Result Url)
    → (endpoint : Option Text) → (secure : Bool) → Result (Option Text)
unfolding strip_of endpoint_of
normalize_s3_endpoint_url urlparse none secure = return none
normalize_s3_endpoint_url urlparse (some endpoint) secure =
    endpoint_of urlparse secure (strip_of is_space endpoint)
