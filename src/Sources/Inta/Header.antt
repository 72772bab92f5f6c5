-- ===== src/Sources/Inta/Header.antt =====
-- src/models/rainbow_header.py: parse_rainbow_header. The regular expressions and float and int are
-- parameters of the model: a window is what they find in it.
use tiles_processor.Base.{
  ℕ, ℤ, pos, Bool, not, [], Option, none, some, Text, codes, text_eq, if◌then◌else◌, upper,
  Exception, Kind, Result, return, raise, bind,
}

-- A text, and the number that it is read as, if it is one.
pub record Number (A : Type 0) : Type 0 where
  pub raw : Text
  pub value : Option A

-- The first <radarinfo>, if there is one: whether its attributes are UTF-8, and then the attributes. The
-- first matches of the other patterns, where `some none` is one that is not UTF-8. Texts are stripped.
pub record Window : Type 0 where
  pub has_radarinfo : Bool
  pub is_utf8 : Bool
  pub id : Text
  pub lat : Option (Number ℤ)
  pub lon : Option (Number ℤ)
  pub alt : Option (Number ℤ)
  pub name : Option (Option Text)
  pub scan_name : Option (Option Text)
  pub stoprange : Option (Option (Number ℕ))
  pub numele : Option (Option (Number ℕ))

pub record RainbowHeader : Type 0 where
  pub radar_id : Text
  pub radar_name : Text
  pub latitude : ℤ
  pub longitude : ℤ
  pub altitude : ℤ
  pub stop_range : ℕ
  pub elevation_count : ℕ
  pub scan_name : Text

abbrev pub header_error : Exception
header_error = record { kind = Kind.rainbow_header_error; message = codes "<radarinfo>" }

abbrev pub not_a_number : Exception
not_a_number = record { kind = Kind.value_error; message = codes "could not convert" }

-- The UnicodeDecodeError of `decode`.
abbrev pub not_utf8 : Exception
not_utf8 = record { kind = Kind.value_error; message = codes "codec can't decode" }

-- `_text(window, pattern, default)`
abbrev pub text_of : Text → Option (Option Text) → Result Text
text_of default none = return default
text_of default (some none) = raise not_utf8
text_of default (some (some t)) = return t

abbrev or_raise : {A : Type 0} → Exception → Option A → Result A
or_raise e none = raise e
or_raise e (some n) = return n

-- `_float(attrs, key, default)`
unfoldable pub float_of : (default : Option ℤ) → Option (Number ℤ) → Result ℤ
float_of none none = raise header_error
float_of (some default) none = return default
float_of default (some n) = or_raise header_error n.value

-- `float(_text(window, pattern, default="0") or 0)`, and the same with int
unfoldable pub number_or_zero : Option (Option (Number ℕ)) → Result ℕ
number_or_zero none = return 0
number_or_zero (some none) = raise not_utf8
number_or_zero (some (some n)) =
    if text_eq n.raw [] then return 0 else or_raise not_a_number n.value

unfoldable pub parse_rainbow_header : Window → Result RainbowHeader
unfolding float_of number_or_zero upper
parse_rainbow_header w =
    if not w.has_radarinfo
    then raise header_error
    else if not w.is_utf8
    then raise not_utf8
    else if text_eq w.id []
    then raise header_error
    else bind (text_of w.id w.name) (λ radar_name. bind (float_of none w.lat) (λ latitude.
      bind (float_of none w.lon) (λ longitude. bind (float_of (some (pos 0)) w.alt) (λ altitude.
        bind (number_or_zero w.stoprange) (λ stop_range.
          bind (number_or_zero w.numele) (λ elevation_count.
            bind (text_of [] w.scan_name) (λ scan_name. return (record {
              radar_id = upper w.id;
              radar_name = radar_name;
              latitude = latitude;
              longitude = longitude;
              altitude = altitude;
              stop_range = stop_range;
              elevation_count = elevation_count;
              scan_name = scan_name;
            }))))))))
