-- ===== src/Sources/Glm/Filename.antt =====
-- src/models/goes19_glm_config.py: the parsing of GLM file names, in ASCII. An instant is the number
-- of microseconds since the first day of year 1, and leaves the range of datetime after year 9999.
use mathlib.Core.List.{reverse}
use tiles_processor.Base.{
  ℕ, ◌+◌, ◌-◌, ◌*◌, ◌/◌, Bool, true, ◌&&◌, List, [], ◌∷◌, Text, codes, text_eq, split_on,
  starts_with, leb, ltb, ◌==◌, if◌then◌else◌, length, take, drop, Exception, Result, return, raise,
  bind, value_error, other,
}
use tiles_processor.Producer.Tilesets.{until_sep}

abbrev pub invalid : Exception
invalid = record { kind = value_error; message = codes "Not a GLM file name" }

abbrev pub out_of_range : Exception
out_of_range = record { kind = other; message = codes "date value out of range" }

unfoldable pub all_digits : Text → Bool
all_digits [] = true
all_digits (c ∷ s) = (leb b'0' c && leb c b'9') && all_digits s

unfoldable pub digits_from : (value : ℕ) → Text → ℕ
digits_from value [] = value
digits_from value (c ∷ s) = digits_from (value * 10 + (c - b'0')) s

-- `int(token[first:last])`
abbrev pub digits : Text → (first last : ℕ) → ℕ
digits token first last = digits_from 0 (take (last - first) (drop first token))

-- The days of the years 1, …, year - 1.
abbrev pub days_before : (year : ℕ) → ℕ
days_before year = let y = year - 1 in 365 * y + y / 4 + y / 400 - y / 100

abbrev pub day_us : ℕ
day_us = 86400000000

-- `since` counts from the last day of year 0, since a day of the year counts from 1.
abbrev pub in_range : (since : ℕ) → Result ℕ
in_range since =
    if ltb since day_us
    then raise out_of_range
    else if leb (days_before 10000 * day_us) (since - day_us)
    then raise out_of_range
    else return (since - day_us)

unfoldable pub parse_goes_timestamp : (token : Text) → Result ℕ
unfolding all_digits digits_from
parse_goes_timestamp token =
    let year = digits token 0 4 in
    let days = days_before year + digits token 4 7 in
    let seconds = (digits token 7 9 * 60 + digits token 9 11) * 60 + digits token 11 13 in
    if length token == 14 && all_digits token
    then (if year == 0
        then raise invalid
        else in_range (days * day_us + seconds * 1000000 + digits token 13 14 * 100000))
    else raise invalid

pub record FilenameParts : Type 0 where
  pub platform : Text
  pub mode : Text
  pub start_dt : ℕ
  pub end_dt : ℕ

abbrev pub suffix_nc : Text
suffix_nc = codes ".nc"

unfoldable pub stem_of : Text → Text
stem_of filename =
    if starts_with (reverse filename) (reverse suffix_nc)
    then take (length filename - 3) filename
    else filename

unfoldable pub parts_of : List Text → Result FilenameParts
unfolding parse_goes_timestamp until_sep
parts_of (p0 ∷ p1 ∷ platform ∷ start_token ∷ end_token ∷ p5 ∷ more) =
    if text_eq p0 (codes "CG") && starts_with p1 (codes "GLM-L2-GLMF-")
    then (if starts_with start_token (codes "s") && starts_with end_token (codes "e")
        then bind (parse_goes_timestamp (drop 1 start_token)) (λ start_dt.
          bind (parse_goes_timestamp (drop 1 end_token)) (λ end_dt. return (record {
            platform = platform;
            mode = until_sep b'-' [] (reverse p1);
            start_dt = start_dt;
            end_dt = end_dt;
          })))
        else raise invalid)
    else raise invalid
parts_of _ = raise invalid

unfoldable pub parse_goes19_glm_filename : (filename : Text) → Result FilenameParts
unfolding parts_of stem_of split_on
parse_goes19_glm_filename filename = parts_of (split_on b'_' (stem_of filename))
