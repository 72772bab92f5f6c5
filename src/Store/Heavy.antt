-- ===== src/Store/Heavy.antt =====
-- src/clients/heavy_upload.py: what a body uploaded as one PUT must satisfy.
use mathlib.Core.List.{reverse}
use tiles_processor.Base.{
  is_digit, ℕ, Bool, false, ◌&&◌, [], ◌∷◌, Option, none, some, Text, codes, text_eq, ltb, ◌==◌,
  length, if◌then◌else◌, Result, return, raise, empty_upload, upload_too_large,
}

-- 5 GiB.
abbrev pub max_single_put_bytes : ℕ
max_single_put_bytes = 5368709120

-- On a text reversed: digits, and then the dash.
unfoldable pub parts_then_dash : Text → Bool
parts_then_dash [] = false
parts_then_dash (c ∷ s) = if is_digit c then parts_then_dash s else c == b'-'

abbrev pub some_parts : Text → Bool
some_parts [] = false
some_parts (c ∷ s) = is_digit c && parts_then_dash s

-- `$` also matches before a line feed at the end.
abbrev pub before_line_feed : Text → Text
before_line_feed [] = []
before_line_feed (c ∷ s) = if c == 10 then s else c ∷ s

-- The pattern `-\d+$`, for ASCII digits.
unfoldable pub is_multipart_etag : Text → Bool
is_multipart_etag etag = some_parts (before_line_feed (reverse etag))

unfoldable pub validated_size : (body : Text) → Result ℕ
validated_size body =
    let size = length body in
    if size == 0
    then raise (record { kind = empty_upload; message = codes "refusing to upload 0-byte file" })
    else if ltb max_single_put_bytes size
    then raise (record { kind = upload_too_large; message = codes "above the single-PUT limit" })
    else return size

unfoldable pub drop_quotes : Text → Text
drop_quotes [] = []
drop_quotes (c ∷ s) = if c == b'"' then drop_quotes s else c ∷ s

-- `(etag or "").strip('"')`
unfoldable pub normalized : Option Text → Text
normalized none = []
normalized (some etag) = reverse (drop_quotes (reverse (drop_quotes etag)))

unfoldable pub etag_failure_reason : Option Text → (md5_hex : Text) → Option Text
etag_failure_reason etag md5_hex =
    let seen = normalized etag in
    if is_multipart_etag seen
    then some (codes "returned a MULTIPART ETag")
    else if text_eq seen []
    then none
    else if text_eq seen md5_hex
    then none
    else some (codes "failed integrity check")
