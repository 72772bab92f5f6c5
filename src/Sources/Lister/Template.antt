-- ===== src/Sources/Lister/Template.antt =====
-- src/models/s3_key_template.py, and join_s3_prefix of src/data_sources/s3_repository_utils.py. The
-- filling of a template with a moment (str.format, strftime) is a parameter; moments are microseconds
-- from a midnight on.
use mathlib.Core.List.{reverse}
use tiles_processor.Base.{
  ℕ, zero, suc, ◌+◌, ◌-◌, ◌/◌, ◌%◌, Bool, false, List, [], ◌∷◌, ◌++◌, Text, codes, text_eq, member,
  leb, ◌==◌, if◌then◌else◌,
}
use tiles_processor.Store.Client.{contains_text}

pub record ListingWindow : Type 0 where
  pub start : ℕ
  pub end : ℕ

abbrev pub same_window : ListingWindow → ListingWindow → Bool
same_window v w = if v.start == w.start then v.end == w.end else false

-- `s.lstrip("/")`
unfoldable pub lstrip_slash : Text → Text
lstrip_slash [] = []
lstrip_slash (c ∷ s) = if c == b'/' then lstrip_slash s else c ∷ s

unfoldable pub join_s3_prefix : (prefix path : Text) → Text
unfolding lstrip_slash
join_s3_prefix prefix path =
    let tail = lstrip_slash path in
    let head = reverse (lstrip_slash (reverse (lstrip_slash prefix))) in
    if text_eq head [] then tail else head ++ b'/' ∷ tail

-- A key of a dictionary is kept where it first came.
abbrev pub add_prefix : Text → List Text → List Text
add_prefix p prefixes = if member p prefixes then prefixes else prefixes ++ p ∷ []

-- The `while`, in rounds.
unfoldable pub expand_from :
    (fill : ℕ → Text) (step end rounds moment : ℕ) (prefixes : List Text) → List Text
expand_from fill step end zero moment prefixes = prefixes
expand_from fill step end (suc rounds) moment prefixes =
    let more =
      expand_from fill step end rounds (moment + step) (add_prefix (fill moment) prefixes) in
    if leb moment end then more else prefixes

abbrev pub step_of : (template : Text) → ℕ
step_of template = if contains_text (codes "{HH}") template then 3600000000 else 86400000000

-- A moment grows by a step each round.
unfoldable pub expand_time_prefixes :
    (fill : (template : Text) → (moment : ℕ) → Text) (template : Text) → ListingWindow → List Text
unfolding expand_from contains_text
expand_time_prefixes fill template w =
    let step = step_of template in
    let first = w.start - w.start % step in
    expand_from (fill template) step w.end (suc ((w.end - first) / step)) first []
