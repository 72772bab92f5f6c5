-- ===== src/Base/Strings.antt =====
-- Text as its code points, with the string methods that the program calls.
use Prim.Native.Nat.{ℕ, ◌+◌, ◌-◌}
use Prim.Native.Char.{code}
use Prim.Native.String.{String}
use mathlib.Core.Path.{◌≡◌, refl}
use mathlib.Core.Logic.{◌↔◌}
use mathlib.Core.Bool.{Bool, true, false, ◌&&◌, ◌||◌}
use mathlib.Core.Option.{Option, none, some}
use mathlib.Core.List.{List, [], ◌∷◌, ◌++◌, map}
use native.Mathlib.Omega.{arith}
use tiles_processor.Base.Lists.{All, All-implies}
use tiles_processor.Base.Tests.{leb, ◌==◌, if◌then◌else◌}

abbrev pub Text : Type 0
Text = List ℕ

-- A literal. `String` has its own `[]` and `∷`.
abbrev pub codes : String → Text
codes String.[] = []
codes (String.◌∷◌ c s) = code c ∷ codes s

unfoldable pub text_eq : Text → Text → Bool
text_eq [] [] = true
text_eq (c ∷ s) (d ∷ t) = c == d && text_eq s t
text_eq _ _ = false

pub text_eq_iff : (s t : Text) → (text_eq s t ≡ true) ↔ (s ≡ t)
unfolding text_eq
text_eq_iff [] [] = (λ _. refl, λ _. refl)
text_eq_iff [] (d ∷ t) = (λ h. cc, λ h. cc)
text_eq_iff (c ∷ s) [] = (λ h. cc, λ h. cc)
text_eq_iff (c ∷ s) (d ∷ t) = ground (arith, text_eq_iff s t)

pub text_eq_refl : (s : Text) → text_eq s s ≡ true
text_eq_refl s = (text_eq_iff s s).1 refl

-- `prefix` is dropped from the front, or it is no prefix.
unfoldable pub strip : Text → Text → Option Text
strip [] s = some s
strip (p ∷ ps) [] = none
strip (p ∷ ps) (c ∷ s) = if p == c then strip ps s else none

-- `s.startswith(prefix)`
unfoldable pub starts_with : Text → Text → Bool
unfolding strip
starts_with s prefix = elim (strip prefix s) [ none ↦ false | some _ ↦ true ]

-- `s.removeprefix(prefix)`
unfoldable pub remove_prefix : Text → Text → Text
unfolding strip
remove_prefix s prefix = elim (strip prefix s) [ none ↦ s | some rest ↦ rest ]

-- Membership in a set of texts.
unfoldable pub member : Text → List Text → Bool
unfolding text_eq
member s [] = false
member s (t ∷ ts) = text_eq t s || member s ts

pub member-append :
    (a : Text) (xs ys : List Text) → member a (xs ++ ys) ≡ (member a xs || member a ys)
unfolding member
member-append a [] ys = refl
member-append a (x ∷ xs) ys = ground (arith, member-append a xs ys)

-- ASCII letters, `s.upper()` and `s.lower()`.
abbrev pub is_upper : ℕ → Bool
is_upper c = leb b'A' c && leb c b'Z'

abbrev pub is_lower : ℕ → Bool
is_lower c = leb b'a' c && leb c b'z'

abbrev pub is_digit : ℕ → Bool
is_digit c = leb b'0' c && leb c b'9'

abbrev pub is_letter : ℕ → Bool
is_letter c = is_upper c || is_lower c

unfoldable pub upper : Text → Text
upper s = map (λ c. if is_lower c then c - 32 else c) s

unfoldable pub lower : Text → Text
lower s = map (λ c. if is_upper c then c + 32 else c) s

-- A character more of the first piece.
abbrev pub extend : ℕ → List Text → List Text
extend c [] = (c ∷ []) ∷ []
extend c (piece ∷ pieces) = (c ∷ piece) ∷ pieces

-- `s.split(sep)`
unfoldable pub split_on : (sep : ℕ) → Text → List Text
split_on sep [] = [] ∷ []
split_on sep (c ∷ s) =
    let pieces = split_on sep s in if c == sep then [] ∷ pieces else extend c pieces

pub strip-append : (p s : Text) → strip p (p ++ s) ≡ some s
unfolding strip
strip-append [] s = refl
strip-append (c ∷ p) s = ground (arith, strip-append p s)

pub starts_with-append : (p s : Text) → starts_with (p ++ s) p ≡ true
unfolding starts_with
starts_with-append p s = ground (arith, strip-append p s)

pub remove_prefix-append : (p s : Text) → remove_prefix (p ++ s) p ≡ s
unfolding remove_prefix
remove_prefix-append p s = ground (arith, strip-append p s)

pub All-member : (ts : List Text) → All (λ t. member t ts ≡ true) ts
unfolding member
All-member [] = tt
All-member (t ∷ ts) = (
  ground (arith, text_eq_refl t),
  All-implies (λ s. member s ts ≡ true) (λ s. member s (t ∷ ts) ≡ true) ts (λ s h. ground arith)
      (All-member ts),
)
