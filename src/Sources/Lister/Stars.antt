-- ===== src/Sources/Lister/Stars.antt =====
-- The stars of prefixes and folders.
use tiles_processor.Base.{
  ℕ, suc, ◌+◌, ◌≤◌, ◌≡◌, subst, List, [], ◌∷◌, ◌++◌, map, some, Text, arith, ◌==◌, if◌then◌else◌,
  All, All-implies, text_eq, Bool-cases, inl, inr,
}
use tiles_processor.Sources.Lister.Template.{lstrip_slash}
use tiles_processor.Sources.Lister.{partition, children_of}

-- The stars of a prefix.
unfoldable pub stars : Text → ℕ
stars [] = 0
stars (c ∷ s) = if c == b'*' then suc (stars s) else stars s

stars-append : (s t : Text) → stars (s ++ t) ≡ stars s + stars t
unfolding stars
stars-append [] t = omega arith
stars-append (c ∷ s) t = ground (arith, stars-append s t)

stars-lstrip_slash : (s : Text) → stars (lstrip_slash s) ≤ stars s
unfolding stars lstrip_slash
stars-lstrip_slash [] = omega arith
stars-lstrip_slash (c ∷ s) = ground (arith, stars-lstrip_slash s)

pub stars-partition : (s tail : Text) → (partition s).1 ≡ some tail → stars s ≡ suc (stars tail)
unfolding stars partition
stars-partition [] tail h = absurd (ground arith)
stars-partition (c ∷ s) tail h = ground (arith, stars-partition s tail)

-- A folder whose name has no star.
abbrev pub IsPlain : Text → Type 0
IsPlain folder = stars folder ≡ 0

abbrev pub AllPlain : List (Text × List Text) → Type 0
AllPlain children = All (λ c. All IsPlain c.1) children

pub children_of-Plain :
    (head : Text) (children : List (Text × List Text)) (found : List Text)
    → AllPlain children
    → children_of head children ≡ some found
    → All IsPlain found
unfolding children_of
children_of-Plain head [] found p h = absurd (ground arith)
children_of-Plain head ((k, fs) ∷ children) found p h = elim (Bool-cases (text_eq k head)) [
  | inl hit ↦ let same : fs ≡ found = ground arith in subst (All IsPlain) same p.0
  | inr miss ↦ children_of-Plain head children found p.1 (ground arith)
]

pub pushed :
    (k : ℕ) (tail : Text) (found : List Text)
    → stars tail ≤ k
    → All IsPlain found
    → All (λ p. stars p ≤ k) (map (λ child. child ++ lstrip_slash tail) found)
pushed k tail [] h p = tt
pushed k tail (f ∷ found) h p = (
  omega (arith, stars-append f (lstrip_slash tail), stars-lstrip_slash tail),
  pushed k tail found h p.1,
)

pub bound : List Text → ℕ
bound [] = 0
bound (p ∷ ps) = stars p + bound ps

pub All-bound : (ps : List Text) → All (λ p. stars p ≤ bound ps) ps
unfolding bound
All-bound [] = tt
All-bound (p ∷ ps) = (
  omega arith,
  All-implies (λ q. stars q ≤ bound ps) (λ q. stars q ≤ bound (p ∷ ps)) ps (λ q h. omega arith)
      (All-bound ps),
)
