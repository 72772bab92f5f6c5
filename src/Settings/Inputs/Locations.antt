-- ===== src/Settings/Inputs/Locations.antt =====
-- What holds of a bucket and a prefix that were accepted.
use tiles_processor.Base.{
  ℕ, ◌≡◌, ◌≢◌, ◌⊎◌, inl, inr, refl, ap, sym, ◌∙◌, subst, [], ◌∷◌, ◌++◌, Option, none, some, Text,
  arith, text_eq, text_eq_iff, starts_with, lower, drop, Bool-cases, return, bind, bind-eq-return,
  return-eq-return,
}
use tiles_processor.Settings.Endpoints.{
  is_space, is_slash, drop_while, strip_of, with_slash, normalize_s3_prefix, with_bucket,
  s3_uri_scheme, partition, split_s3_bucket_uri,
}
use tiles_processor.Settings.Inputs.{s3_mode, prefix_of, located, bucket_of}

abbrev slash : Text
slash = b'/' ∷ []

-- Empty, or something before one slash that ends it.
abbrev pub IsPrefix : Text → Type 0
IsPrefix prefix = (prefix ≡ []) ⊎ ((trimmed : Text) × (prefix ≡ trimmed ++ slash) × (trimmed ≢ []))

with_slash-IsPrefix : (s : Text) → IsPrefix (with_slash s)
unfolding with_slash
with_slash-IsPrefix [] = inl refl
with_slash-IsPrefix (c ∷ s) = inr (c ∷ s, refl, λ e. cc)

normalize_s3_prefix-IsPrefix : (prefix : Text) → IsPrefix (normalize_s3_prefix prefix)
unfolding normalize_s3_prefix
normalize_s3_prefix-IsPrefix prefix =
    with_slash-IsPrefix (strip_of is_slash (strip_of is_space prefix))

prefix_of-IsPrefix : (u e p : Text) → prefix_of u e ≡ return p → IsPrefix p
unfolding prefix_of
prefix_of-IsPrefix [] e p h = subst IsPrefix (return-eq-return h) (normalize_s3_prefix-IsPrefix e)
prefix_of-IsPrefix (c ∷ u) [] p h =
    subst IsPrefix (return-eq-return h) (normalize_s3_prefix-IsPrefix (c ∷ u))
prefix_of-IsPrefix (c ∷ u) (d ∷ e) p h = absurd (ground (arith, h))

with_bucket-bucket : (pair found : Text × Text) → with_bucket pair ≡ return found → found.0 ≢ []
unfolding with_bucket
with_bucket-bucket ([], prefix) found h e = ground (arith, h)
with_bucket-bucket (c ∷ bucket, prefix) found h e = ground (arith, h, e)

split_s3_bucket_uri-bucket :
    (c : ℕ) (s : Text) (found : Text × Text)
    → split_s3_bucket_uri (c ∷ s) ≡ return found
    → found.0 ≢ []
unfolding split_s3_bucket_uri
split_s3_bucket_uri-bucket c s found h e =
    elim (Bool-cases (starts_with (lower (c ∷ s)) s3_uri_scheme)) [
      | inl uri ↦
          with_bucket-bucket (partition (drop_while is_slash (drop 5 (c ∷ s)))) found
            (sym (rw uri refl) ∙ h) e
      | inr bare ↦ ground (arith, bare, h, e)
    ]

abbrev pub HasBucket : (mode : Text) → Option Text → Type 0
HasBucket mode bucket = mode ≡ s3_mode → (b : Text) × (bucket ≡ some b) × (b ≢ [])

abbrev pub IsLocation : (mode : Text) → Option Text × Text → Type 0
IsLocation mode found = HasBucket mode found.0 × IsPrefix found.1

located_lem :
    (explicit raw : Text) (found : Option Text × Text)
    → located explicit raw ≡ return found
    → (pair : Text × Text) × (split_s3_bucket_uri raw ≡ return pair)
      × (found.0 ≡ some pair.0)
      × IsPrefix found.1
unfolding located
located_lem explicit raw found h =
    let (pair, split, rest) =
      bind-eq-return (split_s3_bucket_uri raw)
        (λ p. bind (prefix_of p.1 explicit) (λ prefix. return (some p.0, prefix))) h in
    let (prefix, p, done) =
      bind-eq-return (prefix_of pair.1 explicit) (λ q. return (some pair.0, q)) rest in
    let e : (some pair.0, prefix) ≡ found = return-eq-return done in
    (
      pair,
      split,
      sym (ap (λ x. x.0) e),
      subst IsPrefix (ap (λ x. x.1) e) (prefix_of-IsPrefix pair.1 explicit prefix p),
    )

pub bucket_of-IsLocation :
    (mode explicit : Text) (raw : Option Text) (found : Option Text × Text)
    → bucket_of mode explicit raw ≡ return found
    → IsLocation mode found
unfolding bucket_of
bucket_of-IsLocation mode explicit none found h = elim (Bool-cases (text_eq mode s3_mode)) [
  | inl s3 ↦ absurd (ground (arith, s3, h))
  | inr other ↦
      let e : (none, normalize_s3_prefix explicit) ≡ found =
        return-eq-return (ground (arith, other, h)) in
      (
        λ m. absurd (ground (arith, other, text_eq_iff mode s3_mode, m)),
        subst IsPrefix (ap (λ x. x.1) e) (normalize_s3_prefix-IsPrefix explicit),
      )
]
bucket_of-IsLocation mode explicit (some []) found h = elim (Bool-cases (text_eq mode s3_mode)) [
  | inl s3 ↦ absurd (ground (arith, s3, h))
  | inr other ↦
      let (pair, split, bucket, prefix) =
        located_lem explicit [] found (ground (arith, other, h)) in
      (λ m. absurd (ground (arith, other, text_eq_iff mode s3_mode, m)), prefix)
]
bucket_of-IsLocation mode explicit (some (c ∷ raw)) found h =
    let (pair, split, bucket, prefix) = located_lem explicit (c ∷ raw) found h in
    (λ m. (pair.0, bucket, split_s3_bucket_uri-bucket c raw pair split), prefix)
