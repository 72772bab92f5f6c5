-- ===== src/Retention/Settings.antt =====
-- What the settings of the sources resolve to.
use tiles_processor.Base.{
  ℕ, ◌≤◌, ◌≡◌, inl, inr, refl, ap, ◌∙◌, sym, subst, Bool, true, false, not, ◌&&◌, List, [], ◌∷◌,
  ◌++◌, none, some, Text, codes, arith, text_eq, text_eq_iff, length, keep, All, Bool-cases,
  Option-cases, Result-cases, Exec, return, lift, modify, pure, gets, ◌>>=◌, ◌>>◌,
}
use tiles_processor.Retention.{
  Scalar, whole, other, Setting, missing, uniform, by_kind, source_lifecycle_prefixes, get,
  validate_days, has_unknown_kinds, days_for, RetentionMap, set_days, resolve_kinds,
  resolve_sources, resolve_retention_map,
}

-- The days that a setting asks for, for one kind of output.
pub data Asks (kind : Text) : Setting → ℕ → Type 0 where
  by_default : Asks kind missing 1
  for_all : {days : ℕ} → Asks kind (uniform (whole days)) days
  overridden :
      {raw : List (Text × Scalar)} {days : ℕ}
      → get kind raw ≡ some (whole days)
      → Asks kind (by_kind raw) days
  of_default :
      {raw : List (Text × Scalar)} {days : ℕ}
      → get kind raw ≡ none
      → get (codes "default") raw ≡ some (whole days)
      → Asks kind (by_kind raw) days
  unnamed :
      {raw : List (Text × Scalar)}
      → get kind raw ≡ none
      → get (codes "default") raw ≡ none
      → Asks kind (by_kind raw) 1

validate_days_lem :
    (v : Scalar) (days : ℕ) → validate_days v ≡ return days → (v ≡ whole days) × (1 ≤ days)
unfolding validate_days
validate_days_lem (whole n) days h = ground arith
validate_days_lem other days h = absurd (ground arith)

days_for-Asks :
    (raw : Setting) (kind : Text) (days : ℕ)
    → days_for raw kind ≡ return days
    → Asks kind raw days × (1 ≤ days)
unfolding days_for
days_for-Asks missing kind days h =
    let e : 1 ≡ days = ground arith in
    subst (λ d. Asks kind missing d × (1 ≤ d)) e (by_default, omega arith)
days_for-Asks (uniform v) kind days h =
    let (e, le) = validate_days_lem v days h in
    (subst (λ w. Asks kind (uniform w) days) (sym e) for_all, le)
days_for-Asks (by_kind raw) kind days h = elim (Bool-cases (has_unknown_kinds raw)) [
  | inl bad ↦ absurd (ground arith)
  | inr fine ↦ elim (Option-cases (get kind raw)) [
    | inr (v, e) ↦
        let (same, le) = validate_days_lem v days (ground arith) in
        (overridden (e ∙ ap some same), le)
    | inl e ↦ elim (Option-cases (get (codes "default") raw)) [
      | inr (v, f) ↦
          let (same, le) = validate_days_lem v days (ground arith) in
          (of_default e (f ∙ ap some same), le)
      | inl f ↦
          let (same, le) = validate_days_lem (whole 1) days (ground arith) in
          let one : 1 ≡ days = ground arith in
          (subst (Asks kind (by_kind raw)) one (unnamed e f), le)
    ]
  ]
]

abbrev pub is_for : (prefix : Text) → Text × ℕ → Bool
is_for prefix (p, days) = text_eq p prefix

-- No prefix has two entries.
abbrev pub IsDict : RetentionMap → Type 0
IsDict m = (p : Text) → length (keep (is_for p) m) ≤ 1

set_days-other :
    (p q : Text) (days : ℕ) (m : RetentionMap)
    → text_eq q p ≡ false
    → keep (is_for p) (set_days q days m) ≡ keep (is_for p) m
unfolding set_days
set_days-other p q days [] h = ground arith
set_days-other p q days ((k, old) ∷ m) h = elim (Bool-cases (text_eq k q)) [
  | inl same ↦
      let e = (text_eq_iff k q).0 same in
      let apart : text_eq k p ≡ false = subst (λ x. text_eq x p ≡ false) (sym e) h in ground arith
  | inr apart ↦ ground (arith, set_days-other p q days m h)
]

set_days-same :
    (p : Text) (days : ℕ) (m : RetentionMap)
    → length (keep (is_for p) m) ≤ 1
    → keep (is_for p) (set_days p days m) ≡ (p, days) ∷ []
unfolding set_days
set_days-same p days [] h = let e = (text_eq_iff p p).1 refl in ground arith
set_days-same p days ((k, old) ∷ m) h = elim (Bool-cases (text_eq k p)) [
  | inl same ↦
      let e = (text_eq_iff k p).0 same in
      let alone : keep (is_for p) m ≡ [] = empty (keep (is_for p) m) (ground arith) in ground arith
  | inr apart ↦ ground (arith, set_days-same p days m)
]
  where
    empty : (xs : RetentionMap) → length xs ≤ 0 → xs ≡ []
    empty [] h = refl
    empty (x ∷ xs) h = absurd (omega (arith, h))

set_days-IsDict : (q : Text) (days : ℕ) (m : RetentionMap) → IsDict m → IsDict (set_days q days m)
set_days-IsDict q days m h p = elim (Bool-cases (text_eq q p)) [
  | inl same ↦
      subst (λ x. length (keep (is_for p) (set_days x days m)) ≤ 1) (sym ((text_eq_iff q p).0 same))
        (rw (set_days-same p days m (h p)) (omega arith))
  | inr apart ↦ rw (set_days-other p q days m apart) (h p)
]

-- One assignment of the loops.
pub record Row : Type 0 where
  pub source : Text
  pub kind : Text
  pub prefix : Text

abbrev rows_of : (source : Text) → List (Text × Text) → List Row
rows_of source [] = []
rows_of source ((k, p) ∷ kinds) =
    record { source = source; kind = k; prefix = p } ∷ rows_of source kinds

abbrev pub all_rows : List (Text × List (Text × Text)) → List Row
all_rows [] = []
all_rows ((source, kinds) ∷ sources) = rows_of source kinds ++ all_rows sources

abbrev is_fresh : (prefix : Text) → List Row → Bool
is_fresh prefix [] = true
is_fresh prefix (r ∷ rows) = not (text_eq r.prefix prefix) && is_fresh prefix rows

abbrev pub is_distinct : List Row → Bool
is_distinct [] = true
is_distinct (r ∷ rows) = is_fresh r.prefix rows && is_distinct rows

-- A row has one entry in the map, of the days that its setting asks for.
pub record IsKept (sources_cfg : Text → Setting) (m : RetentionMap) (r : Row) : Type 0 where
  pub days : ℕ
  pub asked : Asks r.kind (sources_cfg r.source) days
  pub positive : 1 ≤ days
  pub entry : keep (is_for r.prefix) m ≡ (r.prefix, days) ∷ []

module _ (sources_cfg : Text → Setting) where
  abbrev assign_all : List Row → Exec RetentionMap Unit
  assign_all [] = pure tt
  assign_all (r ∷ rows) = do
    days ← lift (days_for (sources_cfg r.source) r.kind)
    modify (set_days r.prefix days)
    assign_all rows

  -- The nested loops assign row by row.
  resolve_kinds-rows :
      (source : Text) (kinds : List (Text × Text)) (rest : List Row) (m : RetentionMap)
      → (resolve_kinds (sources_cfg source) kinds >> assign_all rest) m
        ≡ assign_all (rows_of source kinds ++ rest) m
  unfolding resolve_kinds
  resolve_kinds-rows source [] rest m = refl
  resolve_kinds-rows source ((k, p) ∷ kinds) rest m =
      elim (Result-cases (days_for (sources_cfg source) k)) [
        | inr (x, e) ↦ ground (arith, e)
        | inl (days, e) ↦
            ground (arith, e, resolve_kinds-rows source kinds rest (set_days p days m))
      ]

  resolve_sources-rows :
      (sources : List (Text × List (Text × Text))) (m : RetentionMap)
      → resolve_sources sources_cfg sources m ≡ assign_all (all_rows sources) m
  unfolding resolve_sources
  resolve_sources-rows [] m = refl
  resolve_sources-rows ((source, kinds) ∷ sources) m =
      let kinds_of = resolve_kinds (sources_cfg source) kinds in
      let flat = resolve_kinds-rows source kinds (all_rows sources) m in
      elim (Result-cases (kinds_of m).0) [
        | inr (x, e) ↦ ground (arith, e, flat)
        | inl (_, e) ↦ ground (arith, e, flat, resolve_sources-rows sources (kinds_of m).1)
      ]

  assign_all-other :
      (p : Text) (rows : List Row) (m : RetentionMap)
      → is_fresh p rows ≡ true
      → (assign_all rows m).0 ≡ return tt
      → keep (is_for p) (assign_all rows m).1 ≡ keep (is_for p) m
  assign_all-other p [] m h ok = refl
  assign_all-other p (r ∷ rows) m h ok =
      elim (Result-cases (days_for (sources_cfg r.source) r.kind)) [
        | inr (x, e) ↦ absurd (ground (arith, e))
        | inl (days, e) ↦
            let apart : text_eq r.prefix p ≡ false = ground arith in
            let here = set_days-other p r.prefix days m apart in
            let later =
              assign_all-other p rows (set_days r.prefix days m) (ground arith) (ground arith) in
            ground (arith, e, here, later)
      ]

  assign_all-IsKept :
      (rows : List Row) (m : RetentionMap)
      → is_distinct rows ≡ true
      → IsDict m
      → (assign_all rows m).0 ≡ return tt
      → All (IsKept sources_cfg (assign_all rows m).1) rows
  assign_all-IsKept [] m d dict ok = tt
  assign_all-IsKept (r ∷ rows) m d dict ok =
      elim (Result-cases (days_for (sources_cfg r.source) r.kind)) [
        | inr (x, e) ↦ absurd (ground (arith, e))
        | inl (days, e) ↦
            let next = set_days r.prefix days m in
            let fine : (assign_all rows next).0 ≡ return tt = ground arith in
            let same : (assign_all (r ∷ rows) m).1 ≡ (assign_all rows next).1 = ground arith in
            let (asked, positive) = days_for-Asks (sources_cfg r.source) r.kind days e in
            subst (λ out. All (IsKept sources_cfg out) (r ∷ rows)) (sym same)
              (
                record {
                  days = days;
                  asked = asked;
                  positive = positive;
                  entry =
                      assign_all-other r.prefix rows next (ground arith) fine
                      ∙ set_days-same r.prefix days m (dict r.prefix);
                },
                assign_all-IsKept rows next (ground arith) (set_days-IsDict r.prefix days m dict)
                    fine,
              )
      ]

distinct_prefixes : is_distinct (all_rows source_lifecycle_prefixes) ≡ true
unfolding text_eq
distinct_prefixes = refl

from_empty :
    (sources_cfg : Text → Setting) (sources : List (Text × List (Text × Text))) (m : RetentionMap)
    → is_distinct (all_rows sources) ≡ true
    → ((resolve_sources sources_cfg sources >> gets (λ resolved. resolved)) []).0 ≡ return m
    → All (IsKept sources_cfg m) (all_rows sources)
from_empty sources_cfg sources m d h =
    let flat = resolve_sources-rows sources_cfg sources [] in
    elim (Result-cases (resolve_sources sources_cfg sources []).0) [
      | inr (x, e) ↦ absurd (ground arith)
      | inl (_, e) ↦
          let same : (assign_all sources_cfg (all_rows sources) []).1 ≡ m = ground arith in
          let ok : (assign_all sources_cfg (all_rows sources) []).0 ≡ return tt = ground arith in
          subst (λ out. All (IsKept sources_cfg out) (all_rows sources)) same
            (assign_all-IsKept sources_cfg (all_rows sources) [] d (λ p. omega arith) ok)
    ]

pub resolve_retention_map-IsKept :
    (sources_cfg : Text → Setting) (m : RetentionMap)
    → resolve_retention_map sources_cfg ≡ return m
    → All (IsKept sources_cfg m) (all_rows source_lifecycle_prefixes)
unfolding resolve_retention_map
resolve_retention_map-IsKept sources_cfg m h =
    from_empty sources_cfg source_lifecycle_prefixes m distinct_prefixes h
