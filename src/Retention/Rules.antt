-- ===== src/Retention/Rules.antt =====
-- The rules that the bucket gets.
use tiles_processor.Base.{
  ℕ, ◌≤◌, ◌≡◌, inl, inr, refl, ap, ◌∙◌, Bool, List, [], ◌∷◌, ◌++◌, map, Text, codes, arith, text_eq,
  length, keep, All, All-implies, Bool-cases, insert_by, sort_by, return,
}
use tiles_processor.Store.Client.Aws.{Rule}
use tiles_processor.Retention.{
  Setting, source_lifecycle_prefixes, RetentionMap, resolve_retention_map, pair_leb, dashed,
  rule_of, build_lifecycle_rules,
}
use tiles_processor.Retention.Settings.{
  Asks, is_for, Row, all_rows, IsKept, resolve_retention_map-IsKept,
}

module _ {A : Type 0} (before : A → A → Bool) (q : A → Bool) where
  keep-insert_by :
      (x : A) (ys : List A)
      → length (keep q (x ∷ ys)) ≤ 1
      → keep q (insert_by before x ys) ≡ keep q (x ∷ ys)
  unfolding insert_by
  keep-insert_by x [] h = refl
  keep-insert_by x (y ∷ ys) h = elim (Bool-cases (before x y)) [
    | inl first ↦ rw first refl
    | inr later ↦ rw later (ground (arith, keep-insert_by x ys))
  ]

  keep-sort_by : (xs : List A) → length (keep q xs) ≤ 1 → keep q (sort_by before xs) ≡ keep q xs
  unfolding sort_by
  keep-sort_by [] h = refl
  keep-sort_by (x ∷ xs) h =
      let same = keep-sort_by xs (ground arith) in
      keep-insert_by x (sort_by before xs) (ground (arith, same)) ∙ ground (arith, same)

abbrev pub is_rule_for : (prefix : Text) → Rule → Bool
is_rule_for prefix r = text_eq r.prefix prefix

keep-rules :
    (p : Text) (m : RetentionMap)
    → keep (is_rule_for p) (map rule_of m) ≡ map rule_of (keep (is_for p) m)
unfolding rule_of
keep-rules p [] = refl
keep-rules p ((k, days) ∷ m) = ground (arith, keep-rules p m)

-- A prefix has one rule, that expires its objects after the days that the setting asks for.
pub record IsRuled (sources_cfg : Text → Setting) (rules : List Rule) (r : Row) : Type 0 where
  pub days : ℕ
  pub asked : Asks r.kind (sources_cfg r.source) days
  pub positive : 1 ≤ days
  pub rule :
      keep (is_rule_for r.prefix) rules
      ≡ record { rule_id = codes "expire-" ++ dashed r.prefix; days = days; prefix = r.prefix } ∷ []

ruled :
    (sources_cfg : Text → Setting) (m : RetentionMap) (r : Row)
    → IsKept sources_cfg m r
    → IsRuled sources_cfg (build_lifecycle_rules m) r
unfolding build_lifecycle_rules rule_of
ruled sources_cfg m r k = record {
  days = k.days;
  asked = k.asked;
  positive = k.positive;
  rule =
      let sorted = keep-sort_by pair_leb (is_for r.prefix) m (rw k.entry (omega arith)) in
      let le = k.positive in
      keep-rules r.prefix (sort_by pair_leb m)
      ∙ ap (map rule_of) (sorted ∙ k.entry)
      ∙ ground (arith, le);
}

-- If the settings are accepted, each prefix that the uploaders write under has exactly one lifecycle
-- rule, which expires its objects after the days that the setting of its source asks for: those of its
-- kind, or else of its default, or else one day. They are at least one, so the rule never rounds up.
pub build_lifecycle_rules-IsRuled :
    (sources_cfg : Text → Setting) (m : RetentionMap)
    → resolve_retention_map sources_cfg ≡ return m
    → All (IsRuled sources_cfg (build_lifecycle_rules m)) (all_rows source_lifecycle_prefixes)
build_lifecycle_rules-IsRuled sources_cfg m h =
    All-implies (IsKept sources_cfg m) (IsRuled sources_cfg (build_lifecycle_rules m))
      (all_rows source_lifecycle_prefixes) (ruled sources_cfg m)
      (resolve_retention_map-IsKept sources_cfg m h)
