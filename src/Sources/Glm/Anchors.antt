-- ===== src/Sources/Glm/Anchors.antt =====
-- Which windows a GLM file is put in.
use tiles_processor.Base.{
  ℕ, zero, suc, ◌+◌, ◌-◌, ◌*◌, ◌/◌, ◌%◌, ◌≤◌, ◌<◌, ◌≡◌, ◌↔◌, ◌⊎◌, inl, inr, true, List, [], ◌∷◌,
  arith, ltb, ◌==◌, contains, Bool-cases, ap, sym,
}
use native.Mathlib.Decide.{dec_le}
use tiles_processor.Sources.Glm.{hour, walk, anchors_covering}

-- `[a, a + accum)` covers the instant `t`, and `a` is aligned to the step.
abbrev pub Covers : (step accum t a : ℕ) → Type 0
Covers step accum t a = (k : ℕ) × (a ≡ k * step) × (a ≤ t) × (t < a + accum)

multiple_le : (s j k : ℕ) → j * s < suc k * s → j * s ≤ k * s
multiple_le s j k h = elim (dec_le j k) [
  | yes l ↦ grind (arith, l)
  | no g ↦
      let d : j ≡ suc k + (j - suc k) = omega arith in
      absurd (grind (arith, ap (λ (n : ℕ). n * s) d))
]

abbrev Below : (step accum t top a : ℕ) → Type 0
Below step accum t top a = (k : ℕ) × (a ≡ k * step) × (a ≤ top) × (t < a + accum)

walk_step :
    (step accum t rounds anchor : ℕ)
    → anchor ≤ t
    → t < anchor + accum
    → walk step accum t (suc rounds) anchor ≡ anchor ∷ walk step accum t rounds (anchor - step)
unfolding walk
walk_step step accum t rounds anchor h k = ground arith

walk_end :
    (step accum t rounds anchor : ℕ)
    → anchor + accum ≤ t
    → walk step accum t (suc rounds) anchor ≡ []
unfolding walk
walk_end step accum t rounds anchor h = ground arith

contains-head :
    (a b : ℕ) (rest : List ℕ)
    → (contains a (b ∷ rest) ≡ true) ↔ ((b ≡ a) ⊎ (contains a rest ≡ true))
unfolding contains
contains-head a b rest = elim (Bool-cases (b == a)) [
  | inl same ↦ (λ h. inl (ground arith), λ h. ground arith)
  | inr apart ↦ (
    λ h. inr (ground arith),
    λ h. elim h [ inl e ↦ absurd (ground arith) | inr r ↦ ground arith ],
  )
]

walk-Below :
    (step accum t rounds k a : ℕ)
    → 0 < step
    → accum ≤ t
    → k * step ≤ t
    → k * step + accum - t < rounds
    → (contains a (walk step accum t rounds (k * step)) ≡ true) ↔ Below step accum t (k * step) a
walk-Below step accum t zero k a s c b r = absurd (omega arith)
walk-Below step accum t (suc rounds) zero a s c b r =
    rw (walk_end step accum t rounds (0 * step) (omega arith))
      (λ h. absurd (unfold contains in ground arith), λ (j, e, l, u). absurd (omega arith))
walk-Below step accum t (suc rounds) (suc k) a s c b r =
    elim (Bool-cases (ltb t (suc k * step + accum))) [
      | inl fits ↦
          let ih = walk-Below step accum t rounds k a s c (omega arith) (ground arith) in
          let earlier : suc k * step - step ≡ k * step = omega arith in
          rw (walk_step step accum t rounds (suc k * step) b (ground arith), earlier)
            (
              λ h. elim ((contains-head a (suc k * step) _).0 h) [
                | inl e ↦ (suc k, sym e, ground arith, ground arith)
                | inr r ↦ let (j, e, l, u) = ih.0 r in (j, e, omega arith, u)
              ],
              λ (j, e, l, u).
                  (contains-head a (suc k * step) _).1 (elim (Bool-cases (suc k * step == a)) [
                    | inl same ↦ inl (ground arith)
                    | inr apart ↦ inr (ih.1 (j, e, ground (arith, multiple_le step j k), u))
                  ]),
            )
      | inr shut ↦
          rw (walk_end step accum t rounds (suc k * step) (ground arith))
            (λ h. absurd (unfold contains in ground arith), λ (j, e, l, u). absurd (ground arith))
    ]

-- If the step divides the hour, a file is put in exactly the windows that cover its start, among
-- those which begin at a multiple of the step.
pub anchors_covering-Covers :
    (step accum q t a : ℕ)
    → 0 < step
    → hour ≡ q * step
    → accum ≤ t
    → (contains a (anchors_covering step accum t) ≡ true) ↔ Covers step accum t a
unfolding anchors_covering
anchors_covering-Covers step accum q t a s d c =
    let k = q * (t / hour) + t % hour / step in
    let whole : t - t % hour ≡ t / hour * hour = omega arith in
    let latest : t - t % hour + step * (t % hour / step) ≡ k * step =
      grind (arith, whole, ap (λ (h : ℕ). t / hour * h) d) in
    let near : (t % hour / step * step ≤ t % hour) × (t % hour < suc (t % hour / step) * step) =
      grind arith in
    let below : (k * step ≤ t) × (t < suc k * step) = grind (arith, latest, near, whole) in
    let iff = walk-Below step accum t (suc accum) k a s c below.0 (omega arith) in
    rw latest (
      λ h. let (j, e, l, u) = iff.0 h in (j, e, omega arith, u),
      λ (j, e, l, u). iff.1 (j, e, omega (arith, multiple_le step j k (ground arith)), u),
    )
