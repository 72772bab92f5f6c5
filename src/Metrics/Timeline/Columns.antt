-- ===== src/Metrics/Timeline/Columns.antt =====
-- The columns of a timeline, one by one.
use tiles_processor.Base.{
  ℕ, suc, ◌≡◌, ◌≢◌, refl, ap, true, List, [], ◌∷◌, ◌++◌, map, Option, none, some, Text, text_eq_iff,
  text_eq_refl, arith, if◌then◌else◌, get_elem?, pos, add-sub_ℕ, All, return, Option-cases, inl,
  inr,
}
use tiles_processor.Metrics.Timeline.{
  Row, same, has, distinct, set_label, labels_of, position, indices, deltas, type_of, running_sums,
}

same-eq : (v w : Option Text) → same v w ≡ true → v ≡ w
same-eq none none h = refl
same-eq none (some t) h = cc
same-eq (some s) none h = cc
same-eq (some s) (some t) h = ap some ((text_eq_iff s t).0 h)

same_refl : (v : Option Text) → same v v ≡ true
same_refl none = refl
same_refl (some t) = text_eq_refl t

has-append :
    (v : Option Text) (ws us : List (Option Text)) → has v ws ≡ true → has v (ws ++ us) ≡ true
unfolding has
has-append v [] us h = absurd (ground arith)
has-append v (w ∷ ws) us h = ground (arith, has-append v ws us)

has-last : (v : Option Text) (ws : List (Option Text)) → has v (ws ++ v ∷ []) ≡ true
unfolding has
has-last v [] = ground (arith, same_refl v)
has-last v (w ∷ ws) = ground (arith, has-last v ws)

abbrev grown : Option Text → List (Option Text) → List (Option Text)
grown v seen = if has v seen then seen else seen ++ v ∷ []

has-grown :
    (v w : Option Text) (seen : List (Option Text))
    → has v seen ≡ true
    → has v (grown w seen) ≡ true
has-grown v w seen h = ground (arith, has-append v seen (w ∷ []))

has-grown_self : (v : Option Text) (seen : List (Option Text)) → has v (grown v seen) ≡ true
has-grown_self v seen = ground (arith, has-last v seen)

has-kept :
    (v : Option Text) (seen vs : List (Option Text))
    → has v seen ≡ true
    → has v (distinct seen vs) ≡ true
unfolding distinct
has-kept v seen [] h = h
has-kept v seen (w ∷ vs) h = has-kept v (grown w seen) vs (has-grown v w seen h)

pub has-distinct : (seen vs : List (Option Text)) → All (λ v. has v (distinct seen vs) ≡ true) vs
unfolding distinct
has-distinct seen [] = tt
has-distinct seen (v ∷ vs) =
    (has-kept v (grown v seen) vs (has-grown_self v seen), has-distinct (grown v seen) vs)

abbrev pub keys : List (Option Text × Text) → List (Option Text)
keys labels = map (λ e. e.0) labels

has-set_label :
    (v : Option Text) (t l : Text) (labels : List (Option Text × Text))
    → has v (keys labels) ≡ true
    → has v (keys (set_label t l labels)) ≡ true
unfolding has set_label
has-set_label v t l [] h = absurd (ground arith)
has-set_label v t l ((k, old) ∷ labels) h = ground (arith, has-set_label v t l labels)

has-set_label_self :
    (t l : Text) (labels : List (Option Text × Text))
    → has (some t) (keys (set_label t l labels)) ≡ true
unfolding has set_label
has-set_label_self t l [] = ground (arith, text_eq_refl t)
has-set_label_self t l ((k, old) ∷ labels) = ground (arith, has-set_label_self t l labels)

has-labels_kept :
    (v : Option Text) (rows : List Row) (labels : List (Option Text × Text))
    → has v (keys labels) ≡ true
    → has v (keys (labels_of rows labels)) ≡ true
unfolding labels_of
has-labels_kept v [] labels h = h
has-labels_kept v (r ∷ rows) labels h =
    has-labels_kept v rows (set_label r.job_type r.product_label labels)
      (has-set_label v r.job_type r.product_label labels h)

pub has-labels_of :
    (rows : List Row) (labels : List (Option Text × Text))
    → All (λ r. has (type_of r) (keys (labels_of rows labels)) ≡ true) rows
unfolding labels_of
has-labels_of [] labels = tt
has-labels_of (r ∷ rows) labels =
    let next = set_label r.job_type r.product_label labels in
    (
      has-labels_kept (type_of r) rows next (has-set_label_self r.job_type r.product_label labels),
      has-labels_of rows next,
    )

get_elem?-position :
    (v : Option Text) (ws : List (Option Text)) (i : ℕ)
    → position v ws ≡ some i
    → get_elem? ws i ≡ some v
unfolding position
get_elem?-position v [] i h = absurd (ground arith)
get_elem?-position v (w ∷ ws) i h = elim (Option-cases (position v ws)) [
  | inr (j, e) ↦
      let same_index : suc j ≡ i = ground arith in rw (← same_index) (get_elem?-position v ws j e)
  | inl e ↦
      let at : (0 ≡ i) × (same w v ≡ true) = (ground arith, ground arith) in
      rw (← at.0) (ap some (same-eq w v at.1))
]

position-has : (v : Option Text) (ws : List (Option Text)) → has v ws ≡ true → position v ws ≢ none
unfolding position has
position-has v [] h = absurd (ground arith)
position-has v (w ∷ ws) h = ground (arith, position-has v ws)

-- Each row's index is found, and leads back to the row's value.
pub indices-All :
    (key : Row → Option Text) (rows : List Row) (values : List (Option Text))
    → All (λ r. has (key r) values ≡ true) rows
    → (is : List ℕ) × (indices key rows values ≡ return is)
      × (map (get_elem? values) is ≡ map (λ r. some (key r)) rows)
unfolding indices
indices-All key [] values h = ([], refl, refl)
indices-All key (r ∷ rows) values h = elim (Option-cases (position (key r) values)) [
  | inl e ↦ absurd (position-has (key r) values h.0 e)
  | inr (i, e) ↦
      let (is, f, back) = indices-All key rows values h.1 in
      (i ∷ is, ground (arith, e, f), ground (arith, get_elem?-position (key r) values i e, back))
]

pub running_sums-deltas :
    (values : List ℕ) (previous : ℕ)
    → running_sums (pos previous) (deltas values previous) ≡ map pos values
unfolding running_sums deltas
running_sums-deltas [] previous = refl
running_sums-deltas (v ∷ values) previous =
    rw (add-sub_ℕ v previous) (ap (λ rest. pos v ∷ rest) (running_sums-deltas values v))
