-- ===== src/Metrics/Timeline.antt =====
-- src/metrics_api/timeline_codec.py. `epoch_ms` reads an ISO timestamp, after 1970, as milliseconds. A
-- dictionary is the list of its entries. decode_timeline is the reading that the format's description
-- (the module's docstring) prescribes to a client.
pub mod Columns
pub mod RoundTrip
use tiles_processor.Base.{
  ℕ, zero, suc, ◌+◌, Bool, true, false, List, [], ◌∷◌, ◌++◌, map, Option, none, some, Text, codes,
  text_eq, leb, if◌then◌else◌, get_elem?, sort_by, ℤ, pos, sub_ℕ, ◌+ℤ◌, Exception, Result, return,
  raise, bind, key_error,
}

pub record Row : Type 0 where
  pub id : ℕ
  pub job_type : Text
  pub product_label : Text
  pub outcome : Option Text
  pub worker_host : Option Text
  pub started_at : Text
  pub finished_at : Text

pub record Timeline : Type 0 where
  pub t0 : Option ℕ
  pub types : List (Option Text)
  pub labels : List Text
  pub outcomes : List (Option Text)
  pub workers : List (Option Text)
  pub id : List ℤ
  pub type : List ℕ
  pub outcome : List ℕ
  pub worker : List ℕ
  pub start : List ℤ
  pub dur : List ℤ

abbrev pub same : Option Text → Option Text → Bool
same none none = true
same (some s) (some t) = text_eq s t
same _ _ = false

unfoldable pub has : Option Text → List (Option Text) → Bool
has v [] = false
has v (w ∷ ws) = if same w v then true else has v ws

-- `list(dict.fromkeys(values))`
unfoldable pub distinct : (seen values : List (Option Text)) → List (Option Text)
unfolding has
distinct seen [] = seen
distinct seen (v ∷ values) = distinct (if has v seen then seen else seen ++ v ∷ []) values

-- `labels[job_type] = product_label`
unfoldable pub set_label :
    (job_type product_label : Text) → List (Option Text × Text) → List (Option Text × Text)
set_label t l [] = (some t, l) ∷ []
set_label t l ((k, old) ∷ labels) =
    if same k (some t) then (k, l) ∷ labels else (k, old) ∷ set_label t l labels

unfoldable pub labels_of : List Row → List (Option Text × Text) → List (Option Text × Text)
unfolding set_label
labels_of [] labels = labels
labels_of (r ∷ rows) labels = labels_of rows (set_label r.job_type r.product_label labels)

-- `position[value]`: of equal values the last one's index.
unfoldable pub position : Option Text → List (Option Text) → Option ℕ
position v [] = none
position v (w ∷ ws) = elim (position v ws) [
  | some i ↦ some (suc i)
  | none ↦ if same w v then some 0 else none
]

abbrev pub no_key : Exception
no_key = record { kind = key_error; message = [] }

abbrev pub index_of : Option Text → List (Option Text) → Result ℕ
index_of v values = elim (position v values) [ none ↦ raise no_key | some i ↦ return i ]

unfoldable pub indices :
    (key : Row → Option Text) → List Row → (values : List (Option Text)) → Result (List ℕ)
indices key [] values = return []
indices key (r ∷ rows) values =
    bind (index_of (key r) values) (λ i. bind (indices key rows values) (λ is. return (i ∷ is)))

unfoldable pub deltas : (values : List ℕ) (previous : ℕ) → List ℤ
unfolding sub_ℕ
deltas [] previous = []
deltas (v ∷ values) previous = sub_ℕ v previous ∷ deltas values v

abbrev pub first : List ℕ → Option ℕ
first [] = none
first (n ∷ ns) = some n

abbrev pub or_zero : Option ℕ → ℕ
or_zero none = 0
or_zero (some n) = n

abbrev pub type_of : Row → Option Text
type_of r = some r.job_type

module _ (epoch_ms : Text → ℕ) where
  abbrev pub start_of : Row → ℕ
  start_of r = epoch_ms r.started_at

  abbrev pub earlier : Row → Row → Bool
  earlier r s = leb (start_of r) (start_of s)

  unfoldable pub encode_timeline : List Row → Result Timeline
  unfolding indices labels_of distinct deltas
  encode_timeline rows =
      let ordered = sort_by earlier rows in
      let start_ms = map start_of ordered in
      let labels = labels_of ordered [] in
      let types = map (λ e. e.0) labels in
      let outcomes = distinct [] (map (λ r. r.outcome) ordered) in
      let workers = distinct [] (map (λ r. r.worker_host) ordered) in
      bind (indices type_of ordered types) (λ type.
        bind (indices (λ r. r.outcome) ordered outcomes) (λ outcome.
          bind (indices (λ r. r.worker_host) ordered workers) (λ worker. return (record {
            t0 = first start_ms;
            types = types;
            labels = map (λ e. e.1) labels;
            outcomes = outcomes;
            workers = workers;
            id = deltas (map (λ r. r.id) ordered) 0;
            type = type;
            outcome = outcome;
            worker = worker;
            start = deltas start_ms (or_zero (first start_ms));
            dur = map (λ r. sub_ℕ (epoch_ms r.finished_at) (start_of r)) ordered;
          }))))

-- A bar of the timeline; an index out of range gives `none`.
pub record Bar : Type 0 where
  pub id : ℤ
  pub job_type : Option (Option Text)
  pub outcome : Option (Option Text)
  pub worker : Option (Option Text)
  pub start : ℤ
  pub finish : ℤ

unfoldable pub running_sums : (previous : ℤ) → List ℤ → List ℤ
unfolding ◌+ℤ◌
running_sums previous [] = []
running_sums previous (d ∷ ds) = (previous +ℤ d) ∷ running_sums (previous +ℤ d) ds

-- The arrays are parallel.
unfoldable pub bars :
    (id : List ℤ) (job_type outcome worker : List (Option (Option Text))) (start dur : List ℤ)
    → List Bar
unfolding ◌+ℤ◌
bars (i ∷ is) (t ∷ ts) (o ∷ os) (w ∷ ws) (s ∷ ss) (d ∷ ds) =
    record { id = i; job_type = t; outcome = o; worker = w; start = s; finish = s +ℤ d }
    ∷ bars is ts os ws ss ds
bars _ _ _ _ _ _ = []

unfoldable pub decode_timeline : Timeline → List Bar
unfolding bars running_sums
decode_timeline t =
    bars (running_sums (pos 0) t.id) (map (get_elem? t.types) t.type)
      (map (get_elem? t.outcomes) t.outcome) (map (get_elem? t.workers) t.worker)
      (running_sums (pos (or_zero t.t0)) t.start) t.dur
