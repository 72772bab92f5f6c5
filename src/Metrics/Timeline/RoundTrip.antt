-- ===== src/Metrics/Timeline/RoundTrip.antt =====
-- What a client reads back.
use mathlib.Core.List.{map-map}
use tiles_processor.Base.{
  ℕ, ◌≡◌, refl, ◌∙◌, true, List, [], ◌∷◌, map, Option, some, Text, arith, sort_by, pos, sub_ℕ,
  add-sub_ℕ, All, return,
}
use tiles_processor.Metrics.Timeline.{
  Row, Timeline, has, distinct, labels_of, deltas, first, or_zero, type_of, start_of, earlier,
  encode_timeline, Bar, bars, decode_timeline,
}
use tiles_processor.Metrics.Timeline.Columns.{
  keys, has-distinct, has-labels_of, indices-All, running_sums-deltas,
}

All-of-map :
    (key : Row → Option Text) (values : List (Option Text)) (rows : List Row)
    → All (λ v. has v values ≡ true) (map key rows)
    → All (λ r. has (key r) values ≡ true) rows
All-of-map key values [] h = tt
All-of-map key values (r ∷ rows) h = (h.0, All-of-map key values rows h.1)

module _ (epoch_ms : Text → ℕ) where
  -- A row as the timeline draws it.
  abbrev pub bar_of : Row → Bar
  bar_of r = record {
    id = pos r.id;
    job_type = some (some r.job_type);
    outcome = some r.outcome;
    worker = some r.worker_host;
    start = pos (epoch_ms r.started_at);
    finish = pos (epoch_ms r.finished_at);
  }

  bars_of_rows :
      (rows : List Row)
      → bars
          (map (λ r. pos r.id) rows)
          (map (λ r. some (type_of r)) rows)
          (map (λ r. some r.outcome) rows)
          (map (λ r. some r.worker_host) rows)
          (map (λ r. pos (start_of epoch_ms r)) rows)
          (map (λ r. sub_ℕ (epoch_ms r.finished_at) (start_of epoch_ms r)) rows)
        ≡ map bar_of rows
  unfolding bars
  bars_of_rows [] = refl
  bars_of_rows (r ∷ rows) =
      ground (arith, add-sub_ℕ (epoch_ms r.finished_at) (epoch_ms r.started_at), bars_of_rows rows)

  -- The encoding never fails on a key, and a client that follows the format's description reads back
  -- each job's id, type, outcome, worker, start and end, in the order of the starts.
  pub decode_timeline-encode_timeline :
      (rows : List Row)
      → (t : Timeline) × (encode_timeline epoch_ms rows ≡ return t)
        × (decode_timeline t ≡ map bar_of (sort_by (earlier epoch_ms) rows))
  unfolding encode_timeline decode_timeline
  decode_timeline-encode_timeline rows =
      let ordered = sort_by (earlier epoch_ms) rows in
      let start_ms = map (start_of epoch_ms) ordered in
      let labels = labels_of ordered [] in
      let outcomes = distinct [] (map (λ r. r.outcome) ordered) in
      let workers = distinct [] (map (λ r. r.worker_host) ordered) in
      let (ts, te, tb) = indices-All type_of ordered (keys labels) (has-labels_of ordered []) in
      let (os, oe, ob) =
        indices-All (λ r. r.outcome) ordered outcomes
          (All-of-map (λ r. r.outcome) outcomes ordered
            (has-distinct [] (map (λ r. r.outcome) ordered))) in
      let (ws, we, wb) =
        indices-All (λ r. r.worker_host) ordered workers
          (All-of-map (λ r. r.worker_host) workers ordered
            (has-distinct [] (map (λ r. r.worker_host) ordered))) in
      let ids = running_sums-deltas (map (λ r. r.id) ordered) 0 ∙ map-map pos (λ r. r.id) ordered in
      let starts =
        running_sums-deltas start_ms (or_zero (first start_ms))
        ∙ map-map pos (start_of epoch_ms) ordered in
      (
        record {
          t0 = first start_ms;
          types = keys labels;
          labels = map (λ e. e.1) labels;
          outcomes = outcomes;
          workers = workers;
          id = deltas (map (λ r. r.id) ordered) 0;
          type = ts;
          outcome = os;
          worker = ws;
          start = deltas start_ms (or_zero (first start_ms));
          dur = map (λ r. sub_ℕ (epoch_ms r.finished_at) (start_of epoch_ms r)) ordered;
        },
        ground (arith, te, oe, we),
        rw (ids, tb, ob, wb, starts) (bars_of_rows ordered),
      )
