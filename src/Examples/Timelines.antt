-- ===== src/Examples/Timelines.antt =====
-- Three finished jobs, out of the order of their starts.
use tiles_processor.Base.{
  ℕ, ◌≡◌, List, [], ◌∷◌, map, none, some, Text, codes, length, sort_by, return,
}
use tiles_processor.Metrics.Timeline.{Row, Timeline, earlier, encode_timeline, decode_timeline}
use tiles_processor.Metrics.Timeline.RoundTrip.{bar_of, decode_timeline-encode_timeline}

abbrev job : ℕ → (job_type : Text) → (started_at finished_at : Text) → Row
job n job_type started_at finished_at = record {
  id = n;
  job_type = job_type;
  product_label = codes "label";
  outcome = some (codes "success");
  worker_host = none;
  started_at = started_at;
  finished_at = finished_at;
}

-- A text stands for the number of its letters.
abbrev ms : Text → ℕ
ms = length

abbrev rows : List Row
rows =
    job 11 (codes "radar") (codes "..") (codes "...")
    ∷ job 10 (codes "goes") (codes ".") (codes ".....")
    ∷ job 12 (codes "radar") (codes "...") (codes ".")
    ∷ []

decode_timeline-encode_timeline_example :
    (t : Timeline) × (encode_timeline ms rows ≡ return t)
    × (decode_timeline t ≡ map (bar_of ms) (sort_by (earlier ms) rows))
decode_timeline-encode_timeline_example = decode_timeline-encode_timeline ms rows
