-- ===== src/Metrics/Repository/Copies.antt =====
-- Copying the jobs of one database into a new one.
use tiles_processor.Base.{
  ℕ, ◌+◌, ◌≡◌, refl, ap, sym, ◌∙◌, subst, true, false, List, [], ◌∷◌, ◌++◌, map, none, some, Text,
  arith, text_leb, All-map, keep, All, sort_by, Ordered, sort_by-Ordered, sort_by-eq_of_Ordered,
}
use tiles_processor.Worker.Metrics.{Timings}
use tiles_processor.Metrics.Repository.{
  Columns, JobRow, Job, Table, Json, at_or_after, later_finish, job_to_dict, row_of, stages_to_json,
  stages_of_json, insert_row, export_jobs, Key, key_of, seen_key, collect, insert_all, import_jobs,
}
use tiles_processor.Metrics.Repository.Imports.{keys_of_jobs, same_key_iff, after_import}
use mathlib.Core.List.{append-nil, append_assoc}

abbrev pub empty_table : Table
empty_table = record { rows = []; next_id = 1 }

-- A job without the id that its database gave it.
abbrev pub content : Job → Columns × Timings
content job = (job.columns, job.stage_timings)

abbrev pub AreDistinct : List Key → Type 0
AreDistinct [] = Unit {0}
AreDistinct (k ∷ ks) = (seen_key k ks ≡ false) × AreDistinct ks

abbrev Unseen : List Key → List Job → Type 0
Unseen seen jobs = All (λ job. seen_key (key_of job.columns) seen ≡ false) jobs

Unseen-cons :
    (k : Key) (seen : List Key) (jobs : List Job)
    → seen_key k (keys_of_jobs jobs) ≡ false
    → Unseen seen jobs
    → Unseen (k ∷ seen) jobs
unfolding seen_key
Unseen-cons k seen [] h g = tt
Unseen-cons k seen (job ∷ jobs) h g = (
  ground (arith, g.0, h, same_key_iff k (key_of job.columns), same_key_iff (key_of job.columns) k),
  Unseen-cons k seen jobs (ground (arith, h)) g.1,
)

collect_fresh :
    (seen : List Key) (jobs : List Job)
    → AreDistinct (keys_of_jobs jobs)
    → Unseen seen jobs
    → collect seen jobs ≡ (jobs, 0)
unfolding collect
collect_fresh seen [] d u = refl
collect_fresh seen (job ∷ jobs) d u =
    let key = key_of job.columns in
    rw (u.0, collect_fresh (key ∷ seen) jobs d.1 (Unseen-cons key seen jobs d.0 u.1)) refl

none_seen : (jobs : List Job) → Unseen [] jobs
unfolding seen_key
none_seen [] = tt
none_seen (job ∷ jobs) = (refl, none_seen jobs)

module _ (json : Json) where
  -- The rows of newly inserted jobs.
  rows_from : ℕ → List Job → List JobRow
  rows_from n [] = []
  rows_from n (job ∷ jobs) = row_of json n job.columns job.stage_timings ∷ rows_from (n + 1) jobs

  insert_all-rows :
      (jobs : List Job) (t : Table)
      → (insert_all json jobs t).rows ≡ t.rows ++ rows_from t.next_id jobs
  unfolding insert_all insert_row rows_from
  insert_all-rows [] t = sym (append-nil _)
  insert_all-rows (job ∷ jobs) t =
      let new = row_of json t.next_id job.columns job.stage_timings in
      insert_all-rows jobs (insert_row json job.columns job.stage_timings t)
      ∙ append_assoc t.rows (new ∷ []) (rows_from (t.next_id + 1) jobs)

  abbrev finish_of_row : JobRow → Text
  finish_of_row r = r.columns.finished_at

  abbrev finish_of : Job → Text
  finish_of job = job.columns.finished_at

  exported-Ordered :
      (rows : List JobRow)
      → Ordered finish_of_row rows
      → Ordered finish_of (map (job_to_dict json) rows)
  unfolding job_to_dict
  exported-Ordered [] h = tt
  exported-Ordered (r ∷ rows) h = (
    All-map (λ s. text_leb s.columns.finished_at r.columns.finished_at ≡ true)
        (λ job. text_leb job.columns.finished_at r.columns.finished_at ≡ true) (job_to_dict json)
        rows (λ s k. k) h.0,
    exported-Ordered rows h.1,
  )

  All-rows_from :
      (P : Columns → Type 0) (n : ℕ) (jobs : List Job)
      → All (λ job. P job.columns) jobs
      → All (λ r. P r.columns) (rows_from n jobs)
  unfolding rows_from
  All-rows_from P n [] h = tt
  All-rows_from P n (job ∷ jobs) h = (h.0, All-rows_from P (n + 1) jobs h.1)

  rows_from-Ordered :
      (n : ℕ) (jobs : List Job) → Ordered finish_of jobs → Ordered finish_of_row (rows_from n jobs)
  unfolding rows_from
  rows_from-Ordered n [] h = tt
  rows_from-Ordered n (job ∷ jobs) h = (
    All-rows_from (λ c. text_leb c.finished_at job.columns.finished_at ≡ true) (n + 1) jobs h.0,
    rows_from-Ordered (n + 1) jobs h.1,
  )

  every_row : (rows : List JobRow) → keep (at_or_after none) rows ≡ rows
  every_row [] = refl
  every_row (r ∷ rows) = ap (λ rest. r ∷ rest) (every_row rows)

  module _ (loads-dumps : (s : Timings) → json.loads (json.dumps s) ≡ some s)
      (writes : (s : Timings) → (c : ℕ) × (rest : Text) × (json.dumps s ≡ c ∷ rest)) where
    stages_again : (s : Timings) → stages_of_json json (stages_to_json json s) ≡ s
    stages_again [] = refl
    stages_again (x ∷ s) =
        let (c, rest, e) = writes (x ∷ s) in
        let read : json.loads (c ∷ rest) ≡ some (x ∷ s) =
          subst (λ t. json.loads t ≡ some (x ∷ s)) e (loads-dumps (x ∷ s)) in
        rw (e, read) refl

    content-rows_from :
        (n : ℕ) (jobs : List Job)
        → map content (map (job_to_dict json) (rows_from n jobs)) ≡ map content jobs
    unfolding rows_from job_to_dict
    content-rows_from n [] = refl
    content-rows_from n (job ∷ jobs) =
        rw (stages_again job.stage_timings)
          (ap (λ rest. content job ∷ rest) (content-rows_from (n + 1) jobs))

    -- If JSON reads back the timings that it wrote, as a text that is not empty, and no two jobs of
    -- an export have one key, an import of it into a new database that is committed and an export
    -- of that one give the same jobs in the same order, but for their ids.
    pub export_jobs-import_jobs :
        (t : Table)
        → AreDistinct (keys_of_jobs (export_jobs json none t))
        → let jobs = export_jobs json none t in
          map content (export_jobs json none (import_jobs json true jobs empty_table).1)
          ≡ map content jobs
    unfolding export_jobs
    export_jobs-import_jobs t d =
        let jobs = map (job_to_dict json) (sort_by later_finish (keep (at_or_after none) t.rows)) in
        let fresh = collect_fresh [] jobs d (none_seen jobs) in
        let rows : (import_jobs json true jobs empty_table).1.rows ≡ rows_from 1 jobs =
          ap (λ u. u.rows) (after_import json jobs empty_table)
          ∙ rw fresh (insert_all-rows jobs empty_table) in
        let sorted =
          exported-Ordered (sort_by later_finish (keep (at_or_after none) t.rows))
            (sort_by-Ordered finish_of_row (keep (at_or_after none) t.rows)) in
        let same =
          sort_by-eq_of_Ordered finish_of_row (rows_from 1 jobs)
            (rows_from-Ordered 1 jobs sorted) in
        ap
          (λ found.
            map content
              (map (job_to_dict json) (sort_by later_finish (keep (at_or_after none) found))))
          rows
        ∙ ap (λ found. map content (map (job_to_dict json) (sort_by later_finish found)))
            (every_row (rows_from 1 jobs))
        ∙ ap (λ found. map content (map (job_to_dict json) found)) same
        ∙ content-rows_from 1 jobs
