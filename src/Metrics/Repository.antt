-- ===== src/Metrics/Repository.antt =====
-- src/clients/metrics_repository.py: the table job_metrics, its rows from the oldest id to the newest.
-- A SELECT with no ORDER BY reads the rows in this order, and one that sorts keeps it between equals.
-- JSON is a parameter, times are ISO texts and durations numbers; sums and averages are left out.
pub mod Pruning
pub mod Copies
pub mod Histories
pub mod Imports
pub mod Windows
use mathlib.Core.List.{reverse}
use tiles_processor.Base.{
  ℕ, zero, suc, ◌+◌, ◌-◌, Bool, true, false, not, ◌&&◌, List, [], ◌∷◌, ◌++◌, map, Option, none,
  some, Text, codes, text_eq, text_leb, leb, ltb, ◌==◌, if◌then◌else◌, length, take, drop, keep,
  get_elem?, sort_by, Exec, Exception, Kind, other, pure, throw, modify, gets, branch, ◌>>=◌, ◌>>◌,
}
use tiles_processor.Worker.Metrics.{Timings}

-- _COLUMNS, in the order of the INSERT.
pub record Columns : Type 0 where
  pub work_unit_id : Option Text
  pub image_id : Text
  pub data_source_id : Text
  pub processor_id : Option Text
  pub band_id : Option Text
  pub job_type : Text
  pub product_label : Option Text
  pub image_timestamp : Option Text
  pub outcome : Text
  pub worker_host : Option Text
  pub started_at : Text
  pub finished_at : Text
  pub retry_count : ℕ
  pub error_message : Option Text
  pub download_s : Option ℕ
  pub process_s : Option ℕ
  pub total_s : Option ℕ

pub record JobRow : Type 0 where
  pub id : ℕ
  pub columns : Columns
  pub stage_timings_json : Option Text

-- A row as `_job_to_dict` gives it, and as an import takes it.
pub record Job : Type 0 where
  pub id : ℕ
  pub columns : Columns
  pub stage_timings : Timings

pub record Table : Type 0 where
  pub rows : List JobRow
  pub next_id : ℕ

-- `json.dumps`, and `json.loads` with none for its ValueError.
pub record Json : Type 0 where
  pub dumps : Timings → Text
  pub loads : Text → Option Timings

-- `if text:` for a text that may be None.
abbrev pub is_given : Option Text → Bool
is_given none = false
is_given (some []) = false
is_given (some (c ∷ s)) = true

abbrev pub at_or_after : (since : Option Text) → JobRow → Bool
at_or_after (some (c ∷ s)) r = text_leb (c ∷ s) r.columns.finished_at
at_or_after _ r = true

abbrev pub is_before : (before : Option Text) → JobRow → Bool
is_before (some (c ∷ s)) r = not (text_leb (c ∷ s) r.columns.finished_at)
is_before _ r = true

abbrev pub has_value : (wanted : Option Text) → (value : Text) → Bool
has_value (some (c ∷ s)) value = text_eq value (c ∷ s)
has_value _ value = true

-- The WHERE clause of recent_jobs.
abbrev pub is_wanted : (job_type outcome since before : Option Text) → JobRow → Bool
is_wanted job_type outcome since before r =
    has_value job_type r.columns.job_type
    && (has_value outcome r.columns.outcome && (at_or_after since r && is_before before r))

-- `ORDER BY finished_at DESC`, and `ORDER BY id DESC`
abbrev pub later_finish : JobRow → JobRow → Bool
later_finish r s = text_leb s.columns.finished_at r.columns.finished_at

abbrev pub later_id : JobRow → JobRow → Bool
later_id r s = leb s.id r.id

abbrev pub Key : Type 0
Key = Option Text × Text × Text × Text

abbrev pub key_of : Columns → Key
key_of c = (c.work_unit_id, c.image_id, c.finished_at, c.outcome)

abbrev pub same_text : Option Text → Option Text → Bool
same_text none none = true
same_text (some s) (some t) = text_eq s t
same_text _ _ = false

unfoldable pub same_key : Key → Key → Bool
same_key (w, i, f, o) (w', i', f', o') =
    same_text w w' && (text_eq i i' && (text_eq f f' && text_eq o o'))

unfoldable pub seen_key : Key → List Key → Bool
unfolding same_key
seen_key key [] = false
seen_key key (k ∷ seen) = if same_key k key then true else seen_key key seen

abbrev pub skip : List Job × ℕ → List Job × ℕ
skip (to_insert, skipped) = (to_insert, skipped + 1)

abbrev pub accept : Job → List Job × ℕ → List Job × ℕ
accept job (to_insert, skipped) = (job ∷ to_insert, skipped)

-- The loop of import_jobs: the jobs to insert, and how many were skipped.
unfoldable pub collect : (seen : List Key) → List Job → List Job × ℕ
unfolding seen_key
collect seen [] = ([], 0)
collect seen (job ∷ jobs) =
    let key = key_of job.columns in
    let skipping = skip (collect seen jobs) in
    let taking = accept job (collect (key ∷ seen) jobs) in
    if seen_key key seen then skipping else taking

abbrev pub keys_of : List JobRow → List Key
keys_of [] = []
keys_of (r ∷ rows) = key_of r.columns ∷ keys_of rows

pub record ImportResult : Type 0 where
  pub inserted : ℕ
  pub skipped : ℕ

module _ (json : Json) where
  abbrev pub stages_to_json : Timings → Option Text
  stages_to_json [] = none
  stages_to_json (s ∷ stages) = some (json.dumps (s ∷ stages))

  abbrev pub or_empty : Option Timings → Timings
  or_empty none = []
  or_empty (some stages) = stages

  abbrev pub stages_of_json : Option Text → Timings
  stages_of_json none = []
  stages_of_json (some []) = []
  stages_of_json (some (c ∷ raw)) = or_empty (json.loads (c ∷ raw))

  unfoldable pub job_to_dict : JobRow → Job
  job_to_dict row = record {
    id = row.id;
    columns = row.columns;
    stage_timings = stages_of_json row.stage_timings_json;
  }

  abbrev pub row_of : (id : ℕ) → Columns → Timings → JobRow
  row_of id columns stages = record {
    id = id;
    columns = columns;
    stage_timings_json = stages_to_json stages;
  }

  -- One INSERT; `id` is autoincremented.
  unfoldable pub insert_row : Columns → Timings → Table → Table
  insert_row columns stages t = record {
    rows = t.rows ++ row_of t.next_id columns stages ∷ [];
    next_id = t.next_id + 1;
  }

  -- `MetricsRepository.record`, and whether the database takes the row.
  unfoldable pub record_job : (takes : Bool) → Columns → Timings → Exec Table Unit
  unfolding insert_row
  record_job takes columns stages = branch takes (modify (insert_row columns stages)) (pure tt)

  -- A limit or an offset below 0 is as 0.
  abbrev pub page : (limit offset : ℕ) → List JobRow → List JobRow
  page zero offset rows = drop offset rows
  page (suc limit) offset rows = take (if leb limit 999 then suc limit else 1000) (drop offset rows)

  unfoldable pub recent_jobs :
      (limit : ℕ) (job_type outcome : Option Text) (offset : ℕ) (since before : Option Text)
      → Table
      → List Job
  unfolding job_to_dict
  recent_jobs limit job_type outcome offset since before t = map job_to_dict (
      page limit offset
        (sort_by later_finish (keep (is_wanted job_type outcome since before) t.rows)))

  unfoldable pub export_jobs : (since : Option Text) → Table → List Job
  unfolding job_to_dict
  export_jobs since t = map job_to_dict (sort_by later_finish (keep (at_or_after since) t.rows))

  unfoldable pub insert_all : List Job → Table → Table
  unfolding insert_row
  insert_all [] t = t
  insert_all (job ∷ jobs) t = insert_all jobs (insert_row job.columns job.stage_timings t)

  abbrev pub rolled_back : Exception
  rolled_back = record { kind = Kind.other; message = codes "sqlite3.Error" }

  -- `commits` says whether the transaction goes through; one that does not is rolled back.
  unfoldable pub import_jobs : (commits : Bool) → List Job → Exec Table ImportResult
  unfolding collect insert_all
  import_jobs commits jobs = do
    collected ← gets (λ t. collect (keys_of t.rows) jobs)
    elim collected.0 [
      | [] ↦ pure tt
      | job ∷ more ↦ branch commits (modify (insert_all (job ∷ more))) (throw rolled_back)
    ]
    pure (record { inserted = length collected.0; skipped = collected.1 })

-- `LIMIT 1 OFFSET max_rows - 1`
unfoldable pub prune_to_max_rows : (max_rows : ℕ) → Table → Table × ℕ
prune_to_max_rows zero t = (t, 0)
prune_to_max_rows (suc older) t = elim (get_elem? (sort_by later_id t.rows) older) [
  | none ↦ (t, 0)
  | some row ↦
      let kept = keep (λ r. not (ltb r.id row.id)) t.rows in
      (record t { rows = kept }, length t.rows - length kept)
]

unfoldable pub timeline_rows : (since : Text) (before : Option Text) → Table → List JobRow
timeline_rows since before t =
    keep (λ r. text_leb since r.columns.finished_at && is_before before r) t.rows

unfoldable pub first_with : (id : ℕ) → List JobRow → Option JobRow
first_with id [] = none
first_with id (r ∷ rows) = if r.id == id then some r else first_with id rows

unfoldable pub get_job : Json → (job_id : ℕ) → Table → Option Job
unfolding first_with job_to_dict
get_job json job_id t = elim (first_with job_id t.rows) [
  | none ↦ none
  | some row ↦ some (job_to_dict json row)
]
