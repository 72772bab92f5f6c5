-- ===== src/Worker/Metrics.antt =====
-- src/models/job_metrics.py and src/worker/job_metrics_context.py: what one job adds up to in its
-- metrics row. Times are in microseconds. The dashboard's labels are left out of the row.
use tiles_processor.Base.{ℕ, ◌-◌, List, [], Option, none, some, Bool, true, false, Text}
use tiles_processor.WorkUnit.{WorkUnit}

pub data JobOutcome : Type 0 where
  success error dlq requeued skipped : JobOutcome

abbrev pub Timings : Type 0
Timings = List (Text × ℕ)

pub record JobMetricsContext : Type 0 where
  pub work_unit : WorkUnit
  pub worker_host : Text
  pub started_at : ℕ
  pub outcome : Option JobOutcome
  pub error_message : Option Text
  pub download_s : Option ℕ
  pub process_s : Option ℕ
  pub stage_timings : Timings

-- `__init__`
abbrev pub collect : WorkUnit → (worker_host : Text) → (now : ℕ) → JobMetricsContext
collect u worker_host now = record {
  work_unit = u;
  worker_host = worker_host;
  started_at = now;
  outcome = none;
  error_message = none;
  download_s = none;
  process_s = none;
  stage_timings = [];
}

abbrev pub mark_outcome : JobOutcome → Option Text → JobMetricsContext → JobMetricsContext
mark_outcome o message c = record c { outcome = some o; error_message = message }

abbrev pub has_outcome : JobMetricsContext → Bool
has_outcome c = elim c.outcome [ none ↦ false | some _ ↦ true ]

pub record JobMetrics : Type 0 where
  pub work_unit_id : Text
  pub image_id : Text
  pub data_source_id : Text
  pub processor_id : Text
  pub band_id : Text
  pub outcome : JobOutcome
  pub worker_host : Text
  pub started_at : ℕ
  pub finished_at : ℕ
  pub retry_count : ℕ
  pub error_message : Option Text
  pub download_s : Option ℕ
  pub process_s : Option ℕ
  pub total_s : ℕ
  pub stage_timings : Timings

-- `none` stands for the ValueError of a context with no outcome.
abbrev pub build : (now : ℕ) → JobMetricsContext → Option JobMetrics
build now c = elim c.outcome [
  | none ↦ none
  | some o ↦ some (record {
    work_unit_id = c.work_unit.work_unit_id;
    image_id = c.work_unit.image_id;
    data_source_id = c.work_unit.data_source_id;
    processor_id = c.work_unit.processor_id;
    band_id = c.work_unit.band_id;
    outcome = o;
    worker_host = c.worker_host;
    started_at = c.started_at;
    finished_at = now;
    retry_count = c.work_unit.retry_count;
    error_message = c.error_message;
    download_s = c.download_s;
    process_s = c.process_s;
    total_s = now - c.started_at;
    stage_timings = c.stage_timings;
  })
]
