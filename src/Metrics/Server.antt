-- ===== src/Metrics/Server.antt =====
-- src/metrics_api/server.py: the endpoints that read jobs, and the import. `ago` gives the ISO text of
-- the time that many hours ago. The parameters have passed FastAPI's checks.
pub mod Access
use tiles_processor.Base.{
  ℕ, zero, suc, Bool, true, false, not, ◌&&◌, ◌||◌, List, Option, none, some, Text, text_eq, ltb,
  ◌==◌, ◌∷◌, [], if◌then◌else◌, Exec, pure, gets, ◌>>=◌,
}
use tiles_processor.Metrics.Repository.{
  Table, Job, JobRow, Json, ImportResult, is_given, recent_jobs, get_job, timeline_rows,
  export_jobs, import_jobs,
}

-- A body, or the status of an HTTPException.
pub data Response (A : Type 0) : Type 0 where
  body : A → Response A
  http_error : (status_code : ℕ) → Response A

unfoldable pub since_from_hours : (ago : ℕ → Text) → (hours : Option ℕ) → Option Text
since_from_hours ago none = none
since_from_hours ago (some zero) = none
since_from_hours ago (some (suc hours)) = some (ago (suc hours))

-- `since or _since_from_hours(hours)`
unfoldable pub effective_since :
    (ago : ℕ → Text) → (since : Option Text) → (hours : Option ℕ) → Option Text
unfolding since_from_hours
effective_since ago since hours = if is_given since then since else since_from_hours ago hours

unfoldable pub api_jobs :
    Json
    → (ago : ℕ → Text)
    → (limit offset : ℕ) (job_type outcome : Option Text) (hours : Option ℕ)
      (since before : Option Text)
    → Table
    → List Job
unfolding effective_since
api_jobs json ago limit offset job_type outcome hours since before t =
    let start = effective_since ago since hours in
    let capped = if limit == 0 && not (is_given start || is_given before) then 1000 else limit in
    recent_jobs json capped job_type outcome offset start before t

unfoldable pub api_job : Json → (job_id : ℕ) → Table → Response Job
api_job json job_id t = elim (get_job json job_id t) [ none ↦ http_error 404 | some job ↦ body job ]

unfoldable pub timeline_of : (since before : Option Text) → Table → Response (List JobRow)
timeline_of none before t = http_error 422
timeline_of (some since) before t =
    if is_given (some since) then body (timeline_rows since before t) else http_error 422

-- The rows, before they are encoded.
unfoldable pub api_timeline :
    (ago : ℕ → Text)
    → (hours : Option ℕ) (since before : Option Text) → Table
    → Response (List JobRow)
unfolding effective_since timeline_of
api_timeline ago hours since before t = timeline_of (effective_since ago since hours) before t

-- `require_api_key`: the status that it raises, if any.
-- `secrets.compare_digest` raises a TypeError on a text that is not ASCII, which no handler catches.
abbrev pub is_ascii : Text → Bool
is_ascii [] = true
is_ascii (c ∷ s) = ltb c 128 && is_ascii s

unfoldable pub require_api_key : (expected : Text) (provided : Option Text) → Option ℕ
require_api_key expected provided =
    if not (is_given (some expected)) then some 503 else elim provided [
      | none ↦ some 401
      | some key ↦
          if not (is_given (some key))
          then some 401
          else if is_ascii key && is_ascii expected
          then (if text_eq key expected then none else some 401)
          else some 500
    ]

abbrev pub same_version : Option Text → Option Text → Bool
same_version none none = true
same_version (some s) (some t) = text_eq s t
same_version _ _ = false

-- With the dependency that runs before the endpoint.
unfoldable pub api_import :
    Json
    → (api_key : Text) (provided : Option Text) (current version : Option Text) (commits : Bool)
    → List Job
    → Exec Table (Response ImportResult)
unfolding require_api_key
api_import json api_key provided current version commits jobs =
    elim (require_api_key api_key provided) [
      | some status ↦ pure (http_error status)
      | none ↦ elim (same_version version current) [
        | false ↦ pure (http_error 409)
        | true ↦ do result ← import_jobs json commits jobs; pure (body result)
      ]
    ]
