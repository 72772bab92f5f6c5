-- ===== src/Worker/Teardown.antt =====
-- src/worker/work_handler.py, `_read_stage_timings`: the timings that a child left, and how long it took
-- to end after that. An object is a list of pairs; times are in microseconds.
use tiles_processor.Base.{
  ℕ, ◌-◌, not, [], ◌∷◌, Option, none, some, Text, codes, text_eq, keep, leb, if◌then◌else◌, Result,
  return, raise,
}
use tiles_processor.Worker.Metrics.{Timings}

-- FINISHED_AT_KEY of src/processors/base_processor.py.
abbrev pub finished_at_key : Text
finished_at_key = codes "_finished_at"

abbrev value_of : Text → Timings → Option ℕ
value_of key [] = none
value_of key ((k, v) ∷ timings) = if text_eq k key then some v else value_of key timings

abbrev set_value : Text → ℕ → Timings → Timings
set_value key value [] = (key, value) ∷ []
set_value key value ((k, v) ∷ timings) =
    let rest = set_value key value timings in
    if text_eq k key then (k, value) ∷ timings else (k, v) ∷ rest

-- The mark is a number, since the child writes one.
unfoldable pub derive_teardown : Timings → (exited_at : ℕ) → Timings
derive_teardown timings exited_at =
    let rest = keep (λ t. not (text_eq t.0 finished_at_key)) timings in
    elim (value_of finished_at_key timings) [
      | none ↦ rest
      | some finished_at ↦
          if leb finished_at exited_at
          then set_value (codes "teardown") (exited_at - finished_at) rest
          else rest
    ]

-- `none` is a sink that is not there; a `raise` is an OSError or a ValueError.
unfoldable pub read_stage_timings : (sink : Result (Option Timings)) → (exited_at : ℕ) → Timings
unfolding derive_teardown
read_stage_timings (raise e) exited_at = []
read_stage_timings (return none) exited_at = []
read_stage_timings (return (some timings)) exited_at = derive_teardown timings exited_at
