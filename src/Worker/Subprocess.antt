-- ===== src/Worker/Subprocess.antt =====
-- The process boundary: src/worker/exit_codes.py, `main` of src/worker/subprocess_processor.py in
-- the child, and the parent's reading of its exit in src/worker/work_handler.py.
pub mod Boundary
use tiles_processor.Base.{
  ℕ, zero, suc, ◌-◌, ◌≤◌, Bool, true, false, List, [], ◌∷◌, ◌++◌, Option, none, some, Text, codes,
  leb, ◌==◌, ◌||◌, ◌&&◌, if◌then◌else◌, Exception, Kind, Result, return, raise, strip, take,
  unprocessable_input, invalid_grib_response, shutdown_requested, runtime_error,
}
use mathlib.Core.List.{reverse}

abbrev pub exit_success_code : ℕ
exit_success_code = 0

abbrev pub exit_error_code : ℕ
exit_error_code = 1

abbrev pub exit_skip_code : ℕ
exit_skip_code = 2

abbrev pub exit_shutdown_code : ℕ
exit_shutdown_code = 3

abbrev pub skip_reason_prefix : Text
skip_reason_prefix = codes "[UNPROCESSABLE] "

-- The exit code and the lines on stderr of a run whose processing ended so. `traceback` is what
-- print_exc writes.
unfoldable pub main : (traceback : Exception → List Text) → Result Unit → ℕ × List Text
main traceback (return _) = (exit_success_code, [])
main traceback (raise e) = elim e.kind [
  | shutdown_requested ↦ (exit_shutdown_code, [])
  | unprocessable_input ↦ (exit_skip_code, (skip_reason_prefix ++ e.message) ∷ [])
  | invalid_grib_response ↦ (exit_skip_code, (skip_reason_prefix ++ e.message) ∷ [])
  | _ ↦ (exit_error_code, traceback e)
]

-- How the child ended: a return code, a signal (a negative code), or past the 30 minutes.
pub data Exit : Type 0 where
  code : ℕ → Exit
  signal : ℕ → Exit
  timeout : Exit

is_space : ℕ → Bool
is_space c = c == 32 || leb 9 c && leb c 13

drop_spaces : Text → Text
unfolding is_space
drop_spaces [] = []
drop_spaces (c ∷ s) = if is_space c then drop_spaces s else c ∷ s

-- `line.rstrip()`, for ASCII.
unfoldable pub rstrip : Text → Text
unfolding drop_spaces
rstrip s = reverse (drop_spaces (reverse s))

-- `deque(maxlen=50)`, the newest line first.
unfoldable pub append_line : List Text → Text → List Text
append_line buffer [] = buffer
append_line buffer (c ∷ s) = (c ∷ s) ∷ take 49 buffer

unfoldable pub stream_stderr : List Text → List Text → List Text
unfolding append_line rstrip
stream_stderr buffer [] = buffer
stream_stderr buffer (raw ∷ lines) = stream_stderr (append_line buffer (rstrip raw)) lines

-- Over the buffer, the newest line first.
unfoldable pub extract_skip_reason : List Text → Text
unfolding strip
extract_skip_reason [] = codes "unprocessable input"
extract_skip_reason (line ∷ lines) = elim (strip skip_reason_prefix line) [
  | none ↦ extract_skip_reason lines
  | some reason ↦ reason
]

abbrev failed : Exit → List Text → Exception
failed e buffer = record { kind = runtime_error; message = codes "Processing subprocess failed" }

-- What `_run_processing_subprocess` raises or returns for a child that ended so.
unfoldable pub run_processing_subprocess : Exit → (stderr : List Text) → Result Unit
unfolding stream_stderr extract_skip_reason
run_processing_subprocess timeout stderr = raise (record {
  kind = runtime_error;
  message = codes "Processing subprocess timed out after 30 minutes";
})
run_processing_subprocess (signal n) stderr = raise (failed (signal n) (stream_stderr [] stderr))
run_processing_subprocess (code n) stderr =
    if n == exit_skip_code
    then raise (record {
      kind = unprocessable_input;
      message = extract_skip_reason (stream_stderr [] stderr);
    })
    else if n == exit_shutdown_code
    then raise
        (record { kind = shutdown_requested; message = codes "shutdown interrupted processing" })
    else if n == exit_success_code
    then return tt
    else raise (failed (code n) (stream_stderr [] stderr))
