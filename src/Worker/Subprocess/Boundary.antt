-- ===== src/Worker/Subprocess/Boundary.antt =====
-- What survives the process boundary: the child's exception as the parent raises it again.
use tiles_processor.Base.{
  ◌≡◌, ◌++◌, refl, ap, ◌∙◌, List, [], ◌∷◌, Option, none, some, Text, Exception, Kind, Result,
  return, raise, unprocessable_input, invalid_grib_response, shutdown_requested, runtime_error,
}
use tiles_processor.Worker.Subprocess.{
  main, run_processing_subprocess, stream_stderr, append_line, rstrip, extract_skip_reason,
  skip_reason_prefix, code,
}

-- The kind that the parent sees, of the kind that the child raised.
pub crossing : Kind → Kind
crossing shutdown_requested = shutdown_requested
crossing unprocessable_input = unprocessable_input
crossing invalid_grib_response = unprocessable_input
crossing _ = runtime_error

abbrev pub parent : (Exception → List Text) → (logged : List Text) → Result Unit → Result Unit
parent traceback logged r =
    let (n, lines) = main traceback r in run_processing_subprocess (code n) (logged ++ lines)

-- The kind of a failed run.
abbrev pub raised : Result Unit → Option Kind
raised (return _) = none
raised (raise e) = some e.kind

-- A shutdown and an unprocessable input keep their kind across the process boundary, and every
-- other exception, a missing file among them, becomes a RuntimeError; success stays success.
pub crossing_lem :
    (traceback : Exception → List Text) (logged : List Text) (e : Exception)
    → (raised (parent traceback logged (raise e)) ≡ some (crossing e.kind))
      × (parent traceback logged (return tt) ≡ return tt)
unfolding main run_processing_subprocess crossing
crossing_lem traceback logged e = (by_kind e.kind e.message, refl)
  where
    by_kind :
        (k : Kind) (m : Text)
        → raised (parent traceback logged (raise (record { kind = k; message = m })))
          ≡ some (crossing k)
    by_kind shutdown_requested m = refl
    by_kind _ m = refl

stream-append :
    (buffer lines more : List Text)
    → stream_stderr buffer (lines ++ more) ≡ stream_stderr (stream_stderr buffer lines) more
unfolding stream_stderr
stream-append buffer [] more = refl
stream-append buffer (l ∷ lines) more = stream-append (append_line buffer (rstrip l)) lines more

newest :
    (buffer : List Text) (line reason : Text)
    → rstrip line ≡ line
    → line ≡ skip_reason_prefix ++ reason
    → extract_skip_reason (stream_stderr buffer (line ∷ [])) ≡ reason
unfolding extract_skip_reason stream_stderr
newest buffer line reason tidy e = rw (tidy, e, append_line) refl

extracted :
    (logged : List Text) (reason : Text)
    → rstrip (skip_reason_prefix ++ reason) ≡ skip_reason_prefix ++ reason
    → extract_skip_reason (stream_stderr [] (logged ++ (skip_reason_prefix ++ reason) ∷ []))
      ≡ reason
extracted logged reason tidy =
    ap extract_skip_reason (stream-append [] logged ((skip_reason_prefix ++ reason) ∷ []))
    ∙ newest (stream_stderr [] logged) (skip_reason_prefix ++ reason) reason tidy refl

-- The reason that the child prints for an unprocessable input is the one that the parent raises
-- again, whatever was logged before, if it stands on one line with no space at its end.
pub skip_reason_crosses :
    (traceback : Exception → List Text) (logged : List Text) (reason : Text)
    → rstrip (skip_reason_prefix ++ reason) ≡ skip_reason_prefix ++ reason
    → parent traceback logged (raise (record { kind = unprocessable_input; message = reason }))
      ≡ raise (record { kind = unprocessable_input; message = reason })
unfolding main run_processing_subprocess
skip_reason_crosses traceback logged reason tidy =
    ap (λ m. raise (record { kind = unprocessable_input; message = m }))
      (extracted logged reason tidy)
