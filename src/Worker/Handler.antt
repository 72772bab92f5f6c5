-- ===== src/Worker/Handler.antt =====
-- src/worker/work_handler.py, `handle`: download, process, mark completed, and clean up.
pub mod Frame
pub mod Effects
use mathlib.Core.List.{reverse}
use tiles_processor.Base.{
  ℕ, zero, suc, ◌+◌, Bool, true, false, not, ◌&&◌, ◌||◌, List, [], ◌∷◌, ◌++◌, Option, none, some,
  Text, text_eq, codes, if◌then◌else◌, ◌==◌, length, keep, Exec, Exception, Kind, Result, return,
  raise, pure, throw, branch, lift, gets, modify, try_except, try_finally, recover, ◌>>=◌, ◌>>◌,
  key_error, file_not_found, source_file_not_found,
}
use tiles_processor.WorkUnit.{WorkUnit}
use tiles_processor.Tracker.{ProgressTracker, mark_processing, mark_completed}
use tiles_processor.Rabbit.{Client}
use tiles_processor.Rabbit.Pika.{Amqp}
use tiles_processor.Worker.Metrics.{JobMetricsContext, Timings}
use tiles_processor.Worker.Subprocess.{run_processing_subprocess}
use tiles_processor.Worker.Teardown.{read_stage_timings}
use tiles_processor.Worker.Site.{Site, Answers, on_client, interrupt}

-- What follows the last `sep` of a text, over the text reversed, and what precedes it.
last_part : ℕ → (seen : Text) → Text → Text
last_part sep seen [] = seen
last_part sep seen (c ∷ s) = if c == sep then seen else last_part sep (c ∷ seen) s

-- `Path(p).name`
path_name : Text → Text
unfolding last_part
path_name p = last_part b'/' [] (reverse p)

-- The text before the last dot, if the dot is neither first nor last.
before_dot : Text → Text → Option Text
before_dot tail [] = none
before_dot tail (c ∷ s) =
    if c == b'.'
    then (if text_eq tail [] || text_eq s [] then none else some (reverse s))
    else before_dot (c ∷ tail) s

-- `Path(p).stem`
path_stem : Text → Text
unfolding path_name before_dot
path_stem p = elim (before_dot [] (reverse (path_name p))) [ none ↦ path_name p | some s ↦ s ]

abbrev slash : Text → Text → Text
slash a b = a ++ (b'/' ∷ b)

abbrev pub unknown_source : Exception
unknown_source = record { kind = key_error; message = codes "Unknown data source" }

abbrev pub missing_source_file : Exception
missing_source_file = record {
  kind = source_file_not_found;
  message = codes "Source file not found";
}

module _ (amqp : Amqp) (answers : Answers amqp) (u : WorkUnit) where
  open answers use {now, attempt}

  pub work_dir : (base_dir : Text) → Text
  unfolding path_stem
  work_dir base_dir =
      slash (slash base_dir u.band_id) (path_stem u.image_id ++ codes "-" ++ attempt)

  -- A sibling of the work directory.
  pub metrics_sink : (base_dir : Text) → Text
  unfolding path_stem
  metrics_sink base_dir =
      slash (slash base_dir u.band_id)
        (path_stem u.image_id ++ codes "-" ++ attempt ++ codes ".metrics.json")

  abbrev pub State : Type 0
  State = Site amqp × JobMetricsContext

  abbrev pub on_site : {A : Type 0} → Exec (Site amqp) A → Exec State A
  on_site m (s, c) = let (r, t) = m s in (r, (t, c))

  abbrev pub collector : (JobMetricsContext → JobMetricsContext) → Exec State Unit
  collector f (s, c) = (return tt, (s, f c))

  abbrev tracked : (ProgressTracker → ProgressTracker) → Site amqp → Site amqp
  tracked f s = record s { tracker = f s.tracker }

  -- A missing file becomes SourceFileNotFoundError here, and only here.
  pub translate : Exception → Exec State Text
  translate e = elim e.kind [ file_not_found ↦ throw missing_source_file | _ ↦ throw e ]

  unfoldable pub download : Exec State Text
  download = do on_site (interrupt amqp answers.signal_in_download); lift (answers.download u)

  unfoldable pub fetch : Exec State Text
  fetch = do
    path ← try_except download translate
    collector (λ c. record c { download_s = some answers.download_time })
    pure path

  pub process_inline : Text → Exec State Unit
  process_inline path = do
    timings ← on_site (on_client amqp (answers.inline path u))
    on_site (interrupt amqp answers.signal_in_process)
    collector (λ c. record c { stage_timings = timings })

  -- A processor makes directories of its own, which stay if it is killed.
  unfoldable pub leave : Exec State Unit
  leave = on_site (modify (λ s. record s { scratch = answers.left ++ s.scratch }))

  unfoldable pub process_child : Text → Exec State Unit
  unfolding read_stage_timings leave
  process_child path = do
    leave
    on_site (interrupt amqp answers.signal_in_process)
    lift (let (ended, stderr) = answers.child path u in run_processing_subprocess ended stderr)
    collector (λ c. record c { stage_timings = read_stage_timings answers.sink answers.exited_at })

  unfoldable pub process : Text → Exec State Unit
  process path = do
    branch (answers.is_inline u.processor_id) (process_inline path) (process_child path)
    collector (λ c. record c { process_s = some answers.process_time })

  -- The paths that are not this attempt's.
  unfoldable pub without_attempt : (base_dir : Text) → List Text → List Text
  without_attempt base_dir paths =
      keep (λ p. not (text_eq p (work_dir base_dir)) && not (text_eq p (metrics_sink base_dir)))
        paths

  -- rmtree and unlink log an OSError and go on.
  unfoldable pub cleanup : State → State
  cleanup (s, c) = (
    record s {
      scratch = if answers.removes then without_attempt s.base_dir s.scratch else s.scratch;
    },
    c,
  )

  -- `_ensure_dir`, which makes the directory of the band too; the child writes the sink in that.
  unfoldable pub make_dirs : Site amqp → Site amqp
  make_dirs s = record s {
    scratch =
        work_dir s.base_dir ∷ metrics_sink s.base_dir ∷ slash s.base_dir u.band_id ∷ s.scratch;
  }

  unfoldable pub complete : Exec State Unit
  complete = on_site (modify (tracked (mark_completed u.image_id u.band_id)))

  -- The statements under `try`.
  unfoldable pub guarded : Exec State Unit
  guarded = do path ← fetch; process path; complete

  unfoldable pub handle : Exec State Unit
  handle = do
    on_site (modify (tracked (mark_processing now u.image_id u.band_id)))
    branch (answers.has_source u.data_source_id) (pure tt) (throw unknown_source)
    on_site (modify make_dirs)
    try_finally guarded cleanup
