-- ===== src/Metrics/Repository/Histories.antt =====
-- The table after any calls.
use tiles_processor.Base.{
  ℕ, zero, suc, ◌+◌, ◌-◌, ◌≤◌, ◌<◌, ◌≡◌, Bool, true, false, List, [], ◌∷◌, ◌++◌, arith, length,
  length-drop, drop, All, All-append, All-implies,
}
use tiles_processor.Worker.Metrics.{Timings}
use tiles_processor.Metrics.Repository.{
  Columns, JobRow, Job, Table, Json, row_of, insert_row, insert_all, record_job, collect, keys_of,
  import_jobs, prune_to_max_rows,
}
use tiles_processor.Metrics.Repository.Pruning.{Ascending, prune_to_max_rows_lem}
use tiles_processor.Metrics.Repository.Imports.{after_import}
use tiles_processor.Metrics.Repository.Copies.{empty_table}

-- The calls that write.
pub data Call : Type 0 where
  records : (takes : Bool) → Columns → Timings → Call
  imports : (commits : Bool) → List Job → Call
  prunes : (max_rows : ℕ) → Call

pub record IsTable (t : Table) : Type 0 where
  pub ascending : Ascending t.rows
  pub below : All (λ r. r.id < t.next_id) t.rows

Ascending-append :
    (rows : List JobRow) (row : JobRow)
    → Ascending rows
    → All (λ r. r.id < row.id) rows
    → Ascending (rows ++ row ∷ [])
Ascending-append [] row h b = (tt, tt)
Ascending-append (r ∷ rows) row h b =
    (All-append (λ s. r.id < s.id) rows (row ∷ []) h.0 (b.0, tt), Ascending-append rows row h.1 b.1)

drop-kept :
    (n : ℕ) (P : JobRow → Type 0) (rows : List JobRow)
    → Ascending rows
    → All P rows
    → Ascending (drop n rows) × All P (drop n rows)
drop-kept zero P rows h b = (h, b)
drop-kept (suc n) P [] h b = (tt, tt)
drop-kept (suc n) P (r ∷ rows) h b = drop-kept n P rows h.1 b.1

module _ (json : Json) where
  unfoldable pub apply : Call → Table → Table
  unfolding record_job import_jobs prune_to_max_rows
  apply (records takes columns stages) t = (record_job json takes columns stages t).1
  apply (imports commits jobs) t = (import_jobs json commits jobs t).1
  apply (prunes max_rows) t = (prune_to_max_rows max_rows t).0

  unfoldable pub run : List Call → Table → Table
  unfolding apply
  run [] t = t
  run (call ∷ calls) t = run calls (apply call t)

  insert_row-IsTable :
      (columns : Columns) (stages : Timings) (t : Table)
      → IsTable t
      → IsTable (insert_row json columns stages t)
  unfolding insert_row
  insert_row-IsTable columns stages t h = record {
    ascending = Ascending-append t.rows (row_of json t.next_id columns stages) h.ascending h.below;
    below =
        All-append (λ r. r.id < t.next_id + 1) t.rows (row_of json t.next_id columns stages ∷ [])
          (All-implies (λ r. r.id < t.next_id) (λ r. r.id < t.next_id + 1) t.rows
            (λ r k. omega (arith, k)) h.below)
          (omega arith, tt);
  }

  insert_all-IsTable : (jobs : List Job) (t : Table) → IsTable t → IsTable (insert_all json jobs t)
  unfolding insert_all
  insert_all-IsTable [] t h = h
  insert_all-IsTable (job ∷ jobs) t h =
      insert_all-IsTable jobs (insert_row json job.columns job.stage_timings t)
        (insert_row-IsTable job.columns job.stage_timings t h)

  prune-IsTable : (max_rows : ℕ) (t : Table) → IsTable t → IsTable (prune_to_max_rows max_rows t).0
  prune-IsTable zero t h = unfold prune_to_max_rows in h
  prune-IsTable (suc older) t h =
      let kept =
        drop-kept (length t.rows - suc older) (λ r. r.id < t.next_id) t.rows h.ascending h.below in
      rw (prune_to_max_rows_lem (suc older) t h.ascending (omega arith))
        (record { ascending = kept.0; below = kept.1 })

  not_committed : (jobs : List Job) (t : Table) → (import_jobs json false jobs t).1 ≡ t
  unfolding import_jobs
  not_committed jobs t = ground arith

  import-IsTable :
      (commits : Bool) (jobs : List Job) (t : Table)
      → IsTable t
      → IsTable (import_jobs json commits jobs t).1
  import-IsTable true jobs t h =
      rw (after_import json jobs t) (insert_all-IsTable (collect (keys_of t.rows) jobs).0 t h)
  import-IsTable false jobs t h = rw (not_committed jobs t) h

  apply-IsTable : (call : Call) (t : Table) → IsTable t → IsTable (apply call t)
  unfolding apply record_job
  apply-IsTable (records true columns stages) t h = insert_row-IsTable columns stages t h
  apply-IsTable (records false columns stages) t h = h
  apply-IsTable (imports commits jobs) t h = import-IsTable commits jobs t h
  apply-IsTable (prunes max_rows) t h = prune-IsTable max_rows t h

  run-IsTable : (calls : List Call) (t : Table) → IsTable t → IsTable (run calls t)
  unfolding run
  run-IsTable [] t h = h
  run-IsTable (call ∷ calls) t h = run-IsTable calls (apply call t) (apply-IsTable call t h)

  -- After any calls on a new database, a pruning to at most `max_rows` rows, of at least one, leaves
  -- exactly the newest `max_rows` ones, or all if there are no more, and reports how many are gone.
  pub prune_to_max_rows-run :
      (calls : List Call) (max_rows : ℕ)
      → 0 < max_rows
      → let t = run calls empty_table in
        let gone = length t.rows - max_rows in
        (prune_to_max_rows max_rows t ≡ (record t { rows = drop gone t.rows }, gone))
        × (length (drop gone t.rows) ≤ max_rows)
  prune_to_max_rows-run calls max_rows pos =
      let t = run calls empty_table in
      let h = run-IsTable calls empty_table (record { ascending = tt; below = tt }) in
      (
        prune_to_max_rows_lem max_rows t h.ascending pos,
        omega (arith, length-drop (length t.rows - max_rows) t.rows),
      )
