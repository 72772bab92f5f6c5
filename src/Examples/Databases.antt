-- ===== src/Examples/Databases.antt =====
-- A metrics database with two jobs, and a codec in the place of JSON.
use mathlib.Core.List.{append-nil, append_assoc}
use tiles_processor.Base.{
  ℕ, zero, suc, ◌-◌, ◌≤◌, ◌≡◌, refl, ap, sym, ◌∙◌, true, List, [], ◌∷◌, ◌++◌, map, Option, none,
  some, Text, codes, arith, length, drop, return, text_eq, text_leb, sort_by, insert_by,
}
use tiles_processor.Worker.Metrics.{Timings}
use tiles_processor.Metrics.Repository.{
  Columns, job_to_dict, Table, Job, Json, insert_all, insert_row, seen_key, same_key, import_jobs,
  export_jobs, prune_to_max_rows,
}
use tiles_processor.Metrics.Repository.Histories.{records, run, prune_to_max_rows-run}
use tiles_processor.Metrics.Repository.Imports.{keys_of_jobs, import_jobs-again}
use tiles_processor.Metrics.Repository.Copies.{
  AreDistinct, empty_table, content, export_jobs-import_jobs,
}
use tiles_processor.Metrics.Server.{api_import}
use tiles_processor.Metrics.Server.Access.{Imported, api_import-Imported}

-- A character is its successor; 0 ends a name, and its number follows.
abbrev write_all : Timings → Text
write_all [] = []
write_all ((name, n) ∷ stages) = map suc name ++ 0 ∷ n ∷ write_all stages

abbrev read_all : (name : Text) → Text → Timings
read_all name [] = []
read_all name (zero ∷ []) = []
read_all name (zero ∷ n ∷ s) = (name, n) ∷ read_all [] s
read_all name (suc c ∷ s) = read_all (name ++ c ∷ []) s

abbrev read_document : Text → Option Timings
read_document [] = none
read_document (c ∷ s) = some (read_all [] s)

abbrev codec : Json
codec = record { dumps = λ s. b'{' ∷ write_all s; loads = read_document }

read_name :
    (seen name : Text) (n : ℕ) (s : Text)
    → read_all seen (map suc name ++ 0 ∷ n ∷ s) ≡ (seen ++ name, n) ∷ read_all [] s
read_name seen [] n s = ap (λ t. (t, n) ∷ read_all [] s) (sym (append-nil seen))
read_name seen (c ∷ name) n s =
    read_name (seen ++ c ∷ []) name n s
    ∙ ap (λ t. (t, n) ∷ read_all [] s) (append_assoc seen (c ∷ []) name)

read_written : (s : Timings) → read_all [] (write_all s) ≡ s
read_written [] = refl
read_written ((name, n) ∷ s) =
    read_name [] name n (write_all s) ∙ ap (λ rest. (name, n) ∷ rest) (read_written s)

abbrev columns : (image_id finished_at : Text) → Columns
columns image_id finished_at = record {
  work_unit_id = some (codes "u");
  image_id = image_id;
  data_source_id = codes "goes19_abi_c13";
  processor_id = some (codes "goes19_abi_c13");
  band_id = none;
  job_type = codes "goes19_abi_c13";
  product_label = none;
  image_timestamp = none;
  outcome = codes "success";
  worker_host = none;
  started_at = codes "2026-06-04T00:00";
  finished_at = finished_at;
  retry_count = 0;
  error_message = none;
  download_s = some 3;
  process_s = none;
  total_s = some 9;
}

abbrev two_jobs : List Job
two_jobs =
    record {
      id = 7;
      columns = columns (codes "a") (codes "2026-06-04T00:10");
      stage_timings = (codes "georef", 4) ∷ [];
    }
    ∷ record {
      id = 8;
      columns = columns (codes "b") (codes "2026-06-04T00:20");
      stage_timings = [];
    }
    ∷ []

abbrev two_rows : Table
two_rows = insert_all codec two_jobs empty_table

prune_to_max_rows-run_example :
    let t =
      run codec
        (records true (columns (codes "a") (codes "10")) []
          ∷ records true (columns (codes "b") (codes "20")) []
          ∷ [])
        empty_table in
    let gone = length t.rows - 1 in
    (prune_to_max_rows 1 t ≡ (record t { rows = drop gone t.rows }, gone))
    × (length (drop gone t.rows) ≤ 1)
prune_to_max_rows-run_example =
    prune_to_max_rows-run codec
      (records true (columns (codes "a") (codes "10")) []
        ∷ records true (columns (codes "b") (codes "20")) []
        ∷ [])
      1 (omega arith)

import_jobs-again_example :
    let u = (import_jobs codec true two_jobs empty_table).1 in
    import_jobs codec true two_jobs u ≡ (return (record { inserted = 0; skipped = 2 }), u)
import_jobs-again_example = import_jobs-again codec true two_jobs empty_table

distinct : AreDistinct (keys_of_jobs (export_jobs codec none two_rows))
unfolding export_jobs insert_all insert_row seen_key same_key text_eq text_leb sort_by insert_by
    job_to_dict
distinct = (refl, (refl, tt))

export_jobs-import_jobs_example :
    let jobs = export_jobs codec none two_rows in
    map content (export_jobs codec none (import_jobs codec true jobs empty_table).1)
    ≡ map content jobs
export_jobs-import_jobs_example =
    export_jobs-import_jobs codec (λ s. ap some (read_written s)) (λ s. (b'{', write_all s, refl))
      two_rows distinct

api_import-Imported_example :
    Imported codec
      (codes "key")
      (some (codes "key"))
      (some (codes "metrics_0003"))
      (some (codes "metrics_0003"))
      true
      two_jobs
      empty_table
      (api_import codec
        (codes "key")
        (some (codes "key"))
        (some (codes "metrics_0003"))
        (some (codes "metrics_0003"))
        true
        two_jobs
        empty_table)
api_import-Imported_example =
    api_import-Imported codec (codes "key") (some (codes "key")) (some (codes "metrics_0003"))
      (some (codes "metrics_0003")) true two_jobs empty_table
