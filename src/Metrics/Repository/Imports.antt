-- ===== src/Metrics/Repository/Imports.antt =====
-- Importing what was imported or exported before.
use mathlib.Core.List.{append-nil, append_assoc}
use tiles_processor.Base.{
  ◌≡◌, ◌↔◌, inl, inr, refl, ap, sym, ◌∙◌, subst, Bool, true, List, [], ◌∷◌, ◌++◌, Option, none,
  some, Text, text_eq_iff, arith, ◌||◌, length, keep, All, All-sort_by, All-map, sort_by,
  Bool-cases, return,
}
use tiles_processor.Metrics.Repository.{
  JobRow, Job, Table, Json, at_or_after, later_finish, job_to_dict, insert_row, export_jobs, Key,
  key_of, same_text, same_key, seen_key, collect, insert_all, keys_of, import_jobs,
}

same_text_iff : (s t : Option Text) → (same_text s t ≡ true) ↔ (s ≡ t)
same_text_iff none none = (λ h. refl, λ h. refl)
same_text_iff none (some t) = (λ h. cc, λ h. cc)
same_text_iff (some s) none = (λ h. cc, λ h. cc)
same_text_iff (some s) (some t) = ground (arith, text_eq_iff s t)

pub same_key_iff : (k k' : Key) → (same_key k k' ≡ true) ↔ (k ≡ k')
unfolding same_key
same_key_iff (w, i, f, o) (w', i', f', o') =
    ground (arith, same_text_iff w w', text_eq_iff i i', text_eq_iff f f', text_eq_iff o o')

seen_key-append :
    (k : Key) (ks ls : List Key) → seen_key k (ks ++ ls) ≡ (seen_key k ks || seen_key k ls)
unfolding seen_key
seen_key-append k [] ls = refl
seen_key-append k (l ∷ ks) ls = ground (arith, seen_key-append k ks ls)

abbrev pub keys_of_jobs : List Job → List Key
keys_of_jobs [] = []
keys_of_jobs (job ∷ jobs) = key_of job.columns ∷ keys_of_jobs jobs

abbrev pub Within : List Key → List Key → Type 0
Within ks ls = (k : Key) → seen_key k ks ≡ true → seen_key k ls ≡ true

abbrev AllSeen : List Key → List Job → Type 0
AllSeen ks jobs = All (λ job. seen_key (key_of job.columns) ks ≡ true) jobs

pub seen_key-cons : (k : Key) (ks : List Key) → seen_key k (k ∷ ks) ≡ true
unfolding seen_key
seen_key-cons k ks = ground (arith, same_key_iff k k)

pub Within-cons :
    (k : Key) (seen ks : List Key) → seen_key k ks ≡ true → Within seen ks → Within (k ∷ seen) ks
unfolding seen_key
Within-cons k seen ks h w j e = elim (Bool-cases (same_key k j)) [
  | inl same ↦ subst (λ x. seen_key x ks ≡ true) ((same_key_iff k j).0 same) h
  | inr apart ↦ w j (ground arith)
]

Within-tail : (k : Key) (seen ks : List Key) → Within (k ∷ seen) ks → Within seen ks
unfolding seen_key
Within-tail k seen ks w j e = w j (ground arith)

collect-AllSeen :
    (seen : List Key) (jobs : List Job) (ks : List Key)
    → Within seen ks
    → Within (keys_of_jobs (collect seen jobs).0) ks
    → AllSeen ks jobs
unfolding collect
collect-AllSeen seen [] ks h g = tt
collect-AllSeen seen (job ∷ jobs) ks h g =
    let key = key_of job.columns in
    elim (Bool-cases (seen_key key seen)) [
      | inl old ↦ (h key old, collect-AllSeen seen jobs ks h (λ k e. g k (rw old e)))
      | inr new ↦
          let rest = (collect (key ∷ seen) jobs).0 in
          let g' : Within (key ∷ keys_of_jobs rest) ks = λ k e. g k (rw new e) in
          let here = g' key (seen_key-cons key (keys_of_jobs rest)) in
          (
            here,
            collect-AllSeen (key ∷ seen) jobs ks (Within-cons key seen ks here h)
                (Within-tail key (keys_of_jobs rest) ks g'),
          )
    ]

collect_seen :
    (ks : List Key) (jobs : List Job) → AllSeen ks jobs → collect ks jobs ≡ ([], length jobs)
unfolding collect
collect_seen ks [] h = refl
collect_seen ks (job ∷ jobs) h = ground (arith, h.0, collect_seen ks jobs h.1)

keys_of-append : (rs ss : List JobRow) → keys_of (rs ++ ss) ≡ keys_of rs ++ keys_of ss
keys_of-append [] ss = refl
keys_of-append (r ∷ rs) ss = ap (λ ks. key_of r.columns ∷ ks) (keys_of-append rs ss)

module _ (json : Json) where
  keys_of-insert_all :
      (jobs : List Job) (t : Table)
      → keys_of (insert_all json jobs t).rows ≡ keys_of t.rows ++ keys_of_jobs jobs
  unfolding insert_all insert_row
  keys_of-insert_all [] t = sym (append-nil _)
  keys_of-insert_all (job ∷ jobs) t =
      keys_of-insert_all jobs (insert_row json job.columns job.stage_timings t)
      ∙ rw (keys_of-append t.rows)
          (append_assoc (keys_of t.rows) (key_of job.columns ∷ []) (keys_of_jobs jobs))

  import_seen :
      (commits : Bool) (jobs : List Job) (t : Table)
      → AllSeen (keys_of t.rows) jobs
      → import_jobs json commits jobs t
        ≡ (return (record { inserted = 0; skipped = length jobs }), t)
  unfolding import_jobs
  import_seen commits jobs t h = rw (collect_seen (keys_of t.rows) jobs h) refl

  -- What an import that went through leaves.
  pub after_import :
      (jobs : List Job) (t : Table)
      → (import_jobs json true jobs t).1 ≡ insert_all json (collect (keys_of t.rows) jobs).0 t
  unfolding import_jobs insert_all
  after_import jobs t = ground arith

  -- After an import that was committed, importing the same jobs again inserts none of them, skips
  -- all and changes nothing.
  pub import_jobs-again :
      (commits : Bool) (jobs : List Job) (t : Table)
      → let u = (import_jobs json true jobs t).1 in
        import_jobs json commits jobs u
        ≡ (return (record { inserted = 0; skipped = length jobs }), u)
  import_jobs-again commits jobs t =
      let seen = keys_of t.rows in
      let taken = (collect seen jobs).0 in
      let u = insert_all json taken t in
      let keys = keys_of-insert_all taken t in
      rw (after_import jobs t) (
        import_seen commits jobs u (
          rw keys (
            collect-AllSeen seen jobs (seen ++ keys_of_jobs taken)
              (λ k e. rw (seen_key-append k seen (keys_of_jobs taken), e) refl)
              (λ k e. rw (seen_key-append k seen (keys_of_jobs taken)) (ground (arith, e))))))

  AllSeen-keys_of :
      (rows all : List JobRow)
      → Within (keys_of rows) (keys_of all)
      → All (λ r. seen_key (key_of r.columns) (keys_of all) ≡ true) rows
  AllSeen-keys_of [] all w = tt
  AllSeen-keys_of (r ∷ rows) all w =
      let key = key_of r.columns in
      (
        w key (seen_key-cons key (keys_of rows)),
        AllSeen-keys_of rows all (Within-tail key (keys_of rows) (keys_of all) w),
      )

  AllSeen-keep :
      (p : JobRow → Bool) (P : JobRow → Type 0) (rows : List JobRow)
      → All P rows
      → All P (keep p rows)
  AllSeen-keep p P [] h = tt
  AllSeen-keep p P (r ∷ rows) h = ground (arith, AllSeen-keep p P rows h.1)

  -- Importing an export of the table, windowed or not, into the table inserts nothing, skips every job
  -- of it and changes nothing.
  pub import_jobs-export_jobs :
      (commits : Bool) (since : Option Text) (t : Table)
      → import_jobs json commits (export_jobs json since t) t
        ≡ (return (record { inserted = 0; skipped = length (export_jobs json since t) }), t)
  unfolding export_jobs job_to_dict
  import_jobs-export_jobs commits since t =
      let P : JobRow → Type 0 = λ r. seen_key (key_of r.columns) (keys_of t.rows) ≡ true in
      let all = AllSeen-keys_of t.rows t.rows (λ k e. e) in
      let found = keep (at_or_after since) t.rows in
      import_seen commits (export_jobs json since t) t (
        All-map P (λ job. seen_key (key_of job.columns) (keys_of t.rows) ≡ true) (job_to_dict json)
          (sort_by later_finish found) (λ r h. h)
          (All-sort_by later_finish P found (AllSeen-keep (at_or_after since) P t.rows all)))
