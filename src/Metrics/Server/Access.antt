-- ===== src/Metrics/Server/Access.antt =====
-- Who may write, and how much a request can read.
use tiles_processor.Base.{
  ◌≢◌, ◌&&◌, text_eq, ℕ, zero, suc, ◌≤◌, ◌<◌, ◌≡◌, inl, inr, refl, subst, sym, Bool, true, false,
  ◌||◌, List, [], ◌∷◌, Option, none, some, Text, text_eq_iff, arith, if◌then◌else◌, ◌==◌, length,
  length-take, drop, length-map, keep, sort_by, leb, Bool-cases, Option-cases, return, Result,
  Result-cases, Exception, raise,
}
use tiles_processor.Metrics.Repository.{
  Table, Job, JobRow, Json, ImportResult, is_given, is_wanted, page, later_finish, job_to_dict,
  recent_jobs, import_jobs,
}
use tiles_processor.Metrics.Server.{
  is_ascii, Response, body, http_error, effective_since, api_jobs, require_api_key, same_version,
  api_import,
}

same_version_iff : (v w : Option Text) → same_version v w ≡ true → v ≡ w
same_version_iff none none h = refl
same_version_iff none (some w) h = cc
same_version_iff (some v) none h = cc
same_version_iff (some v) (some w) h = ground (arith, text_eq_iff v w, h)

-- The key that is configured is an ASCII text that is not empty, and it was provided.
pub record IsAuthorised (api_key : Text) (provided : Option Text) : Type 0 where
  pub configured : is_given (some api_key) ≡ true
  pub plain : is_ascii api_key ≡ true
  pub matches : provided ≡ some api_key

-- The status of a request that its key does not let through.
pub data Denied (api_key : Text) : Option Text → ℕ → Type 0 where
  unconfigured :
      {provided : Option Text} → is_given (some api_key) ≡ false → Denied api_key provided 503
  missing :
      {provided : Option Text}
      → is_given (some api_key) ≡ true
      → is_given provided ≡ false
      → Denied api_key provided 401
  wrong :
      {key : Text}
      → is_given (some api_key) ≡ true
      → (is_ascii key && is_ascii api_key) ≡ true
      → key ≢ api_key
      → Denied api_key (some key) 401
  incomparable :
      {key : Text}
      → is_given (some api_key) ≡ true
      → is_given (some key) ≡ true
      → (is_ascii key && is_ascii api_key) ≡ false
      → Denied api_key (some key) 500

authorised :
    (api_key : Text) (provided : Option Text)
    → require_api_key api_key provided ≡ none
    → IsAuthorised api_key provided
unfolding require_api_key
authorised api_key none h = absurd (ground (arith, h))
authorised api_key (some key) h = record {
  configured = ground (arith, h);
  plain = ground (arith, h);
  matches = ground (arith, h, text_eq_iff key api_key);
}

-- What an import request comes to.
pub data Imported (json : Json) (api_key : Text) (provided current version : Option Text)
    (commits : Bool) (jobs : List Job) (t : Table)
    : Result (Response ImportResult) × Table → Type 0 where
  refused :
      {status : ℕ}
      → Denied api_key provided status
      → Imported json api_key provided current version commits jobs t
          (return (http_error status), t)
  mismatched :
      IsAuthorised api_key provided
      → same_version version current ≡ false
      → Imported json api_key provided current version commits jobs t (return (http_error 409), t)
  imported :
      {result : ImportResult}
      → IsAuthorised api_key provided
      → version ≡ current
      → (import_jobs json commits jobs t).0 ≡ return result
      → Imported json api_key provided current version commits jobs t
          (return (body result), (import_jobs json commits jobs t).1)
  failed :
      {e : Exception}
      → IsAuthorised api_key provided
      → version ≡ current
      → (import_jobs json commits jobs t).0 ≡ raise e
      → (import_jobs json commits jobs t).1 ≡ t
      → Imported json api_key provided current version commits jobs t (raise e, t)

refusal :
    (api_key : Text) (provided : Option Text) (status : ℕ)
    → require_api_key api_key provided ≡ some status
    → Denied api_key provided status
unfolding require_api_key
refusal [] provided status h = subst (Denied [] provided) (ground (arith, h)) (unconfigured refl)
refusal (c ∷ api_key) none status h =
    subst (Denied (c ∷ api_key) none) (ground (arith, h)) (missing refl refl)
refusal (c ∷ api_key) (some []) status h =
    subst (Denied (c ∷ api_key) (some [])) (ground (arith, h)) (missing refl refl)
refusal (c ∷ api_key) (some (d ∷ key)) status h =
    let D = Denied (c ∷ api_key) (some (d ∷ key)) in
    elim (Bool-cases (is_ascii (d ∷ key) && is_ascii (c ∷ api_key))) [
      | inr odd ↦ subst D (ground (arith, h, odd)) (incomparable refl refl odd)
      | inl plain ↦ elim (Bool-cases (text_eq (d ∷ key) (c ∷ api_key))) [
        | inl same ↦ absurd (ground (arith, h, plain, same))
        | inr apart ↦ subst D (ground (arith, h, plain, apart)) (
            wrong refl plain (λ e.
              let same = (text_eq_iff (d ∷ key) (c ∷ api_key)).1 e in
              absurd (ground (arith, apart, same))))
      ]
    ]

rolled_back :
    (json : Json) (commits : Bool) (jobs : List Job) (t : Table) (e : Exception)
    → (import_jobs json commits jobs t).0 ≡ raise e
    → (import_jobs json commits jobs t).1 ≡ t
unfolding import_jobs
rolled_back json true jobs t e h = absurd (ground (arith, h))
rolled_back json false jobs t e h = ground (arith, h)

-- An import request is refused by the key alone with 503 if none is configured, and else with 401 if
-- none is given or another one is, and it fails with 500 if one of the two is not ASCII. It is refused
-- with 409 if the key is right and the version another. All these leave the table as it was. Only a
-- request with the key that is configured, which is an ASCII text that is not empty, and with the
-- database's version runs the import, whose counts are the answer, and an import that raises leaves the
-- table as it was.
pub api_import-Imported :
    (json : Json) (api_key : Text) (provided current version : Option Text) (commits : Bool)
    (jobs : List Job) (t : Table)
    → Imported json api_key provided current version commits jobs t
        (api_import json api_key provided current version commits jobs t)
api_import-Imported json api_key provided current version commits jobs t =
    elim (Option-cases (require_api_key api_key provided)) [
      | inr (status, e) ↦
          becomes (return (http_error status), t) (unfold api_import in ground (arith, e))
            (refused (refusal api_key provided status e))
      | inl e ↦
          let key = authorised api_key provided e in
          elim (Bool-cases (same_version version current)) [
            | inr apart ↦
                becomes (return (http_error 409), t) (unfold api_import in ground (arith, e, apart))
                  (mismatched key apart)
            | inl v ↦
                let same = same_version_iff version current v in
                let out = import_jobs json commits jobs t in
                elim (Result-cases out.0) [
                  | inl (result, r) ↦
                      becomes (return (body result), out.1)
                        (unfold api_import in ground (arith, e, v, r)) (imported key same r)
                  | inr (x, r) ↦
                      let back = rolled_back json commits jobs t x r in
                      becomes (raise x, t) (unfold api_import in ground (arith, e, v, r, back))
                        (failed key same r back)
                ]
          ]
    ]
  where
    becomes :
        (o : Result (Response ImportResult) × Table)
        → api_import json api_key provided current version commits jobs t ≡ o
        → Imported json api_key provided current version commits jobs t o
        → Imported json api_key provided current version commits jobs t
            (api_import json api_key provided current version commits jobs t)
    becomes o h i = subst (Imported json api_key provided current version commits jobs t) (sym h) i

most :
    (json : Json) (limit offset : ℕ) (rows : List JobRow)
    → 0 < limit
    → length (page json limit offset rows) ≤ 1000
most json zero offset rows pos = absurd (omega arith)
most json (suc limit) offset rows pos =
    let n = if leb limit 999 then suc limit else 1000 in
    let le : n ≤ 1000 = ground arith in omega (arith, length-take n (drop offset rows), le)

-- A request for jobs that names no window gets at most 1000 jobs.
pub length-api_jobs :
    (json : Json) (ago : ℕ → Text) (limit offset : ℕ) (job_type outcome : Option Text)
    (hours : Option ℕ) (since before : Option Text) (t : Table)
    → (is_given (effective_since ago since hours) || is_given before) ≡ false
    → length (api_jobs json ago limit offset job_type outcome hours since before t) ≤ 1000
unfolding api_jobs recent_jobs
length-api_jobs json ago zero offset job_type outcome hours since before t h =
    let start = effective_since ago since hours in
    let found = sort_by later_finish (keep (is_wanted job_type outcome start before) t.rows) in
    rw h (
      omega (
        arith,
        length-map (job_to_dict json) (page json 1000 offset found),
        most json 1000 offset found,
      ))
length-api_jobs json ago (suc limit) offset job_type outcome hours since before t h =
    let start = effective_since ago since hours in
    let found = sort_by later_finish (keep (is_wanted job_type outcome start before) t.rows) in
    let asked : (suc limit == 0) ≡ false = ground arith in
    rw asked (
      omega (
        arith,
        length-map (job_to_dict json) (page json (suc limit) offset found),
        most json (suc limit) offset found,
      ))
