-- ===== src/Sources/Ecmwf/Offers.antt =====
-- What an ECMWF discovery emits.
use tiles_processor.Base.{
  ℕ, ◌-◌, ◌*◌, ◌%◌, ◌≤◌, ◌<◌, ◌≡◌, ◌⊎◌, inl, inr, refl, ap, ◌∙◌, sym, subst, Bool, true, false,
  List, [], ◌∷◌, Option, none, some, arith, member, ltb, if◌then◌else◌, Exception, Result, return,
  raise, Result-cases, Bool-cases,
}
use tiles_processor.Producer.Discovery.{ImageInfo, DiscoveryConfig}
use tiles_processor.Store.Client.{S3Client, head_exists}
use tiles_processor.Store.Client.Aws.{Gateway}
use tiles_processor.Sources.Ecmwf.{
  half_day, candidate_forecast_times, EcmwfSource, not_built, grib_key, image_of,
  to_image_info_if_missing, with_image, images_of, discover_images,
}

-- The candidates are the last three half days.
candidate_forecast_times_lem :
    (now : ℕ)
    → 3 * half_day ≤ now
    → let base = now - now % half_day in
      candidate_forecast_times now ≡ base ∷ (base - half_day) ∷ (base - 2 * half_day) ∷ []
unfolding candidate_forecast_times
candidate_forecast_times_lem now h = ground arith

-- Which of the candidates are emitted, each by an answer of the store.
pub data Offered (g : Gateway) (src : EcmwfSource) (latest : ℕ) (config : DiscoveryConfig)
    : List ℕ → List ImageInfo → Type 0 where
  none_left : Offered g src latest config [] []
  unpublished :
      {t : ℕ} {ts : List ℕ} {images : List ImageInfo}
      → latest < t
      → Offered g src latest config ts images
      → Offered g src latest config (t ∷ ts) images
  cached :
      {t : ℕ} {ts : List ℕ} {images : List ImageInfo} (c : S3Client g)
      → t ≤ latest
      → (head_exists g (grib_key g src t) c).0 ≡ return true
      → Offered g src latest config ts images
      → Offered g src latest config (t ∷ ts) images
  queued :
      {t : ℕ} {ts : List ℕ} {images : List ImageInfo}
      → t ≤ latest
      → member (src.format_run_timestamp t) config.in_progress_images ≡ true
      → Offered g src latest config ts images
      → Offered g src latest config (t ∷ ts) images
  lacking :
      {t : ℕ} {ts : List ℕ} {images : List ImageInfo} (c : S3Client g)
      → t ≤ latest
      → (head_exists g (grib_key g src t) c).0 ≡ return false
      → member (src.format_run_timestamp t) config.in_progress_images ≡ false
      → Offered g src latest config ts images
      → Offered g src latest config (t ∷ ts) (image_of g src t ∷ images)

module _ (g : Gateway) (src : EcmwfSource) where
  -- Why a discovery raised: there is no client, or a HEAD raised.
  abbrev pub Reason : Exception → Type 0
  Reason e =
      ((src.has_s3_client ≡ false) × (e ≡ not_built src))
      ⊎ ((t : ℕ) × (c : S3Client g) × ((head_exists g (grib_key g src t) c).0 ≡ raise e))

  -- What one candidate adds.
  abbrev Adds : (latest : ℕ) → DiscoveryConfig → (t : ℕ) → Result (Option ImageInfo) → Type 0
  Adds latest config t (raise e) = Reason e
  Adds latest config t (return o) =
      (ts : List ℕ) (images : List ImageInfo)
      → Offered g src latest config ts images
      → Offered g src latest config (t ∷ ts) (with_image g src o images)

  -- What the call comes to, by its tests.
  given_client :
      (latest : ℕ) (config : DiscoveryConfig) (t : ℕ) (c : S3Client g) (b : Bool)
      → t ≤ latest
      → src.has_s3_client ≡ true
      → (head_exists g (grib_key g src t) c).0 ≡ return b
      → (to_image_info_if_missing g src t latest config c).0
        ≡ return (
            if b
            then none
            else if member (src.format_run_timestamp t) config.in_progress_images
            then none
            else some (image_of g src t))
  unfolding to_image_info_if_missing
  given_client latest config t c b le given e = ground arith

  to_image-Adds :
      (latest : ℕ) (config : DiscoveryConfig) (t : ℕ) (c : S3Client g)
      → Adds latest config t (to_image_info_if_missing g src t latest config c).0
  to_image-Adds latest config t c = elim (Bool-cases (ltb latest t)) [
    | inl late ↦
        becomes (return none) (unfold to_image_info_if_missing in ground arith)
          (λ ts images r. unpublished (ground arith) r)
    | inr early ↦
        let le : t ≤ latest = ground arith in
        elim (Bool-cases src.has_s3_client) [
          | inr never ↦
              becomes (raise (not_built src)) (unfold to_image_info_if_missing in ground arith)
                (inl (never, refl))
          | inl given ↦ elim (Result-cases (head_exists g (grib_key g src t) c).0) [
            | inr (x, e) ↦
                becomes (raise x) (unfold to_image_info_if_missing in ground arith) (inr (t, c, e))
            | inl (b, e) ↦
                let out = given_client latest config t c b le given e in
                elim (Bool-cases b) [
                  | inl found ↦
                      becomes (return none) (ground arith)
                        (λ ts images r. cached c le (e ∙ ap return found) r)
                  | inr missing ↦
                      elim (Bool-cases
                        (member (src.format_run_timestamp t) config.in_progress_images)) [
                          | inl busy ↦
                              becomes (return none) (ground arith) (λ ts images r. queued le busy r)
                          | inr idle ↦
                              becomes (return (some (image_of g src t))) (ground arith)
                                (λ ts images r. lacking c le (e ∙ ap return missing) idle r)
                        ]
                ]
          ]
        ]
  ]
    where
      becomes :
          (out : Result (Option ImageInfo))
          → (to_image_info_if_missing g src t latest config c).0 ≡ out
          → Adds latest config t out
          → Adds latest config t (to_image_info_if_missing g src t latest config c).0
      becomes out h a = subst (Adds latest config t) (sym h) a

  -- The outcome of a discovery, of what the repository answered.
  abbrev Emits :
      (latest : ℕ) → DiscoveryConfig → (candidates : List ℕ) → Result (List ImageInfo) → Type 0
  Emits latest config candidates (raise e) = Reason e
  Emits latest config candidates (return images) = Offered g src latest config candidates images

  images_of-Emits :
      (latest : ℕ) (config : DiscoveryConfig) (candidates : List ℕ) (c : S3Client g)
      → Emits latest config candidates (images_of g src latest config candidates c).0
  unfolding images_of
  images_of-Emits latest config [] c = none_left
  images_of-Emits latest config (t ∷ ts) c =
      let one = to_image_info_if_missing g src t latest config c in
      let adds = to_image-Adds latest config t c in
      elim (Result-cases one.0) [
        | inr (x, e) ↦
            let out : (images_of g src latest config (t ∷ ts) c).0 ≡ raise x = ground arith in
            subst (Emits latest config (t ∷ ts)) (sym out) (subst (Adds latest config t) e adds)
        | inl (o, e) ↦
            let more = images_of-Emits latest config ts one.1 in
            elim (Result-cases (images_of g src latest config ts one.1).0) [
              | inr (x, f) ↦
                  let out : (images_of g src latest config (t ∷ ts) c).0 ≡ raise x = ground arith in
                  subst (Emits latest config (t ∷ ts)) (sym out)
                    (subst (Emits latest config ts) f more)
              | inl (images, f) ↦
                  let out : (images_of g src latest config (t ∷ ts) c).0
                      ≡ return (with_image g src o images) =
                    ground arith in
                  subst (Emits latest config (t ∷ ts)) (sym out) (
                    subst (Adds latest config t) e adds ts images
                      (subst (Emits latest config ts) f more))
            ]
      ]

  -- What a discovery comes to, of what the repository answered.
  abbrev pub Outcome :
      (latest_available_run : Result (Option ℕ))
      → DiscoveryConfig
      → Result (List ImageInfo)
      → Type 0
  Outcome (raise e) config out = out ≡ raise e
  Outcome (return none) config out = out ≡ return []
  Outcome (return (some latest)) config out =
      let base = config.current_time - config.current_time % half_day in
      Emits latest config (base ∷ (base - half_day) ∷ (base - 2 * half_day) ∷ []) out

  -- From 36 hours on, a discovery considers the last three half days, newest first, and emits of
  -- them, in their order, exactly those that are published, that a HEAD found missing in the store and
  -- that are not in progress. It emits nothing while the newest run is unknown, and raises only what
  -- the repository raised, what a HEAD raised, or that there is no client for the store.
  pub discover_images-Outcome :
      (latest_available_run : Result (Option ℕ)) (config : DiscoveryConfig) (c : S3Client g)
      → 3 * half_day ≤ config.current_time
      → Outcome latest_available_run config (discover_images g src latest_available_run config c).0
  unfolding discover_images
  discover_images-Outcome (raise e) config c h = refl
  discover_images-Outcome (return none) config c h = refl
  discover_images-Outcome (return (some latest)) config c h =
      let ts = candidate_forecast_times config.current_time in
      subst (λ l. Emits latest config l (images_of g src latest config ts c).0)
        (candidate_forecast_times_lem config.current_time h) (images_of-Emits latest config ts c)
