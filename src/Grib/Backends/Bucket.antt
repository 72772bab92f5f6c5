-- ===== src/Grib/Backends/Bucket.antt =====
-- What a fetch from a bucket leaves.
use tiles_processor.Base.{
  ℕ, drop, codes, starts_with, lower, ◌≡◌, ◌⊎◌, inl, inr, refl, ◌||◌, Bool, true, false, Option,
  some, none, Text, text_eq, Bool-cases, branch, lift, Exception, Result, return, raise, pure,
  throw, and_then, ◌>>=◌, ◌>>◌, forecast_not_available, value_error, runtime_error,
}
use tiles_processor.Settings.Endpoints.{partition, s3_uri_scheme}
use tiles_processor.Store.Client.{
  Client, written, head_answer, head_exists, download_to_file, write_file,
}
use tiles_processor.Store.Client.Aws.{Gateway, HeadFailure}
use tiles_processor.Store.Client.Downloads.{Left, download_to_file-Left}
use tiles_processor.Grib.{grib_error, validate_gfs_grib}
use tiles_processor.Sources.Lister.Template.{join_s3_prefix}
use tiles_processor.Grib.Backends.{
  Formats, step_relative_path, strip_s3_scheme, key_or_bucket, on_disk, fetch_s3,
}
use tiles_processor.Grib.Backends.Ended.{Fetched, validated, target_of}

module _ (f : Formats) (g : Gateway) (cycle step_hours : ℕ) (dest : Text) (c : Client g) where
  -- A failed HEAD that does not say that there is no such object, and what it raised.
  abbrev pub HeadRaised : HeadFailure → Exception → Type 0
  HeadRaised (HeadFailure.failure x) e = e ≡ x
  HeadRaised (HeadFailure.client_error code x) e =
      (e ≡ x)
      × ((text_eq code (codes "404")
            || (text_eq code (codes "NoSuchKey") || text_eq code (codes "NotFound")))
          ≡ false)

  -- What a HEAD raised, a key that names another bucket, or what a download raised.
  abbrev pub StoreRaised : (key bucket : Text) → Exception → Type 0
  StoreRaised key bucket e =
      ((failure : HeadFailure) × ((g.head_object key c.world).0 ≡ some failure)
        × HeadRaised failure e)
      ⊎ (((e.kind ≡ value_error)
            × (starts_with (lower key) s3_uri_scheme ≡ true)
            × (text_eq (partition (drop 5 key)).0 bucket ≡ false))
          ⊎ ((e.kind ≡ runtime_error)
              × ((s3_key : Text) × (d : Client g) × ((download_to_file g 3 s3_key (target_of f dest)
                      d).0
                    ≡ raise e))))

  downloaded :
      (key bucket s3_key : Text) (before : Client g) (r : Result Unit) (d : Client g)
      → (download_to_file g 3 s3_key (target_of f dest) before).0 ≡ r
      → Left g s3_key (target_of f dest) r d
      → Fetched f g (StoreRaised key bucket) (target_of f dest) c (
          and_then r
            (λ _. on_disk f g (validate_gfs_grib (target_of f dest)) >> pure (target_of f dest))
            d)
  downloaded key bucket s3_key before (return _) d h (w, s, answered, whole_body, there) =
      validated f g (StoreRaised key bucket) (target_of f dest) c d _ there
  downloaded key bucket s3_key before (raise e) d h (k, gone) =
      inr (inr (inr (k, (s3_key, before, h))))

  stripped :
      (key bucket : Text) (d : Client g)
      → Fetched f g (StoreRaised key bucket) (target_of f dest) c (
          (lift (strip_s3_scheme key bucket) >>= λ s3_key.
          download_to_file g 3 s3_key (target_of f dest)
          >> (on_disk f g (validate_gfs_grib (target_of f dest)) >> pure (target_of f dest)))
            d)
  unfolding strip_s3_scheme
  stripped key bucket d = elim (Bool-cases (starts_with (lower key) s3_uri_scheme)) [
    | inr bare ↦ rw bare (fetched_from key)
    | inl scheme ↦ elim (Bool-cases (text_eq (partition (drop 5 key)).0 bucket)) [
      | inl same ↦ rw (scheme, same) (fetched_from (key_or_bucket (partition (drop 5 key))))
      | inr other ↦ rw (scheme, other) (inr (inr (inl (refl, scheme, other))))
    ]
  ]
    where
      fetched_from :
          (s3_key : Text)
          → Fetched f g (StoreRaised key bucket) (target_of f dest) c (
              (download_to_file g 3 s3_key (target_of f dest)
                  >> (on_disk f g (validate_gfs_grib (target_of f dest))
                      >> pure (target_of f dest)))
                d)
      fetched_from s3_key =
          let out = download_to_file g 3 s3_key (target_of f dest) d in
          downloaded key bucket s3_key d out.0 out.1 refl
            (download_to_file-Left g 2 s3_key (target_of f dest) d).0

  abbrev Headed : (key : Text) → Result Bool × Client g → Type 0
  Headed key (return there, d) = d.disk ≡ c.disk
  Headed key (raise e, d) =
      (failure : HeadFailure) × ((g.head_object key c.world).0 ≡ some failure)
      × HeadRaised failure e

  answered :
      (key : Text) (d : Client g) (o : Option HeadFailure)
      → d.disk ≡ c.disk
      → (g.head_object key c.world).0 ≡ o
      → Headed key (head_answer o, d)
  answered key d none same h = same
  answered key d (some (HeadFailure.failure e)) same h = (HeadFailure.failure e, h, refl)
  answered key d (some (HeadFailure.client_error code e)) same h =
      elim (Bool-cases (
        text_eq code (codes "404")
        || (text_eq code (codes "NoSuchKey") || text_eq code (codes "NotFound")))) [
          | inl absent ↦ rw absent same
          | inr other ↦ rw other (HeadFailure.client_error code e, h, (refl, other))
        ]

  head_exists-Headed : (key : Text) → Headed key (head_exists g key c)
  unfolding head_exists
  head_exists-Headed key =
      answered key (record c { world = (g.head_object key c.world).1 })
        (g.head_object key c.world).0 refl refl

  after_head :
      (key bucket : Text) (r : Result Bool) (d : Client g)
      → Headed key (r, d)
      → Fetched f g (StoreRaised key bucket) (target_of f dest) c (
          and_then r
            (λ there.
              branch there (pure tt) (throw (grib_error forecast_not_available))
              >> (write_file g (target_of f dest) none
                  >> (lift (strip_s3_scheme key bucket) >>= λ s3_key.
                      download_to_file g 3 s3_key (target_of f dest)
                      >> (on_disk f g (validate_gfs_grib (target_of f dest))
                          >> pure (target_of f dest)))))
            d)
  after_head key bucket (return true) d same =
      stripped key bucket (record d { disk = written (target_of f dest) none d.disk })
  after_head key bucket (return false) d same = inl (inl (refl, same))
  after_head key bucket (raise e) d failed = inr (inl failed)

  pub s3_lem :
      (bucket prefix : Text)
      → Fetched f g
          (StoreRaised (join_s3_prefix prefix (step_relative_path f cycle step_hours)) bucket)
          (target_of f dest)
          c
          (fetch_s3 f g bucket prefix cycle step_hours dest c)
  unfolding fetch_s3
  s3_lem bucket prefix =
      let key = join_s3_prefix prefix (step_relative_path f cycle step_hours) in
      after_head key bucket (head_exists g key c).0 (head_exists g key c).1 (head_exists-Headed key)
