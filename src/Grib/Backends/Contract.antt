-- ===== src/Grib/Backends/Contract.antt =====
-- What a fetch from any backend leaves.
use tiles_processor.Base.{
  ℕ, ◌∷◌, ◌++◌, ◌≡◌, inl, inr, refl, leb, ◌==◌, ◌||◌, Option, some, none, Text, text_eq_refl, arith,
  Bool-cases, Option-cases, Exception, Kind, pure, ◌>>◌, file_not_found,
}
use tiles_processor.Store.Client.{Client, written, whole}
use tiles_processor.Store.Client.Aws.{Gateway}
use tiles_processor.Grib.{validate_gfs_grib}
use tiles_processor.Sources.Lister.Template.{join_s3_prefix}
use tiles_processor.Grib.Backends.{
  Formats, Bounds, Answer, no_answer, answer, step_relative_path, build_url, status_failure,
  on_disk, exists, write_copy, ended, received, fetch_local, fetch_s3, fetch_http,
}
use tiles_processor.Grib.Backends.Ended.{Declared, Fetched, validated, target_of}
use tiles_processor.Grib.Backends.Bucket.{StoreRaised, s3_lem}

module _ (f : Formats) (g : Gateway) where
  module _ (cycle step_hours : ℕ) (dest : Text) (c : Client g) where
    -- The source is gone when it is copied.
    abbrev pub CopyRaised : (input_dir : Text) → Exception → Type 0
    CopyRaised input_dir e =
        (e.kind ≡ file_not_found)
        × (written (target_of f dest) none c.disk
              (input_dir ++ b'/' ∷ step_relative_path f cycle step_hours)
            ≡ none)

    copied :
        (input_dir : Text) (d : Client g) (read : Option Text)
        → written
            (target_of f dest)
            none
            c.disk
            (input_dir ++ b'/' ∷ step_relative_path f cycle step_hours)
          ≡ read
        → Fetched f g (CopyRaised input_dir) (target_of f dest) c (
            (write_copy f g (target_of f dest) read
                >> (on_disk f g (validate_gfs_grib (target_of f dest)) >> pure (target_of f dest)))
              d)
    copied input_dir d (some bytes) h =
        validated f g (CopyRaised input_dir) (target_of f dest) c
          (record d { disk = written (target_of f dest) (some bytes) d.disk }) bytes
          (rw (text_eq_refl (target_of f dest)) refl)
    copied input_dir d none h = inr (refl, h)

    local_lem :
        (input_dir : Text)
        → Fetched f g
            (CopyRaised input_dir)
            (target_of f dest)
            c
            (fetch_local f g input_dir cycle step_hours dest c)
    unfolding fetch_local
    local_lem input_dir =
        let source = input_dir ++ b'/' ∷ step_relative_path f cycle step_hours in
        elim (Bool-cases (exists f g source c)) [
          | inr missing ↦ rw missing (inl (inl (refl, refl)))
          | inl there ↦ rw there (
              copied input_dir (record c { disk = written (target_of f dest) none c.disk })
                (written (target_of f dest) none c.disk source) refl)
        ]

    -- What the status of an answer is mapped to.
    by_status :
        (status : ℕ) (kind : Kind) (d : Client g)
        → d.disk ≡ c.disk
        → status_failure status ≡ some kind
        → Declared f g c d kind
    unfolding status_failure
    by_status status kind d same h = elim (Bool-cases (status == 200)) [
      | inl ok ↦ absurd (ground (arith, ok, h))
      | inr bad ↦ elim (Bool-cases (status == 403 || status == 404)) [
        | inl missing ↦ inl (ground (arith, bad, missing, h), same)
        | inr there ↦ elim (Bool-cases (leb 500 status)) [
          | inl server ↦ inr (inl (ground (arith, bad, there, server, h)))
          | inr client ↦ inr (inr (ground (arith, bad, there, client, h)))
        ]
      ]
    ]

    module _ (get : (url : Text) → g.World → Answer × g.World) where
      by_failure :
          (bytes : Text) (o : Option Exception) (d : Client g)
          → d.disk (target_of f dest) ≡ some bytes
          → Fetched f g
              (λ e. ⊥)
              (target_of f dest)
              c
              ((ended f g get o
                  >> (on_disk f g (validate_gfs_grib (target_of f dest))
                      >> pure (target_of f dest)))
                d)
      by_failure bytes none d there = validated f g (λ e. ⊥) (target_of f dest) c d bytes there
      by_failure bytes (some e) d there = inl (inr (inl refl))

      by_answer :
          (a : Answer) (d : Client g)
          → d.disk ≡ c.disk
          → Fetched f g
              (λ e. ⊥)
              (target_of f dest)
              c
              ((received f g get (target_of f dest) a
                  >> (on_disk f g (validate_gfs_grib (target_of f dest))
                      >> pure (target_of f dest)))
                d)
      unfolding received
      by_answer no_answer d same = inl (inr (inl refl))
      by_answer (answer status body) d same = elim (Option-cases (status_failure status)) [
        | inl ok ↦ rw ok (
            by_failure (whole body.chunks) body.failure
              (record d {
                disk =
                    written (target_of f dest) (some (whole body.chunks))
                      (written (target_of f dest) none d.disk);
              })
              (rw (text_eq_refl (target_of f dest)) refl))
        | inr (kind, bad) ↦ rw bad (inl (by_status status kind d same bad))
      ]

      http_lem :
          (endpoint : Text) (b : Bounds)
          → Fetched f g
              (λ e. ⊥)
              (target_of f dest)
              c
              (fetch_http f g get endpoint b cycle step_hours dest c)
      unfolding fetch_http
      http_lem endpoint b =
          let got = get (build_url f endpoint b cycle step_hours) c.world in
          by_answer got.0 (record c { world = got.1 }) refl

    -- A fetch of a forecast step, from a folder, a bucket or the CGI, that returns has left at `target` a file
    -- that is the expected number of messages on end. One that raises says that the forecast is not
    -- available, and then no file changed, or that the file was refused or broke off. Beyond these, a
    -- folder raises only a FileNotFoundError, if the source is gone when it is copied. A bucket raises
    -- only what a HEAD raised that did not say that there is no such object, a ValueError if the key
    -- names another bucket, or the RuntimeError that download_to_file raised. The CGI raises nothing
    -- else.
    pub fetch-Fetched :
        ((input_dir : Text)
          → Fetched f g
              (CopyRaised input_dir)
              (target_of f dest)
              c
              (fetch_local f g input_dir cycle step_hours dest c))
        × ((bucket prefix : Text)
            → Fetched f g
                (StoreRaised f g cycle step_hours dest c
                  (join_s3_prefix prefix (step_relative_path f cycle step_hours))
                  bucket)
                (target_of f dest)
                c
                (fetch_s3 f g bucket prefix cycle step_hours dest c))
        × ((get : (url : Text) → g.World → Answer × g.World) (endpoint : Text) (b : Bounds)
            → Fetched f g
                (λ e. ⊥)
                (target_of f dest)
                c
                (fetch_http f g get endpoint b cycle step_hours dest c))
    fetch-Fetched = (local_lem, s3_lem f g cycle step_hours dest c, http_lem)
