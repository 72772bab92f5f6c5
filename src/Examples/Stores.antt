-- ===== src/Examples/Stores.antt =====
-- A small object store: the theorems on its client at concrete files and keys.
use tiles_processor.Base.{
  ℕ, zero, suc, ◌≡◌, refl, Bool, true, [], ◌∷◌, none, some, Text, codes, text_eq, if◌then◌else◌,
  return,
}
use tiles_processor.Store.Client.{S3Client, download_to_file, save, upload_file, delete_prefix}
use tiles_processor.Store.Heavy.{
  validated_size, etag_failure_reason, is_multipart_etag, normalized, drop_quotes, parts_then_dash,
}
use tiles_processor.Store.Client.Aws.{Gateway, Stream}
use tiles_processor.Store.Client.Downloads.{Left, Untouched, download_to_file-Left}
use tiles_processor.Store.Client.Uploads.{IsAccepted, upload_file-IsAccepted}
use tiles_processor.Store.Client.Deletes.{recorded}
use tiles_processor.Examples.Data.{refused}

-- The first answer of the counter breaks off; the second does not.
abbrev pub answer : ℕ → Stream
answer zero = record { chunks = codes "GR" ∷ []; failure = some refused }
answer (suc n) = record { chunks = codes "GR" ∷ codes "IB" ∷ []; failure = none }

abbrev pub bucket : Gateway
bucket = record {
  World = ℕ;
  get_object = λ k n. (return (answer n), suc n);
  head_object = λ k n. (none, n);
  list_objects_v2 =
      λ p n. (return ((codes "tiles/a" ∷ codes "tiles/b" ∷ []) ∷ (codes "tiles/c" ∷ []) ∷ []), n);
  common_prefixes = λ p d n. (return [], n);
  put_object = λ k b t m n. (return (some (codes "\"90015098\"")), n);
  delete_objects = λ batch n. (return tt, n);
  head_bucket = λ n. (return tt, n);
  create_bucket = λ n. (return tt, n);
  put_bucket_lifecycle_configuration = λ rules n. (return tt, n);
  md5 = λ body. (codes "kAFQmA==", codes "90015098");
}

abbrev pub start : S3Client bucket
start = record {
  world = 0;
  disk = λ p. if text_eq p (codes "/scratch/out.tif") then some (codes "abc") else none;
}

-- The second attempt succeeds.
downloaded : (download_to_file bucket 3 (codes "gfs") (codes "/scratch/in") start).0 ≡ return tt
unfolding download_to_file save text_eq
downloaded = refl

download_to_file-Left_example :
    let out = download_to_file bucket 3 (codes "gfs") (codes "/scratch/in") start in
    Left bucket (codes "gfs") (codes "/scratch/in") out.0 out.1
    × Untouched bucket (codes "/scratch/in") start out.1
download_to_file-Left_example =
    download_to_file-Left bucket 2 (codes "gfs") (codes "/scratch/in") start

abbrev pub content_type : Text → Text
content_type path = codes "image/tiff"

uploaded :
    (upload_file bucket content_type (codes "cog") (codes "/scratch/out.tif") start).0 ≡ return true
unfolding upload_file text_eq validated_size etag_failure_reason is_multipart_etag normalized
    drop_quotes parts_then_dash
uploaded = refl

upload_file-IsAccepted_example :
    ((b : Bool) × ((upload_file bucket content_type
          (codes "cog")
          (codes "/scratch/out.tif")
          start).0
        ≡ return b))
    × ((upload_file bucket content_type (codes "cog") (codes "/scratch/out.tif") start).0
          ≡ return true
        → IsAccepted bucket content_type (codes "cog") (codes "/scratch/out.tif") start)
upload_file-IsAccepted_example =
    upload_file-IsAccepted bucket content_type (codes "cog") (codes "/scratch/out.tif") start

abbrev logged : S3Client (recorded bucket)
logged = record { world = (0, []); disk = λ p. none }

deleted : (delete_prefix (recorded bucket) (codes "tiles") logged).0 ≡ return 3
unfolding delete_prefix
deleted = refl
