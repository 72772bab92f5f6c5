-- ===== src/Store/Client.antt =====
-- src/clients/s3_client.py. aioboto3 and the gateway behind it are the parameter `Gateway`: each of
-- its calls may raise. Calls that the client starts together run here one after the other, and the
-- gates only bound how many run at once. The bytes of a file are its content on `disk`.
pub mod Aws
pub mod Downloads
pub mod Uploads
pub mod Deletes
use mathlib.Core.List.{reverse}
use tiles_processor.Base.{
  ℕ, zero, suc, ◌+◌, ◌-◌, ◌*◌, Bool, true, false, not, ◌&&◌, ◌||◌, List, [], ◌∷◌, ◌++◌, map, Option,
  none, some, Text, codes, text_eq, leb, starts_with, length, take, drop, keep, if◌then◌else◌, ◌==◌,
  Exec, Exception, Kind, Result, return, raise, runtime_error, file_not_found, pure, throw, lift,
  gets, modify, branch, try_except, ◌>>=◌, ◌>>◌,
}
use tiles_processor.Store.Heavy.{validated_size, etag_failure_reason}
use Aws.{Gateway, Stream, HeadFailure}

abbrev pub Disk : Type 0
Disk = Text → Option Text

abbrev pub written : Text → Option Text → Disk → Disk
written path content disk p = if text_eq path p then content else disk p

pub record S3Client (g : Gateway) : Type 0 where
  pub world : g.World
  pub disk : Disk

abbrev failed : Text → Exception
failed message = record { kind = runtime_error; message = message }

-- The write buffer of download_to_file, over the chunks read; an empty chunk ends the body.
pub stream_to_file : (flush_size : ℕ) → List Text → (buffer file : Text) → Text
stream_to_file flush_size [] buffer file = file ++ buffer
stream_to_file flush_size ([] ∷ chunks) buffer file = file ++ buffer
stream_to_file flush_size ((c ∷ chunk) ∷ chunks) buffer file =
    let all = buffer ++ (c ∷ chunk) in
    let flushed = stream_to_file flush_size chunks [] (file ++ all) in
    let kept = stream_to_file flush_size chunks all file in
    if leb flush_size (length all) then flushed else kept

-- `file_pattern in key`
unfoldable pub contains_text : (pattern key : Text) → Bool
contains_text pattern [] = text_eq pattern []
contains_text pattern (c ∷ s) = starts_with (c ∷ s) pattern || contains_text pattern s

unfoldable pub ends_with : (text suffix : Text) → Bool
ends_with text suffix = starts_with (reverse text) (reverse suffix)

-- `keys[i : i + size]` for each `i` of the range, by fuel: the number of keys is enough.
pub batches : (size fuel : ℕ) → List Text → List (List Text)
batches size zero keys = []
batches size (suc fuel) [] = []
batches size (suc fuel) (k ∷ keys) = take size (k ∷ keys) ∷ batches size fuel (drop size (k ∷ keys))

unfoldable pub concat : List (List Text) → List Text
concat [] = []
concat (page ∷ pages) = page ++ concat pages

-- What a HEAD says of a key.
abbrev pub head_answer : Option HeadFailure → Result Bool
head_answer none = return true
head_answer (some (HeadFailure.failure e)) = raise e
head_answer (some (HeadFailure.client_error code e)) =
    if text_eq code (codes "404")
      || (text_eq code (codes "NoSuchKey") || text_eq code (codes "NotFound"))
    then return false
    else raise e

-- `read()` of a body.
unfoldable pub whole : List Text → Text
whole [] = []
whole (c ∷ chunks) = c ++ whole chunks

-- Seconds of `asyncio.sleep` between attempts have no effect on the state.
module _ (g : Gateway) where
  open g use {World}

  abbrev pub Client : Type 0
  Client = S3Client g

  abbrev pub on_world : {A : Type 0} → Exec World A → Exec Client A
  on_world m c = let (r, w) = m c.world in (r, record c { world = w })

  abbrev pub write_file : Text → Option Text → Exec Client Unit
  write_file path content = modify (λ c. record c { disk = written path content c.disk })

  -- What is on disk before the body breaks off does not matter: the handler removes it.
  unfoldable pub save : (dest_path : Text) → Stream → Exec Client Unit
  unfolding stream_to_file
  save dest_path s = do
    write_file dest_path (some (stream_to_file 20971520 s.chunks [] []))
    elim s.failure [ none ↦ pure tt | some e ↦ throw e ]

  pub download_attempt : (s3_key dest_path : Text) → Exec Client Unit
  download_attempt s3_key dest_path = do s ← on_world (g.get_object s3_key); save dest_path s

  -- By the attempts left. With none at all the loop does not run.
  unfoldable pub download_to_file : (retries : ℕ) → (s3_key dest_path : Text) → Exec Client Unit
  unfolding download_attempt
  download_to_file zero s3_key dest_path = pure tt
  download_to_file (suc zero) s3_key dest_path =
      try_except (download_attempt s3_key dest_path)
        (λ e. do write_file dest_path none; throw (failed (codes "Failed to download")))
  download_to_file (suc (suc left)) s3_key dest_path =
      try_except (download_attempt s3_key dest_path)
        (λ e. do write_file dest_path none; download_to_file (suc left) s3_key dest_path)

  pub read_all : (s3_key : Text) → Exec Client Text
  unfolding whole
  read_all s3_key = do
    s ← on_world (g.get_object s3_key)
    elim s.failure [ none ↦ pure (whole s.chunks) | some e ↦ throw e ]

  -- The gateway clamps the range, so its answer is that of the key. The raise after the loop is
  -- reached with no attempts at all.
  abbrev pub read_range : (retries : ℕ) → (s3_key : Text) → Exec Client Text
  read_range zero s3_key = throw (failed (codes "Failed to read range"))
  read_range (suc zero) s3_key =
      try_except (read_all s3_key) (λ e. throw (failed (codes "Failed to read range")))
  read_range (suc (suc left)) s3_key =
      try_except (read_all s3_key) (λ e. read_range (suc left) s3_key)

  -- _download_file_internal: `none` for a file that is given up.
  abbrev pub download_single_file : (retries : ℕ) → (s3_key : Text) → Exec Client (Option Text)
  download_single_file zero s3_key = pure none
  download_single_file (suc left) s3_key =
      try_except (do content ← read_all s3_key; pure (some content))
        (λ e. download_single_file left s3_key)

  unfoldable pub head_exists : (key : Text) → Exec Client Bool
  head_exists key c =
      let (found, w) = g.head_object key c.world in (head_answer found, record c { world = w })

  unfoldable pub list_files : (folder_path file_pattern : Text) → Exec Client (List Text)
  unfolding concat contains_text ends_with
  list_files folder_path file_pattern = do
    pages ← on_world (g.list_objects_v2 folder_path)
    pure (
        keep (λ key. not (ends_with key (codes "/")) && contains_text file_pattern key)
          (concat pages))

  unfoldable pub list_prefixes : (prefix delimiter : Text) → Exec Client (List Text)
  unfolding concat
  list_prefixes prefix delimiter = do
    pages ← on_world (g.common_prefixes prefix delimiter)
    pure (concat pages)

  abbrev pub read_file : (path : Text) → Exec Client Text
  read_file path c = elim (c.disk path) [
    | none ↦ (raise (record { kind = file_not_found; message = path }), c)
    | some body ↦ (return body, c)
  ]

  -- The suffix of a path, in lower case, decides; the tables of the two are a parameter.
  module _ (content_type : Text → Text) where
    abbrev pub upload_one : (file_path s3_key : Text) → Exec Client Bool
    upload_one file_path s3_key =
        try_except
          (do
            content ← read_file file_path
            etag ← on_world (g.put_object s3_key content (content_type file_path) none)
            pure true)
          (λ e. pure false)

    -- The files of the directory by their paths relative to it, and how many were uploaded.
    abbrev pub upload_all : (local_dir s3_prefix : Text) → List Text → Exec Client ℕ
    upload_all local_dir s3_prefix [] = pure 0
    upload_all local_dir s3_prefix (relative_path ∷ paths) = do
      done ←
          upload_one (local_dir ++ codes "/" ++ relative_path)
            (s3_prefix ++ codes "/" ++ relative_path)
      count ← upload_all local_dir s3_prefix paths
      pure (if done then suc count else count)

    pub put_streaming : (key file_path content_md5 : Text) → Exec Client (Option Text)
    put_streaming key file_path content_md5 = do
      body ← read_file file_path
      on_world (g.put_object key body (content_type file_path) (some content_md5))

    pub upload_checked : (key file_path : Text) → Exec Client Bool
    upload_checked key file_path = do
      body ← read_file file_path
      size ← lift (validated_size body)
      let (content_md5, md5_hex) = g.md5 body
      etag ← put_streaming key file_path content_md5
      pure (elim (etag_failure_reason etag md5_hex) [ none ↦ true | some reason ↦ false ])

    unfoldable pub upload_file : (key file_path : Text) → Exec Client Bool
    unfolding upload_checked put_streaming
    upload_file key file_path = try_except (upload_checked key file_path) (λ e. pure false)

  pub delete_batches : List (List Text) → Exec Client Unit
  delete_batches [] = pure tt
  delete_batches (batch ∷ more) = do on_world (g.delete_objects batch); delete_batches more

  unfoldable pub delete_prefix : (s3_prefix : Text) → Exec Client ℕ
  unfolding concat batches delete_batches
  delete_prefix s3_prefix = do
    pages ← on_world (g.list_objects_v2 s3_prefix)
    let keys = concat pages
    delete_batches (batches 1000 (length keys) keys)
    pure (length keys)

  unfoldable pub ensure_bucket_exists : Exec Client Bool
  ensure_bucket_exists =
      try_except (do try_except (on_world g.head_bucket) (λ e. on_world g.create_bucket); pure true)
        (λ e. pure false)
