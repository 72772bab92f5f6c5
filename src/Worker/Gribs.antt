-- ===== src/Worker/Gribs.antt =====
-- src/worker/gfs_grib_downloader.py and src/worker/ecmwf_grib_downloader.py: the inline processors that
-- cache a GRIB and fan it out. HEADs that run together run here one after the other. Timings are left out.
pub mod Gfs
pub mod Ecmwf
pub mod Uploads
pub mod FanOut
pub mod Periods
use tiles_processor.Base.{
  none, ℕ, zero, suc, ◌+◌, Bool, true, false, not, List, [], ◌∷◌, ◌++◌, Text, codes, member,
  if◌then◌else◌, Exec, Exception, Result, return, raise, runtime_error, pure, throw, lift, branch,
  try_except, ◌>>=◌, ◌>>◌,
}
use tiles_processor.WorkUnit.{WorkUnit, Bounds, create}
use tiles_processor.Rabbit.{RabbitMqClient, publish}
use tiles_processor.Rabbit.Pika.{Amqp}
use tiles_processor.Store.Client.{S3Client, head_exists, upload_file}
use tiles_processor.Store.Client.Aws.{Gateway}
use tiles_processor.Sources.Gfs.{range}

abbrev pub slash : Text → Text → Text
slash s t = s ++ b'/' ∷ t

-- The downloader's two clients.
pub record Clients (g : Gateway) (amqp : Amqp) : Type 0 where
  pub store : S3Client g
  pub mq : RabbitMqClient amqp

abbrev pub not_uploaded : Exception
not_uploaded = record { kind = runtime_error; message = codes "Failed to upload GRIB to S3" }

module _ (g : Gateway) (amqp : Amqp) (content_type : Text → Text) where
  abbrev pub on_store : {A : Type 0} → Exec (S3Client g) A → Exec (Clients g amqp) A
  on_store m s = let (r, c) = m s.store in (r, record s { store = c })

  abbrev pub on_mq : {A : Type 0} → Exec (RabbitMqClient amqp) A → Exec (Clients g amqp) A
  on_mq m s = let (r, c) = m s.mq in (r, record s { mq = c })

  -- A failed HEAD counts as a missing object.
  pub upload_grib_if_missing : (local_path grib_key : Text) → Exec (S3Client g) Unit
  upload_grib_if_missing local_path grib_key = do
    exists ← try_except (head_exists g grib_key) (λ e. pure false)
    branch exists (pure tt) (do
      uploaded ← upload_file g content_type grib_key local_path
      branch uploaded (pure tt) (throw not_uploaded))

  pub heads : (keys : List Text) → Exec (S3Client g) (List Bool)
  heads [] = pure []
  heads (key ∷ keys) = do done ← head_exists g key; more ← heads keys; pure (done ∷ more)

  pub publish_all : List WorkUnit → Exec (Clients g amqp) Unit
  publish_all [] = pure tt
  publish_all (u ∷ units) = do on_mq (publish amqp u none); publish_all units
