-- ===== src/Store/Client/Aws.antt =====
-- What s3_client.py calls of aioboto3.
use tiles_processor.Base.{ℕ, List, Option, Text, Exec, Exception}

-- The body of an answer: its chunks as they are read, and what breaks it off, if anything.
pub record Stream : Type 0 where
  pub chunks : List Text
  pub failure : Option Exception

-- A ClientError's code, or another exception.
pub data HeadFailure : Type 0 where
  client_error : (code : Text) → Exception → HeadFailure
  failure : Exception → HeadFailure

-- An enabled lifecycle rule: its ID, Expiration.Days and Filter.Prefix.
pub record Rule : Type 0 where
  pub rule_id : Text
  pub days : ℕ
  pub prefix : Text

pub record Gateway : Type 1 where
  pub World : Type 0
  pub get_object : (key : Text) → Exec World Stream
  pub head_object : (key : Text) → World → Option HeadFailure × World
  -- The pages of a paginator: the keys, or the common prefixes.
  pub list_objects_v2 : (prefix : Text) → Exec World (List (List Text))
  pub common_prefixes : (prefix delimiter : Text) → Exec World (List (List Text))
  -- The ETag of the answer.
  pub put_object :
      (key body content_type : Text) → (content_md5 : Option Text) → Exec World (Option Text)
  pub delete_objects : (batch : List Text) → Exec World Unit
  pub head_bucket : Exec World Unit
  pub create_bucket : Exec World Unit
  pub put_bucket_lifecycle_configuration : List Rule → Exec World Unit
  -- The hash of a body, in base64 and in hexadecimal.
  pub md5 : (body : Text) → Text × Text
