-- ===== src/Worker/Gribs/Uploads.antt =====
-- What the two downloaders share: the cached GRIB, and the units put on the wire.
use mathlib.Core.List.{append-nil, append_assoc}
use tiles_processor.Base.{
  ◌≡◌, ◌⊎◌, inl, inr, refl, ap, sym, ◌∙◌, Bool, true, false, List, [], ◌∷◌, ◌++◌, map, none, Text,
  arith, Exec, Result, return, raise, Result-cases, and_then, pure, throw, branch, ◌>>=◌,
  Bool-cases,
}
use tiles_processor.WorkUnit.{WorkUnit}
use tiles_processor.WorkUnit.Body.{Body, to_dict}
use tiles_processor.Rabbit.{or_default}
use tiles_processor.Rabbit.Guards.{is_live}
use tiles_processor.Rabbit.Log.{Call, published, logged}
use tiles_processor.Rabbit.Wire.{publish-wire}
use tiles_processor.Rabbit.Pika.{Amqp}
use tiles_processor.Store.Client.{S3Client, head_exists, upload_file}
use tiles_processor.Store.Client.Aws.{Gateway}
use tiles_processor.Worker.Gribs.{Clients, not_uploaded, upload_grib_if_missing, publish_all}

module _ (g : Gateway) (amqp : Amqp) (content_type : Text → Text) where
  -- The object was there, or its upload was accepted.
  abbrev pub Cached : (path key : Text) → Type 0
  Cached path key =
      ((c : S3Client g) × ((head_exists g key c).0 ≡ return true))
      ⊎ ((c : S3Client g) × ((upload_file g content_type key path c).0 ≡ return true))

  settled :
      (r : Result Bool) (d : S3Client g)
      → (and_then r (λ done. branch done (pure tt) (throw not_uploaded)) d).0 ≡ return tt
      → r ≡ return true
  settled (return true) d h = refl
  settled (return false) d h = absurd (ground arith)
  settled (raise e) d h = absurd (ground arith)

  pub upload-Cached :
      (path key : Text) (c : S3Client g)
      → (upload_grib_if_missing g amqp content_type path key c).0 ≡ return tt
      → Cached path key
  unfolding upload_grib_if_missing
  upload-Cached path key c h =
      let d = (head_exists g key c).1 in
      let try_upload : Exec (S3Client g) Unit =
        upload_file g content_type key path
        >>= (λ done. branch done (pure tt) (throw not_uploaded)) in
      let uploaded : (d : S3Client g)
          → (try_upload d).0 ≡ return tt
          → (upload_file g content_type key path d).0 ≡ return true =
        λ d k.
          settled (upload_file g content_type key path d).0
            (upload_file g content_type key path d).1 k in
      elim (Result-cases (head_exists g key c).0) [
        | inl (b, e) ↦ elim (Bool-cases b) [
          | inl found ↦ inl (c, e ∙ ap return found)
          | inr missing ↦ inr (d, uploaded d (ground arith))
        ]
        | inr (x, e) ↦ inr (d, uploaded d (ground arith))
      ]

module _ (g : Gateway) (a : Amqp) (content_type : Text → Text) where
  abbrev A : Amqp
  A = logged a

  abbrev pub call_of : (queue : Text) → WorkUnit → Call
  call_of queue u = published [] (or_default none queue) (to_dict u)

  -- Every unit was put on the wire, and the store was left alone.
  pub record IsSent (units : List WorkUnit) (s : Clients g A) (out : Result Unit × Clients g A)
      : Type 0 where
    pub returns : out.0 ≡ return tt
    pub log : out.1.mq.wire.1 ≡ s.mq.wire.1 ++ map (call_of s.mq.queue_name) units

  module _
      (publishes : (e k : Text) (b : Body) (w : a.Wire) → (a.basic_publish e k b w).0 ≡ return tt)
      (stays_open : (e k : Text) (b : Body) (w : a.Wire)
        → (a.is_closed (a.basic_publish e k b w).1 ≡ a.is_closed w)
          × (a.is_open (a.basic_publish e k b w).1 ≡ a.is_open w)) where
    pub publish_all-IsSent :
        (units : List WorkUnit) (s : Clients g A)
        → is_live A s.mq ≡ true
        → IsSent units s (publish_all g A content_type units s)
    unfolding publish_all
    publish_all-IsSent [] s live = record { returns = refl; log = sym (append-nil _) }
    publish_all-IsSent (u ∷ units) s live =
        let q = or_default none s.mq.queue_name in
        let sent = publish-wire a publishes u none s.mq live in
        let kept = stays_open [] q (to_dict u) s.mq.wire.0 in
        let t : Clients g A = record s {
          mq = record s.mq {
            wire = (
              (a.basic_publish [] q (to_dict u) s.mq.wire.0).1,
              s.mq.wire.1 ++ published [] q (to_dict u) ∷ [],
            );
          };
        } in
        let rest = publish_all-IsSent units t (ground (arith, kept)) in
        record {
          returns = ground (arith, sent, rest);
          log = ground (
            arith,
            sent,
            rest,
            append_assoc s.mq.wire.1 (published [] q (to_dict u) ∷ [])
                (map (call_of s.mq.queue_name) units),
          );
        }
