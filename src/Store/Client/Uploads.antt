-- ===== src/Store/Client/Uploads.antt =====
-- When an upload counts as done.
use tiles_processor.Base.{
  ◌≡◌, ◌≤◌, ◌<◌, refl, Bool, true, false, [], Option, none, some, Text, text_eq, text_eq_iff, arith,
  length, Result, return, raise, Option-cases, ◌⊎◌, inl, inr, Result-cases, recover, pure,
}
use tiles_processor.Store.Heavy.{
  max_single_put_bytes, validated_size, is_multipart_etag, normalized, etag_failure_reason,
}
use tiles_processor.Store.Client.{Client, upload_checked, upload_file, put_streaming}
use tiles_processor.Store.Client.Aws.{Gateway}

-- The answer's ETag does not speak of a multipart upload, and it is absent or the body's hash.
abbrev pub IsIntact : Option Text → Text → Type 0
IsIntact etag md5_hex =
    (is_multipart_etag (normalized etag) ≡ false)
    × ((text_eq (normalized etag) [] ≡ true) ⊎ (normalized etag ≡ md5_hex))

etag_failure_reason-IsIntact :
    (etag : Option Text) (md5_hex : Text)
    → etag_failure_reason etag md5_hex ≡ none
    → IsIntact etag md5_hex
unfolding etag_failure_reason
etag_failure_reason-IsIntact etag md5_hex h = ground (arith, text_eq_iff (normalized etag) md5_hex)

module _ (g : Gateway) (content_type : Text → Text) where
  -- What stands behind a heavy upload that reports success.
  pub record IsAccepted (key path : Text) (c : Client g) : Type 0 where
    pub body : Text
    pub on_disk : c.disk path ≡ some body
    pub nonempty : 0 < length body
    pub single : length body ≤ max_single_put_bytes
    pub etag : Option Text
    pub put :
        (g.put_object key body (content_type path) (some (g.md5 body).0) c.world).0 ≡ return etag
    pub intact : IsIntact etag (g.md5 body).1

  abbrev answer : (key path body : Text) → Client g → Result (Option Text)
  answer key path body c =
      (g.put_object key body (content_type path) (some (g.md5 body).0) c.world).0

  checked :
      (key path : Text) (c : Client g)
      → (upload_checked g content_type key path c).0 ≡ return true
      → IsAccepted key path c
  unfolding upload_checked put_streaming validated_size
  checked key path c h = elim (Option-cases (c.disk path)) [
    | inl missing ↦ absurd (ground (arith, missing))
    | inr (body, e) ↦ elim (Result-cases (answer key path body c)) [
      | inl (etag, f) ↦ record {
        body = body;
        on_disk = e;
        nonempty = ground arith;
        single = ground arith;
        etag = etag;
        put = f;
        intact = etag_failure_reason-IsIntact etag (g.md5 body).1 (ground arith);
      }
      | inr (x, f) ↦ absurd (ground arith)
    ]
  ]

  settled :
      (r : Result Bool) (d : Client g)
      → let out = recover r (λ e. pure false) d in
        ((b : Bool) × (out.0 ≡ return b)) × (out.0 ≡ return true → r ≡ return true)
  settled (return b) d = ((b, refl), λ h. h)
  settled (raise e) d = ((false, refl), λ h. cc)

  -- A heavy upload never raises. It reports success only if the file is there, is not empty and fits
  -- one PUT, the gateway took that one PUT with the body's hash, and its ETag shows no multipart
  -- upload and, where it is given, equals the hash.
  pub upload_file-IsAccepted :
      (key path : Text) (c : Client g)
      → ((b : Bool) × ((upload_file g content_type key path c).0 ≡ return b))
        × ((upload_file g content_type key path c).0 ≡ return true → IsAccepted key path c)
  unfolding upload_file
  upload_file-IsAccepted key path c =
      let out = upload_checked g content_type key path c in
      let (returns, done) = settled out.0 out.1 in (returns, λ h. checked key path c (done h))
