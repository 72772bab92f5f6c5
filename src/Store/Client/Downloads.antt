-- ===== src/Store/Client/Downloads.antt =====
-- What a download leaves on disk.
use mathlib.Core.List.{append-nil, append_assoc}
use tiles_processor.Base.{
  ℕ, zero, suc, ◌≡◌, refl, false, List, [], ◌∷◌, ◌++◌, Option, none, some, Text, text_eq,
  text_eq_refl, arith, leb, length, Exec, Exception, runtime_error, Result, return, raise, inl, inr,
  recover, and_then, pure, throw, Bool-cases,
}
use tiles_processor.Store.Client.{
  Client, stream_to_file, save, download_attempt, download_to_file, written,
}
use tiles_processor.Store.Client.Aws.{Gateway, Stream}

-- The bytes of a body, up to an empty chunk.
pub body : List Text → Text
body [] = []
body ([] ∷ chunks) = []
body ((c ∷ chunk) ∷ chunks) = (c ∷ chunk) ++ body chunks

stream_to_file-body :
    (n : ℕ) (chunks : List Text) (buffer file : Text)
    → stream_to_file n chunks buffer file ≡ file ++ (buffer ++ body chunks)
unfolding stream_to_file body
stream_to_file-body n [] buffer file = simp append-nil
stream_to_file-body n ([] ∷ chunks) buffer file = simp append-nil
stream_to_file-body n ((c ∷ chunk) ∷ chunks) buffer file =
    elim (Bool-cases (leb n (length (buffer ++ (c ∷ chunk))))) [
      | inl full ↦
          rw (full, stream_to_file-body n chunks [] (file ++ (buffer ++ (c ∷ chunk))))
            (simp append_assoc)
      | inr room ↦
          rw (room, stream_to_file-body n chunks (buffer ++ (c ∷ chunk)) file) (simp append_assoc)
    ]

module _ (g : Gateway) where
  -- `dest` holds the whole body of an answer that the gateway gives for the key.
  abbrev pub Holds : (key dest : Text) → Client g → Type 0
  Holds key dest d =
      (w : g.World) × (s : Stream) × ((g.get_object key w).0 ≡ return s)
      × (s.failure ≡ none)
      × (d.disk dest ≡ some (body s.chunks))

  -- The file at `dest` after a download that ended so.
  abbrev pub Left : (key dest : Text) → Result Unit → Client g → Type 0
  Left key dest (return _) d = Holds key dest d
  Left key dest (raise e) d = (e.kind ≡ runtime_error) × (d.disk dest ≡ none)

  abbrev pub Untouched : (dest : Text) → Client g → Client g → Type 0
  Untouched dest c d = (p : Text) → text_eq dest p ≡ false → d.disk p ≡ c.disk p

  -- An attempt that returns has left the whole body.
  abbrev Saved : (key dest : Text) → Result Unit → Client g → Type 0
  Saved key dest (return _) d = Holds key dest d
  Saved key dest (raise e) d = Unit {0}

  by_failure :
      (key dest : Text) (w : g.World) (s : Stream) (o : Option Exception) (d : Client g)
      → (g.get_object key w).0 ≡ return s
      → s.failure ≡ o
      → d.disk dest ≡ some (body s.chunks)
      → let ended : Exec (Client g) Unit = elim o [ none ↦ pure tt | some e ↦ throw e ] in
        Saved key dest (ended d).0 (ended d).1
  by_failure key dest w s none d a e h = (w, s, a, e, h)
  by_failure key dest w s (some x) d a e h = tt

  save-Saved :
      (key dest : Text) (w : g.World) (s : Stream) (c : Client g)
      → (g.get_object key w).0 ≡ return s
      → Saved key dest (save g dest s c).0 (save g dest s c).1
  unfolding save
  save-Saved key dest w s c a =
      by_failure key dest w s s.failure _ a refl
        (ground (arith, text_eq_refl dest, stream_to_file-body 20971520 s.chunks [] []))

  answered :
      (key dest : Text) (w : g.World) (r : Result Stream) (d : Client g)
      → (g.get_object key w).0 ≡ r
      → Saved key dest (and_then r (save g dest) d).0 (and_then r (save g dest) d).1
  answered key dest w (return s) d a = save-Saved key dest w s d a
  answered key dest w (raise e) d a = tt

  attempt-Saved :
      (key dest : Text) (c : Client g)
      → Saved key dest (download_attempt g key dest c).0 (download_attempt g key dest c).1
  unfolding download_attempt
  attempt-Saved key dest c =
      answered key dest c.world (g.get_object key c.world).0
        (record c { world = (g.get_object key c.world).1 }) refl

  attempt-Untouched :
      (key dest p : Text) (c : Client g)
      → text_eq dest p ≡ false
      → (download_attempt g key dest c).1.disk p ≡ c.disk p
  unfolding download_attempt save
  attempt-Untouched key dest p c other_path = ground arith

  recovered :
      (key dest : Text) (r : Result Unit) (d : Client g)
      (handler : Exception → Exec (Client g) Unit)
      → Saved key dest r d
      → ((e : Exception) → Left key dest (handler e d).0 (handler e d).1)
      → Left key dest (recover r handler d).0 (recover r handler d).1
  recovered key dest (return _) d handler h k = h
  recovered key dest (raise e) d handler h k = k e

  download_to_file-Untouched :
      (left : ℕ) (key dest p : Text) (c : Client g)
      → text_eq dest p ≡ false
      → (download_to_file g (suc left) key dest c).1.disk p ≡ c.disk p
  unfolding download_to_file
  download_to_file-Untouched zero key dest p c apart =
      ground (arith, attempt-Untouched key dest p c apart)
  download_to_file-Untouched (suc left) key dest p c apart =
      let out = download_attempt g key dest c in
      ground (
        arith,
        attempt-Untouched key dest p c apart,
        download_to_file-Untouched left key dest p
            (record out.1 { disk = written dest none out.1.disk }) apart,
      )

  download-Left :
      (left : ℕ) (key dest : Text) (c : Client g)
      → let out = download_to_file g (suc left) key dest c in Left key dest out.0 out.1
  unfolding download_to_file
  download-Left zero key dest c =
      let out = download_attempt g key dest c in
      recovered key dest out.0 out.1 _ (attempt-Saved key dest c)
        (λ e. (refl, ground (arith, text_eq_refl dest)))
  download-Left (suc left) key dest c =
      let out = download_attempt g key dest c in
      recovered key dest out.0 out.1 _ (attempt-Saved key dest c)
        (λ e. download-Left left key dest (record out.1 { disk = written dest none out.1.disk }))

  -- A download that is given at least one attempt ends in one of two ways: it returns and the file
  -- is the body of one unbroken answer of the gateway, whatever the write buffer's flushes were, or it raises a
  -- RuntimeError and there is no file, not even a partial one. No other path changes.
  pub download_to_file-Left :
      (left : ℕ) (key dest : Text) (c : Client g)
      → let out = download_to_file g (suc left) key dest c in
        Left key dest out.0 out.1 × Untouched dest c out.1
  download_to_file-Left left key dest c =
      (download-Left left key dest c, λ p apart. download_to_file-Untouched left key dest p c apart)
