-- ===== src/Worker/Gribs/Periods.antt =====
-- What the ECMWF downloader publishes.
use tiles_processor.Base.{
  ℕ, ◌≡◌, ◌⊎◌, inl, inr, refl, sym, ◌∙◌, subst, Bool, true, false, List, [], ◌∷◌, ◌++◌, map, Text,
  codes, arith, Exec, Exception, Result, return, raise, Result-cases, ◌>>=◌, Bool-cases, All,
  All-implies, not, keep, member, text_eq_refl,
}
use tiles_processor.Base.Picks.{Picks, nothing, taken, passed}
use tiles_processor.Sources.Gfs.{range}
use tiles_processor.WorkUnit.{WorkUnit}
use tiles_processor.WorkUnit.Body.{Body}
use tiles_processor.Rabbit.Guards.{is_live}
use tiles_processor.Rabbit.Log.{logged}
use tiles_processor.Rabbit.Pika.{Amqp}
use tiles_processor.Store.Client.{S3Client, head_exists}
use tiles_processor.Store.Client.Aws.{Gateway}
use tiles_processor.Worker.Gribs.{
  slash, Clients, on_store, upload_grib_if_missing, heads, publish_all,
}
use tiles_processor.Worker.Gribs.Uploads.{Cached, upload-Cached, call_of, publish_all-IsSent}
use tiles_processor.Worker.Gribs.Ecmwf.{
  EcmwfSetup, end_hours, no_s3_client, marked, cog_key, list_existing_cog_keys, period_unit,
  missing_hours, process_ecmwf,
}

-- The hours at which the periods end.
abbrev pub period_ends : List ℕ
period_ends =
    6 ∷ 9 ∷ 12 ∷ 15 ∷ 18 ∷ 21 ∷ 24 ∷ 27 ∷ 30 ∷ 33 ∷ 36 ∷ 39 ∷ 42 ∷ 45 ∷ 48 ∷ 51 ∷ 54 ∷ 57 ∷ 60 ∷ 63
    ∷ 66 ∷ 69 ∷ 72 ∷ 75 ∷ 78 ∷ 81 ∷ 84 ∷ 87 ∷ 90 ∷ 93 ∷ 96 ∷ 99 ∷ 102 ∷ 105 ∷ 108 ∷ 111 ∷ 114 ∷ 117
    ∷ 120 ∷ 123 ∷ 126 ∷ 129 ∷ 132 ∷ 135 ∷ 138 ∷ 141 ∷ 144 ∷ []

end_hours-eq : end_hours ≡ period_ends
unfolding end_hours range
end_hours-eq = refl

module _ (g : Gateway) where
  -- A HEAD of the key answered so.
  abbrev pub Answered : Bool → Text → Type 0
  Answered b key = (c : S3Client g) × ((head_exists g key c).0 ≡ return b)

  abbrev pub Missed : (key : ℕ → Text) (existing : List Text) → ℕ → Type 0
  Missed key existing h = member (key h) existing ≡ false → Answered false (key h)

module _ (g : Gateway) (a : Amqp) (content_type : Text → Text) (cfg : EcmwfSetup) where
  abbrev A : Amqp
  A = logged a

  answered :
      (key : ℕ → Text) (h : ℕ) (hs : List ℕ) (b : Bool) (more : List Bool)
      → Answered g b (key h)
      → All (Answered g true) (marked (map key hs) more)
      → All (Missed g key (marked (map key hs) more)) hs
      → All (Answered g true) (marked (key h ∷ map key hs) (b ∷ more))
        × All (Missed g key (marked (key h ∷ map key hs) (b ∷ more))) (h ∷ hs)
  unfolding marked
  answered key h hs true more c there away =
      let known = marked (map key hs) more in
      (
        (c, there),
        (
          (λ q. absurd (unfold member in ground (arith, text_eq_refl (key h)))),
          All-implies (Missed g key known) (Missed g key (key h ∷ known)) hs
              (λ i m q. m (unfold member in ground arith)) away,
        ),
      )
  answered key h hs false more c there away = (there, ((λ q. c), away))

  heads-marked :
      (key : ℕ → Text) (hs : List ℕ) (c : S3Client g) (bs : List Bool)
      → (heads g A content_type (map key hs) c).0 ≡ return bs
      → All (Answered g true) (marked (map key hs) bs)
        × All (Missed g key (marked (map key hs) bs)) hs
  unfolding heads
  heads-marked key [] c bs h = unfold marked in (tt, tt)
  heads-marked key (p ∷ hs) c bs h = elim (Result-cases (head_exists g (key p) c).0) [
    | inr (x, e) ↦ absurd (ground arith)
    | inl (b, e) ↦
        let d = (head_exists g (key p) c).1 in
        elim (Result-cases (heads g A content_type (map key hs) d).0) [
          | inr (x, f) ↦ absurd (ground arith)
          | inl (more, f) ↦
              let same : b ∷ more ≡ bs = ground arith in
              let (there, away) = heads-marked key hs d more f in
              subst
                (λ l.
                  All (Answered g true) (marked (map key (p ∷ hs)) l)
                  × All (Missed g key (marked (map key (p ∷ hs)) l)) (p ∷ hs))
                same (answered key p hs b more (c, e) there away)
        ]
  ]

  -- What is known of the keys that were taken for existing: each was found, and each key of an hour
  -- that is not among them was found missing, unless a HEAD failed, and then none is.
  abbrev pub Known : (forecast_ts : Text) (forecast_time : ℕ) → List Text → Type 0
  Known forecast_ts forecast_time existing =
      let key = cog_key g A content_type cfg forecast_ts forecast_time in
      (All (Answered g true) existing × All (Missed g key existing) period_ends)
      ⊎ ((existing ≡ [])
          × ((c : S3Client g) × (e : Exception) × ((heads g A content_type (map key period_ends)
                  c).0
                ≡ raise e)))

  list_existing_cog_keys-Known :
      (forecast_ts : Text) (forecast_time : ℕ) (c : S3Client g)
      → (existing : List Text) × ((list_existing_cog_keys g A content_type cfg forecast_ts
            forecast_time c).0
          ≡ return existing)
        × Known forecast_ts forecast_time existing
  unfolding list_existing_cog_keys
  list_existing_cog_keys-Known forecast_ts forecast_time c =
      let key = cog_key g A content_type cfg forecast_ts forecast_time in
      elim (Result-cases (heads g A content_type (map key end_hours) c).0) [
        | inl (bs, e) ↦ (
          marked (map key end_hours) bs,
          ground arith,
          inl (
              subst
                (λ hs.
                  All (Answered g true) (marked (map key end_hours) bs)
                  × All (Missed g key (marked (map key end_hours) bs)) hs)
                end_hours-eq (heads-marked key end_hours c bs e)),
        )
        | inr (x, e) ↦ (
          [],
          ground arith,
          inr (
            refl,
            (
              c,
              x,
              subst (λ hs. (heads g A content_type (map key hs) c).0 ≡ raise x) end_hours-eq e,
            ),
          ),
        )
      ]

  -- An hour whose COG is not among the existing ones.
  abbrev pub Lacks :
      (forecast_ts : Text) (forecast_time : ℕ) (existing : List Text) (h h' : ℕ) → Type 0
  Lacks forecast_ts forecast_time existing h h' =
      (member (cog_key g A content_type cfg forecast_ts forecast_time h) existing ≡ false)
      × (h' ≡ h)

  missing-Picks :
      (forecast_ts : Text) (forecast_time : ℕ) (existing : List Text) (hs : List ℕ)
      → Picks (Lacks forecast_ts forecast_time existing) hs (
          keep
            (λ h. not (member (cog_key g A content_type cfg forecast_ts forecast_time h) existing))
            hs)
  missing-Picks ts t existing [] = nothing
  missing-Picks ts t existing (h ∷ hs) =
      elim (Bool-cases (member (cog_key g A content_type cfg ts t h) existing)) [
        | inl there ↦
            rw there
              (passed (λ q l. absurd (ground (arith, there, l.0))) (missing-Picks ts t existing hs))
        | inr away ↦ rw away (taken (away, refl) (missing-Picks ts t existing hs))
      ]

  -- What a forecast that was handled with success leaves behind.
  pub record IsFannedOut (path : Text) (u : WorkUnit) (s : Clients g A) (out : Clients g A)
      : Type 0 where
    pub forecast_time : ℕ
    pub is_read : cfg.from_iso_format u.source_uri ≡ return forecast_time
    pub cached : Cached g A content_type path (slash cfg.grib_prefix (u.image_id ++ codes ".grib"))
    pub existing : List Text
    pub known : Known u.image_id forecast_time existing
    pub hours : List ℕ
    pub missing : Picks (Lacks u.image_id forecast_time existing) period_ends hours
    pub log :
        out.mq.wire.1
        ≡ s.mq.wire.1
          ++ map (call_of g a content_type s.mq.queue_name) (
              map
                (period_unit g A content_type cfg u.image_id
                  (slash cfg.grib_prefix (u.image_id ++ codes ".grib"))
                  forecast_time)
                hours)

  abbrev pub Outcome : (path : Text) → WorkUnit → Clients g A → Result Unit → Clients g A → Type 0
  Outcome path u s (return _) t = IsFannedOut path u s t
  Outcome path u s (raise e) t = t.mq ≡ s.mq

  abbrev run : (path : Text) → WorkUnit → Exec (Clients g A) Unit
  run path u = process_ecmwf g A content_type cfg path u

  after_read :
      (path : Text) (u : WorkUnit) (s : Clients g A) (t : ℕ)
      → cfg.has_s3_client ≡ true
      → cfg.from_iso_format u.source_uri ≡ return t
      → let key = slash cfg.grib_prefix (u.image_id ++ codes ".grib") in
        run path u s
        ≡ (on_store g A content_type (upload_grib_if_missing g A content_type path key) >>= λ _.
              on_store g A content_type (list_existing_cog_keys g A content_type cfg u.image_id t)
              >>= λ existing. publish_all g A content_type (
                  map
                    (period_unit g A content_type cfg u.image_id key t)
                    (missing_hours g A content_type cfg u.image_id t existing)))
            s
  unfolding process_ecmwf
  after_read path u s t y e = ground (arith, y, e)

  unread :
      (path : Text) (u : WorkUnit) (s : Clients g A) (x : Exception)
      → (cfg.has_s3_client ≡ false) ⊎ (cfg.from_iso_format u.source_uri ≡ raise x)
      → (y : Exception) × (run path u s ≡ (raise y, s))
  unfolding process_ecmwf
  unread path u s x (inl bare) = (no_s3_client, ground (arith, bare))
  unread path u s x (inr e) = elim (Bool-cases cfg.has_s3_client) [
    | inl given ↦ (x, ground (arith, given, e))
    | inr bare ↦ (no_s3_client, ground (arith, bare))
  ]

  unread-Outcome :
      (path : Text) (u : WorkUnit) (s : Clients g A) (y : Exception)
      → run path u s ≡ (raise y, s)
      → Outcome path u s (run path u s).0 (run path u s).1
  unread-Outcome path u s y bad = subst (λ out. Outcome path u s out.0 out.1) (sym bad) refl

  module _
      (publishes : (e k : Text) (b : Body) (w : a.Wire) → (a.basic_publish e k b w).0 ≡ return tt)
      (stays_open : (e k : Text) (b : Body) (w : a.Wire)
        → (a.is_closed (a.basic_publish e k b w).1 ≡ a.is_closed w)
          × (a.is_open (a.basic_publish e k b w).1 ≡ a.is_open w)) where
    read-Outcome :
        (path : Text) (u : WorkUnit) (s : Clients g A) (t : ℕ)
        → is_live A s.mq ≡ true
        → cfg.has_s3_client ≡ true
        → cfg.from_iso_format u.source_uri ≡ return t
        → Outcome path u s (run path u s).0 (run path u s).1
    read-Outcome path u s t live given e =
        let key = slash cfg.grib_prefix (u.image_id ++ codes ".grib") in
        let up = upload_grib_if_missing g A content_type path key s.store in
        elim (Result-cases up.0) [
          | inr (x, f) ↦
              let bad : run path u s ≡ (raise x, record s { store = up.1 }) =
                after_read path u s t given e ∙ ground (arith, f) in
              subst (λ out. Outcome path u s out.0 out.1) (sym bad) refl
          | inl (_, f) ↦
              let (ks, ok, known) = list_existing_cog_keys-Known u.image_id t up.1 in
              let units =
                map (period_unit g A content_type cfg u.image_id key t)
                  (missing_hours g A content_type cfg u.image_id t ks) in
              let s2 : Clients g A = record s {
                store = (list_existing_cog_keys g A content_type cfg u.image_id t up.1).1;
              } in
              let good : run path u s ≡ publish_all g A content_type units s2 =
                after_read path u s t given e ∙ ground (arith, f, ok) in
              let sent = publish_all-IsSent g a content_type publishes stays_open units s2 live in
              subst (λ out. Outcome path u s out.0 out.1) (sym good)
                (rw sent.returns (record {
                  forecast_time = t;
                  is_read = e;
                  cached = upload-Cached g A content_type path key s.store f;
                  existing = ks;
                  known = known;
                  hours = missing_hours g A content_type cfg u.image_id t ks;
                  missing =
                      subst
                        (λ hs.
                          Picks (Lacks u.image_id t ks) hs
                            (missing_hours g A content_type cfg u.image_id t ks))
                        end_hours-eq (missing-Picks u.image_id t ks end_hours);
                  log = sent.log;
                }))
        ]

    -- While the connection holds, a forecast that was handled with success has its GRIB in the store,
    -- either found there or uploaded and accepted, and has put one unit on the wire for each period end
    -- from 6 to 144 hours whose COG is not known to exist: a COG is known to exist only where a HEAD
    -- found it, and where no HEAD failed each of the others was found missing. The periods end every
    -- three hours, and their units are in that order. A forecast whose
    -- handling raised has published nothing.
    pub process_ecmwf-Outcome :
        (path : Text) (u : WorkUnit) (s : Clients g A)
        → is_live A s.mq ≡ true
        → let out = process_ecmwf g A content_type cfg path u s in Outcome path u s out.0 out.1
    process_ecmwf-Outcome path u s live = elim (Bool-cases cfg.has_s3_client) [
      | inr bare ↦
          let (y, bad) = unread path u s no_s3_client (inl bare) in unread-Outcome path u s y bad
      | inl given ↦ elim (Result-cases (cfg.from_iso_format u.source_uri)) [
        | inr (x, e) ↦ let (y, bad) = unread path u s x (inr e) in unread-Outcome path u s y bad
        | inl (t, e) ↦ read-Outcome path u s t live given e
      ]
    ]
