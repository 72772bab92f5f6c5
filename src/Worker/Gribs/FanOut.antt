-- ===== src/Worker/Gribs/FanOut.antt =====
-- What the GFS downloader publishes.
use tiles_processor.Base.{
  ℕ, lift, ◌≡◌, ◌⊎◌, inl, inr, refl, sym, ◌∙◌, subst, Bool, true, false, List, [], ◌∷◌, ◌++◌, map,
  Text, arith, Exception, Result, return, raise, Result-cases, ◌>>=◌,
}
use tiles_processor.WorkUnit.{WorkUnit}
use tiles_processor.WorkUnit.Body.{Body}
use tiles_processor.Rabbit.Guards.{is_live}
use tiles_processor.Rabbit.Log.{logged}
use tiles_processor.Rabbit.Pika.{Amqp}
use tiles_processor.Store.Client.{S3Client, head_exists}
use tiles_processor.Store.Client.Aws.{Gateway}
use tiles_processor.Worker.Gribs.{Clients, on_store, upload_grib_if_missing, heads, publish_all}
use tiles_processor.Worker.Gribs.Uploads.{Cached, upload-Cached, call_of, publish_all-IsSent}
use tiles_processor.Worker.Gribs.Gfs.{
  GfsProductConfig, primary_cog_key, meta_of, build_work_units, not_done, GfsSetup, grib_key_of,
  pending_products, build_work_unit, process_gfs,
}

-- The products whose key was found missing, out of all of them, each by an answer of the store.
pub data Sift (g : Gateway) (key : GfsProductConfig → Text)
    : List GfsProductConfig → List GfsProductConfig → Type 0 where
  none_left : Sift g key [] []
  found :
      {p : GfsProductConfig} {ps qs : List GfsProductConfig} (c : S3Client g)
      → (head_exists g (key p) c).0 ≡ return true
      → Sift g key ps qs
      → Sift g key (p ∷ ps) qs
  missing :
      {p : GfsProductConfig} {ps qs : List GfsProductConfig} (c : S3Client g)
      → (head_exists g (key p) c).0 ≡ return false
      → Sift g key ps qs
      → Sift g key (p ∷ ps) (p ∷ qs)

module _ (g : Gateway) (a : Amqp) (content_type : Text → Text) (cfg : GfsSetup) where
  abbrev A : Amqp
  A = logged a

  heads-Sift :
      (key : GfsProductConfig → Text) (ps : List GfsProductConfig) (c : S3Client g) (bs : List Bool)
      → (heads g A content_type (map key ps) c).0 ≡ return bs
      → Sift g key ps (not_done ps bs)
  unfolding heads not_done
  heads-Sift key [] c bs h = none_left
  heads-Sift key (p ∷ ps) c bs h = elim (Result-cases (head_exists g (key p) c).0) [
    | inr (x, e) ↦ absurd (ground arith)
    | inl (b, e) ↦
        let d = (head_exists g (key p) c).1 in
        elim (Result-cases (heads g A content_type (map key ps) d).0) [
          | inr (x, f) ↦ absurd (ground arith)
          | inl (more, f) ↦
              let same : b ∷ more ≡ bs = ground arith in
              let rest = heads-Sift key ps d more f in
              subst (λ l. Sift g key (p ∷ ps) (not_done (p ∷ ps) l)) same
                (answered key p ps b more c e rest)
        ]
  ]
    where
      answered :
          (key : GfsProductConfig → Text) (p : GfsProductConfig) (ps : List GfsProductConfig)
          (b : Bool) (more : List Bool) (c : S3Client g)
          → (head_exists g (key p) c).0 ≡ return b
          → Sift g key ps (not_done ps more)
          → Sift g key (p ∷ ps) (not_done (p ∷ ps) (b ∷ more))
      answered key p ps true more c e rest = found c e rest
      answered key p ps false more c e rest = missing c e rest

  -- Which products are pending: those found missing, or all where a HEAD failed.
  abbrev pub Pending : (cycle_ts image_id : Text) → List GfsProductConfig → Type 0
  Pending cycle_ts image_id pending =
      Sift g (λ p. primary_cog_key p cycle_ts image_id) cfg.products pending
      ⊎ ((pending ≡ cfg.products)
          × ((c : S3Client g) × (e : Exception) × ((heads g A content_type
                  (map (λ p. primary_cog_key p cycle_ts image_id) cfg.products) c).0
                ≡ raise e)))

  pending_products-Pending :
      (cycle_ts image_id : Text) (c : S3Client g)
      → (ps : List GfsProductConfig) × ((pending_products g A content_type cfg cycle_ts image_id
            c).0
          ≡ return ps)
        × Pending cycle_ts image_id ps
  unfolding pending_products
  pending_products-Pending cycle_ts image_id c =
      let keys = map (λ p. primary_cog_key p cycle_ts image_id) cfg.products in
      elim (Result-cases (heads g A content_type keys c).0) [
        | inl (bs, e) ↦ (
          not_done cfg.products bs,
          ground arith,
          inl (heads-Sift (λ p. primary_cog_key p cycle_ts image_id) cfg.products c bs e),
        )
        | inr (x, e) ↦ (cfg.products, ground arith, inr (refl, (c, x, e)))
      ]

  -- What a step that was handled with success leaves behind.
  pub record IsFannedOut (path : Text) (u : WorkUnit) (s : Clients g A) (out : Clients g A)
      : Type 0 where
    pub cycle : Text × Text
    pub is_read : cfg.read_cycle u.source_uri ≡ return cycle
    pub cached : Cached g A content_type path (grib_key_of cycle.0 u.image_id)
    pub pending : List GfsProductConfig
    pub sifted : Pending cycle.0 u.image_id pending
    pub step_hours : ℕ
    pub hours_read : (pending ≡ []) ⊎ (cfg.read_hours u.source_uri ≡ return step_hours)
    pub log :
        out.mq.wire.1
        ≡ s.mq.wire.1
          ++ map (call_of g a content_type s.mq.queue_name) (
              map
                (build_work_unit g A content_type cfg u
                  (meta_of g A content_type cfg cycle step_hours)
                  (grib_key_of cycle.0 u.image_id))
                pending)

  abbrev pub Outcome : (path : Text) → WorkUnit → Clients g A → Result Unit → Clients g A → Type 0
  Outcome path u s (return _) t = IsFannedOut path u s t
  Outcome path u s (raise e) t = t.mq ≡ s.mq

  after_read :
      (path : Text) (u : WorkUnit) (s : Clients g A) (cycle : Text × Text)
      → cfg.read_cycle u.source_uri ≡ return cycle
      → let key = grib_key_of cycle.0 u.image_id in
        process_gfs g A content_type cfg path u s
        ≡ (on_store g A content_type (upload_grib_if_missing g A content_type path key) >>= λ _.
              on_store g A content_type (pending_products g A content_type cfg cycle.0 u.image_id)
              >>= λ pending.
                  lift (build_work_units g A content_type cfg u cycle key pending) >>= λ units.
                  publish_all g A content_type units)
            s
  unfolding process_gfs
  after_read path u s cycle e = ground (arith, e)

  -- The units of the pending products, with the step that was read for them.
  abbrev Built : WorkUnit → (cycle : Text × Text) → (key : Text) → List GfsProductConfig → Type 0
  Built u cycle key ps =
      ((x : Exception) × (build_work_units g A content_type cfg u cycle key ps ≡ raise x))
      ⊎ ((h : ℕ) × ((ps ≡ []) ⊎ (cfg.read_hours u.source_uri ≡ return h))
          × (build_work_units g A content_type cfg u cycle key ps
              ≡ return (
                  map
                    (build_work_unit g A content_type cfg u (meta_of g A content_type cfg cycle h)
                      key)
                    ps)))

  all_built :
      (u : WorkUnit) (cycle : Text × Text) (key : Text) (h : ℕ) (ps : List GfsProductConfig)
      → cfg.read_hours u.source_uri ≡ return h
      → build_work_units g A content_type cfg u cycle key ps
        ≡ return (
            map
              (build_work_unit g A content_type cfg u (meta_of g A content_type cfg cycle h) key)
              ps)
  unfolding build_work_units
  all_built u cycle key h [] e = refl
  all_built u cycle key h (p ∷ ps) e = rw (e, all_built u cycle key h ps e) refl

  built :
      (u : WorkUnit) (cycle : Text × Text) (key : Text) (ps : List GfsProductConfig)
      → Built u cycle key ps
  built u cycle key [] = inr (0, inl refl, unfold build_work_units in refl)
  built u cycle key (p ∷ ps) = elim (Result-cases (cfg.read_hours u.source_uri)) [
    | inl (h, e) ↦ inr (h, inr e, all_built u cycle key h (p ∷ ps) e)
    | inr (x, e) ↦ inl (x, unfold build_work_units in ground (arith, e))
  ]

  module _
      (publishes : (e k : Text) (b : Body) (w : a.Wire) → (a.basic_publish e k b w).0 ≡ return tt)
      (stays_open : (e k : Text) (b : Body) (w : a.Wire)
        → (a.is_closed (a.basic_publish e k b w).1 ≡ a.is_closed w)
          × (a.is_open (a.basic_publish e k b w).1 ≡ a.is_open w)) where
    -- While the connection holds, a step that was handled with success has its GRIB in the store,
    -- either found there or uploaded and accepted, and has put one unit on the wire for each pending
    -- product, in their order: those whose COG a HEAD found missing, or all if a HEAD failed. A step
    -- whose handling raised has published nothing.
    pub process_gfs-Outcome :
        (path : Text) (u : WorkUnit) (s : Clients g A)
        → is_live A s.mq ≡ true
        → let out = process_gfs g A content_type cfg path u s in Outcome path u s out.0 out.1
    process_gfs-Outcome path u s live = elim (Result-cases (cfg.read_cycle u.source_uri)) [
      | inr (x, e) ↦
          let bad : process_gfs g A content_type cfg path u s ≡ (raise x, s) =
            unfold process_gfs in ground (arith, e) in
          subst (λ out. Outcome path u s out.0 out.1) (sym bad) refl
      | inl (cycle, e) ↦
          let key = grib_key_of cycle.0 u.image_id in
          let up = upload_grib_if_missing g A content_type path key s.store in
          elim (Result-cases up.0) [
            | inr (x, f) ↦
                let bad : process_gfs g A content_type cfg path u s
                    ≡ (raise x, record s { store = up.1 }) =
                  after_read path u s cycle e ∙ ground (arith, f) in
                subst (λ out. Outcome path u s out.0 out.1) (sym bad) refl
            | inl (_, f) ↦
                let (ps, ok, sifted) = pending_products-Pending cycle.0 u.image_id up.1 in
                let t : Clients g A = record s {
                  store = (pending_products g A content_type cfg cycle.0 u.image_id up.1).1;
                } in
                elim (built u cycle key ps) [
                  | inl (x, b) ↦
                      let bad : process_gfs g A content_type cfg path u s ≡ (raise x, t) =
                        after_read path u s cycle e ∙ ground (arith, f, ok, b) in
                      subst (λ out. Outcome path u s out.0 out.1) (sym bad) refl
                  | inr (h, read, b) ↦
                      let units =
                        map
                          (build_work_unit g A content_type cfg u
                            (meta_of g A content_type cfg cycle h) key)
                          ps in
                      let good : process_gfs g A content_type cfg path u s
                          ≡ publish_all g A content_type units t =
                        after_read path u s cycle e ∙ ground (arith, f, ok, b) in
                      let sent =
                        publish_all-IsSent g a content_type publishes stays_open units t live in
                      subst (λ out. Outcome path u s out.0 out.1) (sym good)
                        (rw sent.returns (record {
                          cycle = cycle;
                          is_read = e;
                          cached = upload-Cached g A content_type path key s.store f;
                          pending = ps;
                          sifted = sifted;
                          step_hours = h;
                          hours_read = read;
                          log = sent.log;
                        }))
                ]
          ]
    ]
