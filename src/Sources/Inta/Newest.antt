-- ===== src/Sources/Inta/Newest.antt =====
-- Which INTA images are emitted.
use tiles_processor.Base.{
  ℕ, ◌-◌, ◌≤◌, ◌<◌, ◌≡◌, inl, inr, refl, sym, ◌∙◌, subst, true, false, ◌&&◌, List, [], ◌∷◌, Option,
  none, some, ap, Exception, raise, bind, bind-eq-return, Text, text_eq_iff, arith, member, take,
  keep, sort_by, Bool-cases, Option-cases, Result, return, return-eq-return,
}
use tiles_processor.Base.Picks.{Picks, nothing, taken, passed, after_round}
use tiles_processor.Producer.Discovery.{ImageInfo, DiscoveryConfig}
use tiles_processor.Sources.Radar.{later_id}
use tiles_processor.Sources.Radar.Groups.{is_of, keep-newest_of_groups}
use tiles_processor.Sources.Inta.Header.{RainbowHeader, Window, parse_rainbow_header}
use tiles_processor.Sources.Inta.{
  IntaName, parse_inta_filename, file_name, inta_stop_range, accepts_range, IntaSource,
  matches_variable, is_recent, candidates_of, read_headers, is_enabled, image_of, new_image,
  new_images, cap_per_station, discover_images, is_unreadable, or_unreadable, read_one,
}

module _ (src : IntaSource) (parse_inta_timestamp : Text → Option ℕ)
    (read_header : (source_uri : Text) → Result Window) where
  -- A candidate: a file of the product's variable and extension, scanned within the age limit.
  pub record IsCandidate (cutoff : ℕ) (uri : Text) : Type 0 where
    pub name : IntaName
    pub parsed : parse_inta_filename (file_name uri) ≡ some name
    pub variable : name.variable ≡ src.spec.rainbow_variable
    pub extension : name.extension ≡ src.spec.extension
    pub scan_time : ℕ
    pub scanned : parse_inta_timestamp name.timestamp ≡ some scan_time
    pub recent : cutoff ≤ scan_time

  candidate :
      (cutoff : ℕ) (uri : Text)
      → (matches_variable src uri && is_recent src parse_inta_timestamp read_header cutoff uri)
        ≡ true
      → IsCandidate cutoff uri
  unfolding matches_variable is_recent
  candidate cutoff uri h = elim (Option-cases (parse_inta_filename (file_name uri))) [
    | inl bad ↦ absurd (ground (arith, bad, h))
    | inr (name, parsed) ↦ elim (Option-cases (parse_inta_timestamp name.timestamp)) [
      | inl never ↦ absurd (ground (arith, parsed, never, h))
      | inr (t, scanned) ↦ record {
        name = name;
        parsed = parsed;
        variable = ground (arith, parsed, h, text_eq_iff name.variable src.spec.rainbow_variable);
        extension = ground (arith, parsed, h, text_eq_iff name.extension src.spec.extension);
        scan_time = t;
        scanned = scanned;
        recent = ground (arith, parsed, scanned, h);
      }
    ]
  ]

  is_candidate :
      (cutoff : ℕ) (uri : Text)
      → IsCandidate cutoff uri
      → (matches_variable src uri && is_recent src parse_inta_timestamp read_header cutoff uri)
        ≡ true
  unfolding matches_variable is_recent
  is_candidate cutoff uri c = ground (
    arith,
    c.parsed,
    c.scanned,
    c.recent,
    (text_eq_iff c.name.variable src.spec.rainbow_variable).1 c.variable,
    (text_eq_iff c.name.extension src.spec.extension).1 c.extension,
  )

  abbrev pub Candidate : (cutoff : ℕ) → (uri uri' : Text) → Type 0
  Candidate cutoff uri uri' = IsCandidate cutoff uri × (uri' ≡ uri)

  candidates-Picks :
      (cutoff : ℕ) (uris : List Text)
      → Picks
          (Candidate cutoff)
          uris
          (candidates_of src parse_inta_timestamp read_header cutoff uris)
  unfolding candidates_of
  candidates-Picks cutoff [] = nothing
  candidates-Picks cutoff (uri ∷ uris) =
      elim (Bool-cases
        (matches_variable src uri && is_recent src parse_inta_timestamp read_header cutoff uri)) [
          | inl passes ↦
              rw passes (taken (candidate cutoff uri passes, refl) (candidates-Picks cutoff uris))
          | inr fails ↦ rw fails (
              passed (λ u c. let e = is_candidate cutoff uri c.0 in absurd (ground (arith, fails)))
                (candidates-Picks cutoff uris))
        ]

  -- What reading a candidate's header gave: the header, or nothing where it is unreadable.
  abbrev pub Gave : Text → Text × Option RainbowHeader → Type 0
  Gave uri (uri', some header) =
      (uri' ≡ uri)
      × (bind (read_header uri) (λ window. parse_rainbow_header window) ≡ return header)
  Gave uri (uri', none) =
      (uri' ≡ uri)
      × ((e : Exception) × (bind (read_header uri) (λ window. parse_rainbow_header window)
            ≡ raise e)
          × (is_unreadable e.kind ≡ true))

  gave :
      (uri : Text) (r : Result RainbowHeader) (header : Option RainbowHeader)
      → bind (read_header uri) (λ window. parse_rainbow_header window) ≡ r
      → or_unreadable r ≡ return header
      → Gave uri (uri, header)
  gave uri (return h) none e k = absurd (ground (arith, k))
  gave uri (return h) (some h') e k = (refl, e ∙ ground (arith, k))
  gave uri (raise x) none e k = (refl, (x, e, ground (arith, k)))
  gave uri (raise x) (some h') e k = absurd (ground (arith, k))

  read_headers-Picks :
      (uris : List Text) (headers : List (Text × Option RainbowHeader))
      → read_headers src parse_inta_timestamp read_header uris ≡ return headers
      → Picks Gave uris headers
  unfolding read_headers read_one
  read_headers-Picks [] headers h = subst (λ l. Picks Gave [] l) (return-eq-return h) nothing
  read_headers-Picks (uri ∷ uris) headers h =
      let (header, one, h1) =
        bind-eq-return (read_one src parse_inta_timestamp read_header uri) _ h in
      let (rest, more, h2) =
        bind-eq-return (read_headers src parse_inta_timestamp read_header uris) _ h1 in
      subst (λ l. Picks Gave (uri ∷ uris) l) (return-eq-return h2)
        (taken (gave uri _ header refl one) (read_headers-Picks uris rest more))

  -- A header that makes an image: the range is the product's, the station is enabled, and the image was
  -- neither made nor queued.
  pub record IsWanted (config : DiscoveryConfig) (uri : Text) (header : RainbowHeader)
      (i : ImageInfo) : Type 0 where
    pub name : IntaName
    pub parsed : parse_inta_filename (file_name uri) ≡ some name
    pub image : image_of src parse_inta_timestamp read_header uri header name ≡ i
    pub far : src.spec.long_range ≡ true → inta_stop_range < header.stop_range
    pub exact : src.spec.long_range ≡ false → header.stop_range ≡ inta_stop_range
    pub enabled :
        is_enabled src parse_inta_timestamp read_header src.station_filter header.radar_id ≡ true
    pub not_made : member i.image_id config.existing_tilesets ≡ false
    pub not_queued : member i.image_id config.in_progress_images ≡ false

  wanted :
      (config : DiscoveryConfig) (uri : Text) (header : RainbowHeader) (i : ImageInfo)
      → new_image src parse_inta_timestamp read_header config (uri, some header) ≡ some i
      → IsWanted config uri header i
  unfolding new_image accepts_range
  wanted config uri header i h = elim (Option-cases (parse_inta_filename (file_name uri))) [
    | inl bad ↦ absurd (ground (arith, bad, h))
    | inr (name, parsed) ↦
        let j = image_of src parse_inta_timestamp read_header uri header name in
        let same : j ≡ i = ground (arith, parsed, h) in
        record {
          name = name;
          parsed = parsed;
          image = same;
          far = λ l. ground (arith, parsed, h, l);
          exact = λ l. ground (arith, parsed, h, l);
          enabled = ground (arith, parsed, h);
          not_made =
              subst (λ x. member x.image_id config.existing_tilesets ≡ false) same
                (ground (arith, parsed, h));
          not_queued =
              subst (λ x. member x.image_id config.in_progress_images ≡ false) same
                (ground (arith, parsed, h));
        }
  ]

  found :
      (config : DiscoveryConfig) (uri : Text) (header : RainbowHeader) (i : ImageInfo)
      → IsWanted config uri header i
      → new_image src parse_inta_timestamp read_header config (uri, some header) ≡ some i
  unfolding new_image accepts_range
  found config uri header i w =
      let j = image_of src parse_inta_timestamp read_header uri header w.name in
      let not_made =
        subst (λ x. member x.image_id config.existing_tilesets ≡ false) (sym w.image) w.not_made in
      let not_queued =
        subst (λ x. member x.image_id config.in_progress_images ≡ false) (sym w.image)
          w.not_queued in
      let made : new_image src parse_inta_timestamp read_header config (uri, some header) ≡ some j =
        ground (arith, w.parsed, w.far, w.exact, w.enabled, not_made, not_queued) in
      made ∙ ap some w.image

  -- An image that a candidate makes with the header that it gave.
  abbrev pub Makes : DiscoveryConfig → Text × Option RainbowHeader → ImageInfo → Type 0
  Makes config (uri, none) i = ⊥
  Makes config (uri, some header) i = IsWanted config uri header i

  new_images-Picks :
      (config : DiscoveryConfig) (headers : List (Text × Option RainbowHeader))
      → Picks
          (Makes config)
          headers
          (new_images src parse_inta_timestamp read_header config headers)
  unfolding new_images new_image
  new_images-Picks config [] = nothing
  new_images-Picks config ((uri, none) ∷ headers) =
      passed (λ i w. w) (new_images-Picks config headers)
  new_images-Picks config ((uri, some header) ∷ headers) =
      after_round (new_image src parse_inta_timestamp read_header config (uri, some header))
        (λ i. (wanted config uri header i, found config uri header i))
        (new_images-Picks config headers)

  -- What is emitted, with the candidates, what reading their headers gave, and the images of these.
  pub record IsNewestScans (listed : List Text) (config : DiscoveryConfig) (images : List ImageInfo)
      : Type 0 where
    pub candidates : List Text
    pub headers : List (Text × Option RainbowHeader)
    pub after : List ImageInfo
    pub chosen : Picks (Candidate (config.current_time - src.max_age)) listed candidates
    pub read : Picks Gave candidates headers
    pub made : Picks (Makes config) headers after
    pub newest :
        (radar_id : Text)
        → keep (is_of radar_id) images
          ≡ take src.target_images (sort_by later_id (keep (is_of radar_id) after))

  -- An INTA discovery emits, of each station, the newest of the images that the headers of its
  -- candidates make, at most `target_images`. The candidates are exactly the files of the listing that
  -- are of the product's variable and extension and were scanned within the age limit. A candidate
  -- makes an image exactly if its header can be read, the header's range is the product's, its station
  -- is enabled, and the image was neither made nor queued.
  pub discover_images-IsNewestScans :
      (listed : List Text) (config : DiscoveryConfig) (images : List ImageInfo)
      → discover_images src parse_inta_timestamp read_header (return listed) config ≡ return images
      → IsNewestScans listed config images
  unfolding discover_images cap_per_station
  discover_images-IsNewestScans listed config images h =
      let cutoff = config.current_time - src.max_age in
      let candidates = candidates_of src parse_inta_timestamp read_header cutoff listed in
      let (headers, r, h1) =
        bind-eq-return (read_headers src parse_inta_timestamp read_header candidates) _ h in
      let after = new_images src parse_inta_timestamp read_header config headers in
      record {
        candidates = candidates;
        headers = headers;
        after = after;
        chosen = candidates-Picks cutoff listed;
        read = read_headers-Picks candidates headers r;
        made = new_images-Picks config headers;
        newest = λ station.
            subst
              (λ out.
                keep (is_of station) out
                ≡ take src.target_images (sort_by later_id (keep (is_of station) after)))
              (return-eq-return h1) (keep-newest_of_groups station src.target_images after);
      }
