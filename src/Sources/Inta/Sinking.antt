-- ===== src/Sources/Inta/Sinking.antt =====
-- When an INTA discovery raises.
use tiles_processor.Base.{
  ℕ, ◌-◌, ◌≡◌, ◌⊎◌, inl, inr, refl, subst, true, false, List, [], ◌∷◌, Option, none, some, Text,
  text_eq, text_eq_iff, arith, member, All, Exception, Result, return, raise, bind, Bool-cases,
  Result-cases, ℤ, pos,
}
use tiles_processor.Producer.Discovery.{ImageInfo, DiscoveryConfig}
use tiles_processor.Sources.Inta.Header.{
  RainbowHeader, Window, text_of, float_of, number_or_zero, parse_rainbow_header, not_a_number,
}
use tiles_processor.Sources.Inta.{
  IntaSource, is_unreadable, candidates_of, read_one, read_headers, new_images, cap_per_station,
  discover_images,
}

-- A header that is there and is UTF-8, but whose stop range is no number.
pub record HasNoRange (w : Window) : Type 0 where
  pub found : w.has_radarinfo ≡ true
  pub is_utf8 : w.is_utf8 ≡ true
  pub radar_name : Text
  pub name : text_of w.id w.name ≡ return radar_name
  pub id : text_eq w.id [] ≡ false
  pub latitude : ℤ
  pub lat : float_of none w.lat ≡ return latitude
  pub longitude : ℤ
  pub lon : float_of none w.lon ≡ return longitude
  pub altitude : ℤ
  pub alt : float_of (some (pos 0)) w.alt ≡ return altitude
  pub raw : Text
  pub stoprange : w.stoprange ≡ some (some (record { raw = raw; value = none }))
  pub not_empty : text_eq raw [] ≡ false

module _ (src : IntaSource) (parse_inta_timestamp : Text → Option ℕ)
    (read_header : (source_uri : Text) → Result Window) where
  misread :
      (uri : Text) (w : Window)
      → read_header uri ≡ return w
      → HasNoRange w
      → read_one src parse_inta_timestamp read_header uri ≡ raise not_a_number
  unfolding read_one parse_rainbow_header number_or_zero
  misread uri w h r = rw h (
      ground
        (arith, r.found, r.is_utf8, r.name, r.id, r.lat, r.lon, r.alt, r.stoprange, r.not_empty))

  raises :
      (uris : List Text) (uri : Text)
      → member uri uris ≡ true
      → (e : Exception) → read_one src parse_inta_timestamp read_header uri ≡ raise e
      → (x : Exception) × (read_headers src parse_inta_timestamp read_header uris ≡ raise x)
  unfolding read_headers member
  raises [] uri m e h = absurd (ground arith)
  raises (u ∷ uris) uri m e h =
      elim (Result-cases (read_one src parse_inta_timestamp read_header u)) [
        | inr (x, r) ↦ (x, ground (arith, r))
        | inl (header, r) ↦ elim (Bool-cases (text_eq u uri)) [
          | inl same ↦
              let k = (text_eq_iff u uri).0 same in
              absurd (
                ground (
                  arith,
                  subst (λ v. read_one src parse_inta_timestamp read_header v ≡ return header) k r,
                  h,
                ))
          | inr apart ↦ let (x, k) = raises uris uri (ground arith) e h in (x, ground (arith, r, k))
        ]
      ]

  abbrev IsRead : Text → Type 0
  IsRead uri =
      (header : Option RainbowHeader) × (read_one src parse_inta_timestamp read_header uri
        ≡ return header)

  read_headers-read :
      (uris : List Text)
      → All IsRead uris
      → (headers : List (Text × Option RainbowHeader)) × (read_headers src parse_inta_timestamp
            read_header uris
          ≡ return headers)
  unfolding read_headers
  read_headers-read [] h = ([], refl)
  read_headers-read (u ∷ uris) h =
      let (header, r) = h.0 in
      let (headers, k) = read_headers-read uris h.1 in ((u, header) ∷ headers, ground (arith, r, k))

  -- Where the file was read or its header counts as unreadable.
  abbrev pub IsHandled : Text → Type 0
  IsHandled uri =
      ((header : RainbowHeader) × (bind (read_header uri) parse_rainbow_header ≡ return header))
      ⊎ ((e : Exception) × (bind (read_header uri) parse_rainbow_header ≡ raise e)
          × (is_unreadable e.kind ≡ true))

  handled : (uri : Text) → IsHandled uri → IsRead uri
  unfolding read_one
  handled uri (inl (header, h)) = (some header, rw h refl)
  handled uri (inr (e, h, k)) = (none, rw (h, k) refl)

  All-handled : (uris : List Text) → All IsHandled uris → All IsRead uris
  All-handled [] h = tt
  All-handled (u ∷ uris) h = (handled u h.0, All-handled uris h.1)

  -- If the header of each candidate can be read, or is one that counts as unreadable, the discovery
  -- returns. One candidate whose header is there and has its other fields, but gives a stop range that
  -- is no number, makes the whole discovery raise.
  pub discover_images-sinks :
      (listed : List Text) (config : DiscoveryConfig)
      → let candidates =
          candidates_of src parse_inta_timestamp read_header
            (config.current_time - src.max_age)
            listed in
        (All IsHandled candidates
          → (images : List ImageInfo) × (discover_images src parse_inta_timestamp read_header
                (return listed)
                config
              ≡ return images))
        × ((uri : Text) (w : Window)
            → member uri candidates ≡ true
            → read_header uri ≡ return w
            → HasNoRange w
            → (e : Exception) × (discover_images src parse_inta_timestamp read_header
                  (return listed)
                  config
                ≡ raise e))
  unfolding discover_images
  discover_images-sinks listed config =
      let candidates =
        candidates_of src parse_inta_timestamp read_header (config.current_time - src.max_age)
          listed in
      (
        λ h.
            let (headers, k) = read_headers-read candidates (All-handled candidates h) in
            (
              cap_per_station src parse_inta_timestamp read_header
                  (new_images src parse_inta_timestamp read_header config headers),
              rw k refl,
            ),
        λ uri w m r n.
            let (x, k) = raises candidates uri m not_a_number (misread uri w r n) in (x, rw k refl),
      )
