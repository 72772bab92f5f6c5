-- ===== src/Sources/Radar/Newest.antt =====
-- Which radar images are emitted.
use mathlib.Core.List.{reverse}
use tiles_processor.Base.{
  ℕ, ◌-◌, ◌≤◌, ◌≡◌, ◌↔◌, inl, inr, ap, sym, ◌∙◌, subst, true, false, List, [], ◌∷◌, Option, none,
  some, Text, text_eq_iff, arith, if◌then◌else◌, member, take, keep, sort_by, Bool-cases,
  Option-cases, return, return-eq-return,
}
use tiles_processor.Base.Picks.{Picks, nothing, after_round}
use tiles_processor.Producer.Discovery.{ImageInfo, DiscoveryConfig}
use tiles_processor.Producer.Tilesets.{until_sep}
use tiles_processor.Sources.Radar.{
  RadarName, RadarSource, parse_radar_filename, later_id, is_enabled, image_of, is_new, new_image,
  new_images, discover_images,
}
use tiles_processor.Sources.Radar.Groups.{is_of, keep-newest_of_groups}

module _ (src : RadarSource) (parse_scan_time : Text → Option ℕ) (config : DiscoveryConfig) where
  -- A file that the source is after: of its product, of an enabled station, recent enough, and with an
  -- image that was neither made nor queued.
  pub record IsWanted (uri : Text) (i : ImageInfo) : Type 0 where
    pub name : RadarName
    pub parsed : parse_radar_filename (until_sep b'/' [] (reverse uri)) ≡ some name
    pub image : image_of src parse_scan_time uri name ≡ i
    pub variable : name.variable ≡ src.variable
    pub subvolume : name.subvolume ≡ src.subvolume
    pub enabled : is_enabled src parse_scan_time src.station_filter name.radar_id ≡ true
    pub scan_time : ℕ
    pub scanned : parse_scan_time name.timestamp ≡ some scan_time
    pub recent : config.current_time - src.max_age ≤ scan_time
    pub not_made : member i.image_id config.existing_tilesets ≡ false
    pub not_queued : member i.image_id config.in_progress_images ≡ false

  new_image-name :
      (uri : Text) (name : RadarName)
      → parse_radar_filename (until_sep b'/' [] (reverse uri)) ≡ some name
      → let i = image_of src parse_scan_time uri name in
        new_image src parse_scan_time config uri
        ≡ (if is_new src parse_scan_time config name i.image_id then some i else none)
  unfolding new_image
  new_image-name uri name h = ground (arith, h)

  -- What the tests of the loop body say, with the time that they read.
  abbrev Passing : RadarName → (image_id : Text) → ℕ → Type 0
  Passing name image_id t =
      (name.variable ≡ src.variable)
      × (name.subvolume ≡ src.subvolume)
      × (is_enabled src parse_scan_time src.station_filter name.radar_id ≡ true)
      × (config.current_time - src.max_age ≤ t)
      × (member image_id config.existing_tilesets ≡ false)
      × (member image_id config.in_progress_images ≡ false)

  passing :
      (name : RadarName) (image_id : Text) (t : ℕ)
      → parse_scan_time name.timestamp ≡ some t
      → (is_new src parse_scan_time config name image_id ≡ true) ↔ Passing name image_id t
  unfolding is_new
  passing name image_id t h = (
    λ p.
        ground
          (arith, text_eq_iff name.variable src.variable, text_eq_iff name.subvolume src.subvolume),
    λ p.
        ground
          (arith, text_eq_iff name.variable src.variable, text_eq_iff name.subvolume src.subvolume),
  )

  untimed :
      (name : RadarName) (image_id : Text)
      → parse_scan_time name.timestamp ≡ none
      → is_new src parse_scan_time config name image_id ≡ false
  unfolding is_new
  untimed name image_id h = ground (arith, h)

  wanted :
      (uri : Text) (i : ImageInfo)
      → new_image src parse_scan_time config uri ≡ some i
      → IsWanted uri i
  wanted uri i h = elim (Option-cases (parse_radar_filename (until_sep b'/' [] (reverse uri)))) [
    | inl bad ↦ absurd (unfold new_image in ground (arith, bad))
    | inr (name, parsed) ↦
        let j = image_of src parse_scan_time uri name in
        let e = new_image-name uri name parsed in
        elim (Option-cases (parse_scan_time name.timestamp)) [
          | inl never ↦ absurd (ground (arith, e, untimed name j.image_id never))
          | inr (t, scanned) ↦
              elim (Bool-cases (is_new src parse_scan_time config name j.image_id)) [
                | inr old ↦ absurd (ground (arith, e, old))
                | inl fresh ↦
                    let same : j ≡ i = ground (arith, e, fresh) in
                    let p = (passing name j.image_id t scanned).0 fresh in
                    record {
                      name = name;
                      parsed = parsed;
                      image = same;
                      variable = p.0;
                      subvolume = p.1;
                      enabled = p.2;
                      scan_time = t;
                      scanned = scanned;
                      recent = p.3;
                      not_made =
                          subst (λ x. member x.image_id config.existing_tilesets ≡ false) same p.4;
                      not_queued =
                          subst (λ x. member x.image_id config.in_progress_images ≡ false) same p.5;
                    }
              ]
        ]
  ]

  found :
      (uri : Text) (i : ImageInfo)
      → IsWanted uri i
      → new_image src parse_scan_time config uri ≡ some i
  found uri i w =
      let j = image_of src parse_scan_time uri w.name in
      let back = sym w.image in
      let fresh = (passing w.name j.image_id w.scan_time w.scanned).1 (
        w.variable,
        w.subvolume,
        w.enabled,
        w.recent,
        subst (λ x. member x.image_id config.existing_tilesets ≡ false) back w.not_made,
        subst (λ x. member x.image_id config.in_progress_images ≡ false) back w.not_queued,
      ) in
      new_image-name uri w.name w.parsed ∙ rw fresh (ap some w.image)

  new_images-Picks :
      (uris : List Text) → Picks IsWanted uris (new_images src parse_scan_time config uris)
  unfolding new_images
  new_images-Picks [] = nothing
  new_images-Picks (uri ∷ uris) =
      after_round (new_image src parse_scan_time config uri) (λ i. (wanted uri i, found uri i))
        (new_images-Picks uris)

  -- What is emitted, with the images of the files that the source is after, in the listing's order.
  pub record IsNewest (listed : List Text) (images : List ImageInfo) : Type 0 where
    pub after : List ImageInfo
    pub picks : Picks IsWanted listed after
    pub newest :
        (radar_id : Text)
        → keep (is_of radar_id) images
          ≡ take src.target_images (sort_by later_id (keep (is_of radar_id) after))

  -- A radar discovery emits, of each station, the newest images of the files it is after, at most
  -- `target_images` of them. It is after exactly those files of the listing that are of the product's
  -- variable and subvolume, of an enabled station, scanned within the age limit, and whose image was
  -- neither made nor queued.
  pub discover_images-IsNewest :
      (listed : List Text) (images : List ImageInfo)
      → discover_images src parse_scan_time (return listed) config ≡ return images
      → IsNewest listed images
  unfolding discover_images
  discover_images-IsNewest listed images h =
      let found_images = new_images src parse_scan_time config listed in
      record {
        after = found_images;
        picks = new_images-Picks listed;
        newest = λ r.
            subst
              (λ out.
                keep (is_of r) out
                ≡ take src.target_images (sort_by later_id (keep (is_of r) found_images)))
              (return-eq-return h) (keep-newest_of_groups r src.target_images found_images);
      }
