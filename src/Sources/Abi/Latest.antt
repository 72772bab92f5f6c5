-- ===== src/Sources/Abi/Latest.antt =====
-- Which ABI images are emitted.
use mathlib.Core.List.{reverse}
use tiles_processor.Base.{
  ℕ, zero, suc, ◌+◌, ◌-◌, ◌*◌, ◌≤◌, ◌<◌, ◌≡◌, ◌↔◌, inl, inr, refl, ap, ◌∙◌, subst, true, false,
  ◌&&◌, List, [], ◌∷◌, ◌++◌, some, Text, arith, member, ltb, length, take, keep, sort_by, text_leb,
  is_after, member-latest, member-sort_by, member-append, Bool-cases, Option-cases, Result,
  Result-cases, return, raise, Exception,
}
use tiles_processor.Base.Picks.{Picks, nothing, after_round}
use tiles_processor.Producer.Discovery.{ImageInfo, DiscoveryConfig}
use tiles_processor.Producer.Tilesets.{until_sep}
use tiles_processor.Sources.Gfs.{hour}
use tiles_processor.Sources.Abi.{
  AbiSource, search_timestamp, build_directory_path, or_nothing, collect_hours,
  collect_candidates_from_hourly_paths, new_image, new_images, discover_images,
}

member-take : (n : ℕ) (a : Text) (xs : List Text) → member a (take n xs) ≡ true → member a xs ≡ true
unfolding member
member-take zero a xs h = absurd (ground arith)
member-take (suc n) a [] h = absurd (ground arith)
member-take (suc n) a (x ∷ xs) h = ground (arith, member-take n a xs)

-- Of the `n` latest of a list, for any text.
member_latest_of :
    (n : ℕ) (xs : List Text) (a : Text)
    → member a (take n (sort_by (λ s t. text_leb t s) xs))
      ≡ (member a xs && ltb (length (keep (is_after a) xs)) n)
member_latest_of n xs a =
    let sorted = sort_by (λ s t. text_leb t s) xs in
    elim (Bool-cases (member a xs)) [
      | inl there ↦ rw there (member-latest n xs a there)
      | inr absent ↦ elim (Bool-cases (member a (take n sorted))) [
        | inr out ↦ rw (absent, out) refl
        | inl found ↦ absurd (ground (arith, member-take n a sorted found, member-sort_by a xs))
      ]
    ]

module _ (src : AbiSource) (strftime : (time : ℕ) → Text)
    (list_files : (directory_path : Text) (file_pattern : Text) → Result (List Text)) where
  -- The listing of the hour so many hours back.
  abbrev pub listing : (current_time h : ℕ) → Result (List Text)
  listing current_time h =
      list_files (build_directory_path src strftime (current_time - h * hour))
        src.band_config.file_pattern

  -- A file that one of the hours from `from` on listed.
  pub record IsListed (current_time from rounds : ℕ) (uri : Text) : Type 0 where
    pub hours_back : ℕ
    pub not_before : from ≤ hours_back
    pub within : hours_back < from + rounds
    pub files : List Text
    pub answered : listing current_time hours_back ≡ return files
    pub there : member uri files ≡ true

  listed :
      (current_time rounds from : ℕ) (uri : Text)
      → member uri (collect_hours src strftime list_files current_time rounds from) ≡ true
      → IsListed current_time from rounds uri
  unfolding collect_hours member
  listed current_time zero from uri h = absurd (ground arith)
  listed current_time (suc rounds) from uri h =
      let here = or_nothing (listing current_time from) in
      let rest = collect_hours src strftime list_files current_time rounds (from + 1) in
      elim (Bool-cases (member uri rest)) [
        | inl later ↦
            let l = listed current_time rounds (from + 1) uri later in
            record {
              hours_back = l.hours_back;
              not_before = omega (arith, l.not_before);
              within = omega (arith, l.within);
              files = l.files;
              answered = l.answered;
              there = l.there;
            }
        | inr not_later ↦ elim (Result-cases (listing current_time from)) [
          | inl (files, e) ↦ record {
            hours_back = from;
            not_before = omega arith;
            within = omega arith;
            files = files;
            answered = e;
            there = ground (arith, e, member-append uri files rest, not_later);
          }
          | inr (x, e) ↦ absurd (ground (arith, e, not_later))
        ]
      ]

  collected :
      (current_time rounds from : ℕ) (uri : Text)
      → IsListed current_time from rounds uri
      → member uri (collect_hours src strftime list_files current_time rounds from) ≡ true
  unfolding collect_hours
  collected current_time zero from uri l = absurd (omega (arith, l.not_before, l.within))
  collected current_time (suc rounds) from uri l =
      let here = or_nothing (listing current_time from) in
      let rest = collect_hours src strftime list_files current_time rounds (from + 1) in
      elim (Bool-cases (ltb from l.hours_back)) [
        | inl later ↦
            let found = collected current_time rounds (from + 1) uri (record {
              hours_back = l.hours_back;
              not_before = ground (arith, later);
              within = omega (arith, l.within);
              files = l.files;
              answered = l.answered;
              there = l.there;
            }) in
            ground (arith, member-append uri here rest, found)
        | inr now ↦
            let same : l.hours_back ≡ from = ground (arith, now, l.not_before) in
            let e : listing current_time from ≡ return l.files =
              subst (λ h. listing current_time h ≡ return l.files) same l.answered in
            ground (arith, e, member-append uri l.files rest, l.there)
      ]

  -- The files of so many hours from `from` on, in their order; an hour whose listing raised has none.
  pub data Gathered (current_time : ℕ) : (rounds from : ℕ) → List Text → Type 0 where
    over : {from : ℕ} → Gathered current_time 0 from []
    answers :
        {rounds from : ℕ} {files rest : List Text}
        → listing current_time from ≡ return files
        → Gathered current_time rounds (from + 1) rest
        → Gathered current_time (suc rounds) from (files ++ rest)
    fails :
        {rounds from : ℕ} {e : Exception} {rest : List Text}
        → listing current_time from ≡ raise e
        → Gathered current_time rounds (from + 1) rest
        → Gathered current_time (suc rounds) from rest

  gathered :
      (current_time rounds from : ℕ)
      → Gathered current_time rounds from
          (collect_hours src strftime list_files current_time rounds from)
  unfolding collect_hours
  gathered current_time zero from = over
  gathered current_time (suc rounds) from =
      let rest = gathered current_time rounds (from + 1) in
      elim (Result-cases (listing current_time from)) [
        | inl (files, e) ↦ rw e (answers e rest)
        | inr (x, e) ↦ rw e (fails e rest)
      ]

  module _ (config : DiscoveryConfig) where
    -- A file whose image is new.
    pub record IsNew (uri : Text) (i : ImageInfo) : Type 0 where
      pub stamped : search_timestamp (until_sep b'/' [] (reverse uri)) ≡ some i.image_id
      pub from_file : i.source_uri ≡ uri
      pub source : i.data_source_id ≡ src.band_config.band_id
      pub processor : i.processor_id ≡ src.band_config.band_id
      pub prefix : i.output_prefix ≡ src.band_config.s3_tiles_prefix
      pub not_made : member i.image_id config.existing_tilesets ≡ false
      pub not_queued : member i.image_id config.in_progress_images ≡ false

    new_image-IsNew :
        (uri : Text) (i : ImageInfo)
        → new_image src strftime list_files config uri ≡ some i
        → IsNew uri i
    unfolding new_image
    new_image-IsNew uri i h =
        elim (Option-cases (search_timestamp (until_sep b'/' [] (reverse uri)))) [
          | inl bad ↦ absurd (ground (arith, bad, h))
          | inr (stamp, e) ↦ elim (Bool-cases (member stamp config.existing_tilesets)) [
            | inl made ↦ absurd (ground (arith, e, made, h))
            | inr lacking ↦ elim (Bool-cases (member stamp config.in_progress_images)) [
              | inl queued ↦ absurd (ground (arith, e, lacking, queued, h))
              | inr idle ↦
                  let id : stamp ≡ i.image_id = ground (arith, e, lacking, idle, h) in
                  record {
                    stamped = e ∙ ap some id;
                    from_file = ground (arith, e, lacking, idle, h);
                    source = ground (arith, e, lacking, idle, h);
                    processor = ground (arith, e, lacking, idle, h);
                    prefix = ground (arith, e, lacking, idle, h);
                    not_made = subst (λ x. member x config.existing_tilesets ≡ false) id lacking;
                    not_queued = subst (λ x. member x config.in_progress_images ≡ false) id idle;
                  }
            ]
          ]
        ]

    fresh :
        (uri : Text) (i : ImageInfo)
        → IsNew uri i
        → new_image src strftime list_files config uri ≡ some i
    unfolding new_image
    fresh uri i n =
        let j : ImageInfo = record {
          image_id = i.image_id;
          source_uri = uri;
          data_source_id = src.band_config.band_id;
          processor_id = src.band_config.band_id;
          output_prefix = src.band_config.s3_tiles_prefix;
        } in
        let made : new_image src strftime list_files config uri ≡ some j =
          ground (arith, n.stamped, n.not_made, n.not_queued) in
        let same : j ≡ i = cc (n.from_file, n.source, n.processor, n.prefix) in made ∙ ap some same

    new_images-Picks :
        (keys : List Text) → Picks IsNew keys (new_images src strftime list_files config keys)
    unfolding new_images
    new_images-Picks [] = nothing
    new_images-Picks (key ∷ keys) =
        after_round (new_image src strftime list_files config key)
          (λ i. (new_image-IsNew key i, fresh key i)) (new_images-Picks keys)

    -- What is emitted, with the files that were listed and the latest of them.
    pub record IsLatest (images : List ImageInfo) : Type 0 where
      pub candidates : List Text
      pub latest : List Text
      pub gathers : Gathered config.current_time (suc src.max_hours_back) 0 candidates
      pub are_listed :
          (uri : Text)
          → (member uri candidates ≡ true)
            ↔ IsListed config.current_time 0 (suc src.max_hours_back) uri
      pub are_latest :
          (uri : Text)
          → member uri latest ≡ (
              member uri candidates
              && ltb (length (keep (is_after uri) candidates)) src.target_images)
      pub picks : Picks IsNew latest images

    -- A discovery emits an image of a file exactly if one of the hours from now to `max_hours_back` ago
    -- listed it, fewer than `target_images` of all listed files come after it, its name has a time
    -- stamp, and the image with that stamp as its id was neither made nor queued. An hour whose
    -- listing raised takes no other hour's files away.
    pub discover_images-IsLatest : IsLatest (discover_images src strftime list_files config)
    unfolding discover_images collect_candidates_from_hourly_paths
    discover_images-IsLatest =
        let candidates =
          collect_hours src strftime list_files config.current_time (suc src.max_hours_back) 0 in
        let latest = take src.target_images (sort_by (λ s t. text_leb t s) candidates) in
        record {
          candidates = candidates;
          latest = latest;
          gathers = gathered config.current_time (suc src.max_hours_back) 0;
          are_listed = λ uri. (
            listed config.current_time (suc src.max_hours_back) 0 uri,
            collected config.current_time (suc src.max_hours_back) 0 uri,
          );
          are_latest = member_latest_of src.target_images candidates;
          picks = new_images-Picks latest;
        }
