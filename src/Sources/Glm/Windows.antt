-- ===== src/Sources/Glm/Windows.antt =====
-- What a GLM discovery emits.
use tiles_processor.Base.{
  ℕ, suc, ◌+◌, ◌-◌, ◌*◌, ◌/◌, ◌%◌, ◌≤◌, ◌<◌, ◌≡◌, inl, inr, refl, ◌∙◌, sym, subst, true, false,
  List, [], ◌∷◌, Text, arith, ltb, ◌==◌, if◌then◌else◌, member, All-member, length, take, All,
  All-implies, All-take, Apart, Apart-sort_by, All-sort_by, length-sort_by, length-take, sort_by,
  text_leb, Bool-cases, return, raise, Exception, bind-eq-return, Result-cases, return-eq-return,
}
use tiles_processor.Sources.Glm.Minutes.{
  minute_of, Inside, walk-All, append_all-All, values-All, values-Apart, length-values, IsByMinute,
  newest-IsByMinute,
}
use tiles_processor.Producer.Discovery.{ImageInfo, DiscoveryConfig}
use tiles_processor.Sources.Glm.{
  minute, hour, GlmSource, anchors_covering, append_all, values, is_value_error, start_of,
  one_file_per_minute, later_first, Calendar, anchors_of, window_image_id, group_into_windows,
  keep_complete, select_complete_ready_windows, to_image, new_images, discover_images,
}

module _ (src : GlmSource) (calendar : ℕ → Calendar) (padded : (width n : ℕ) → Text)
    (manifest : (window_start : ℕ) → (files : List Text) → Text) (listed : List Text)
    (config : DiscoveryConfig) where
  abbrev cutoff : ℕ
  cutoff = config.current_time - src.max_age

  abbrev In : ℕ → Text → Type 0
  In a = Inside listed cutoff (src.accum_minutes * minute) a

  grouped :
      (uri : Text) (uris : List Text) (windows : List (ℕ × List Text)) (t : ℕ)
      → start_of uri ≡ return t
      → group_into_windows src calendar padded manifest cutoff (uri ∷ uris) windows
        ≡ group_into_windows src calendar padded manifest cutoff uris (
            if ltb t cutoff
            then windows
            else append_all (anchors_of src calendar padded manifest t) uri windows)
  unfolding group_into_windows
  grouped uri uris windows t h = ground (arith, h)

  skipped :
      (uri : Text) (uris : List Text) (windows : List (ℕ × List Text)) (x : Exception)
      → start_of uri ≡ raise x
      → group_into_windows src calendar padded manifest cutoff (uri ∷ uris) windows ≡ (
          if is_value_error x.kind
          then group_into_windows src calendar padded manifest cutoff uris windows
          else raise x)
  unfolding group_into_windows
  skipped uri uris windows x h = ground (arith, h)

  anchors-In :
      (uri : Text) (t : ℕ)
      → start_of uri ≡ return t
      → member uri listed ≡ true
      → cutoff ≤ t
      → All (λ a. In a uri) (anchors_of src calendar padded manifest t)
  unfolding anchors_covering
  anchors-In uri t h m c =
      All-implies (λ a. (a ≤ t) × (t < a + src.accum_minutes * minute)) (λ a. In a uri)
        (anchors_of src calendar padded manifest t) (λ a k. (t, h, c, k.0, k.1, m))
        (walk-All (src.produce_every_minutes * minute) (src.accum_minutes * minute) t
          (suc (src.accum_minutes * minute))
          (t
            - t % hour
            + src.produce_every_minutes
              * minute
              * (t % hour / (src.produce_every_minutes * minute))))

  group-All :
      (uris : List Text) (windows : List (ℕ × List Text)) {out : List (ℕ × List Text)}
      → All (λ uri. member uri listed ≡ true) uris
      → All (λ w. All (In w.0) w.1) windows
      → group_into_windows src calendar padded manifest cutoff uris windows ≡ return out
      → All (λ w. All (In w.0) w.1) out
  unfolding group_into_windows
  group-All [] windows m h e = subst (All (λ w. All (In w.0) w.1)) (return-eq-return e) h
  group-All (uri ∷ uris) windows m h e = elim (Result-cases (start_of uri)) [
    | inl (t, start) ↦
        let next = sym (grouped uri uris windows t start) ∙ e in
        elim (Bool-cases (ltb t cutoff)) [
          | inl old ↦ group-All uris windows m.1 h (rw old at next)
          | inr fresh ↦
              let added =
                append_all-All In (anchors_of src calendar padded manifest t) uri windows
                  (anchors-In uri t start m.0 (ground arith)) h in
              group-All uris (append_all (anchors_of src calendar padded manifest t) uri windows)
                m.1 added (rw fresh at next)
        ]
    | inr (x, bad) ↦
        let next = sym (skipped uri uris windows x bad) ∙ e in
        elim (Bool-cases (is_value_error x.kind)) [
          | inl foreign ↦ group-All uris windows m.1 h (rw foreign at next)
          | inr worse ↦ absurd (ground arith)
        ]
  ]

  -- A complete window that ended long enough ago.
  record IsReady (w : ℕ × List Text) : Type 0 where
    ended : w.0 + src.accum_minutes * minute + src.safety_lag ≤ config.current_time
    inside : All (In w.0) w.1
    full : length w.1 ≡ src.accum_minutes
    apart : Apart minute_of w.1

  -- An image of a window that is over for the safety lag, holds one file of the listing for each of
  -- its minutes, and was neither made nor queued before.
  pub record IsFresh (i : ImageInfo) : Type 0 where
    pub window_start : ℕ
    pub files : List Text
    pub image : i ≡ to_image src calendar padded manifest window_start files
    pub ended : window_start + src.accum_minutes * minute + src.safety_lag ≤ config.current_time
    pub inside :
        All
          (Inside listed
            (config.current_time - src.max_age)
            (src.accum_minutes * minute)
            window_start)
          files
    pub full : length files ≡ src.accum_minutes
    pub apart : Apart minute_of files
    pub not_made : member i.image_id config.existing_tilesets ≡ false
    pub not_queued : member i.image_id config.in_progress_images ≡ false

  keep_complete-All :
      (a : ℕ) (files : List Text) (by_minute : List (ℕ × Text)) (ready : List (ℕ × List Text))
      → a + src.accum_minutes * minute + src.safety_lag ≤ config.current_time
      → IsByMinute (In a) by_minute
      → All IsReady ready
      → All IsReady (keep_complete src calendar padded manifest a by_minute ready)
  keep_complete-All a files by_minute ready old h k =
      elim (Bool-cases (length by_minute == src.accum_minutes)) [
        | inr gap ↦ rw gap k
        | inl full ↦ rw full (
          record {
            ended = old;
            inside =
                All-sort_by text_leb (In a) (values by_minute) (values-All (In a) by_minute h.all);
            full =
                length-sort_by text_leb (values by_minute)
                ∙ (length-values by_minute ∙ ground arith);
            apart =
                Apart-sort_by text_leb minute_of (values by_minute)
                  (values-Apart by_minute h.keyed h.apart);
          },
          k,
        )
      ]

  select-All :
      (windows : List (ℕ × List Text)) {out : List (ℕ × List Text)}
      → 0 < src.accum_minutes
      → All (λ w. All (In w.0) w.1) windows
      → select_complete_ready_windows src calendar padded manifest config.current_time windows
        ≡ return out
      → All IsReady out
  unfolding select_complete_ready_windows one_file_per_minute
  select-All [] pos h e = subst (All IsReady) (return-eq-return e) tt
  select-All ((a, files) ∷ windows) pos h e =
      elim (Bool-cases
        (ltb (config.current_time - src.safety_lag) (a + src.accum_minutes * minute))) [
          | inl soon ↦ select-All windows pos h.1 (rw soon at e)
          | inr over ↦
              let kept = rw over at e in
              let (by_minute, f, more) = bind-eq-return (one_file_per_minute files) _ kept in
              let (ready, r, done) =
                bind-eq-return
                  (select_complete_ready_windows src calendar padded manifest config.current_time
                    windows)
                  _ more in
              let full =
                newest-IsByMinute (In a) (sort_by text_leb files) []
                  (All-sort_by text_leb (In a) files h.0)
                  (record { all = tt; keyed = tt; apart = tt }) f in
              subst (All IsReady) (return-eq-return done) (
                keep_complete-All a files by_minute ready (ground arith) full
                  (select-All windows pos h.1 r))
        ]

  new_images-All :
      (windows : List (ℕ × List Text))
      → All IsReady windows
      → All IsFresh (new_images src calendar padded manifest config windows)
  unfolding new_images to_image window_image_id
  new_images-All [] h = tt
  new_images-All ((a, files) ∷ windows) h =
      let image_id = (to_image src calendar padded manifest a files).image_id in
      let rest = new_images-All windows h.1 in
      elim (Bool-cases (member image_id config.existing_tilesets)) [
        | inl made ↦ rw made rest
        | inr not_made ↦ elim (Bool-cases (member image_id config.in_progress_images)) [
          | inl queued ↦ rw (not_made, queued) rest
          | inr not_queued ↦
              rw (not_made, not_queued)
                (
                  record {
                    window_start = a;
                    files = files;
                    image = refl;
                    ended = h.0.ended;
                    inside = h.0.inside;
                    full = h.0.full;
                    apart = h.0.apart;
                    not_made = not_made;
                    not_queued = not_queued;
                  },
                  rest,
                )
        ]
      ]

  new_images-length :
      (windows : List (ℕ × List Text))
      → length (new_images src calendar padded manifest config windows) ≤ length windows
  unfolding new_images
  new_images-length [] = omega arith
  new_images-length ((a, files) ∷ windows) = ground (arith, new_images-length windows)

  -- A GLM discovery that returns emits at most `target_windows` images. Each is of a window that has
  -- been over for the safety lag, whose files are files of the listing that start inside it and not
  -- before the age limit, as many as it has minutes and no two of one minute; and its image was
  -- neither made nor queued before.
  pub discover_images-IsFresh :
      {images : List ImageInfo}
      → 0 < src.accum_minutes
      → discover_images src calendar padded manifest (return listed) config ≡ return images
      → (length images ≤ src.target_windows) × All IsFresh images
  unfolding discover_images
  discover_images-IsFresh pos h =
      let (windows, g, next) =
        bind-eq-return (group_into_windows src calendar padded manifest cutoff listed []) _ h in
      let (ready, r, done) =
        bind-eq-return
          (select_complete_ready_windows src calendar padded manifest config.current_time windows) _
          next in
      let newest_ready = take src.target_windows (sort_by later_first ready) in
      let inside = group-All listed [] (All-member listed) tt g in
      let all =
        All-take IsReady src.target_windows (sort_by later_first ready)
          (All-sort_by later_first IsReady ready (select-All windows pos inside r)) in
      subst (λ out. (length out ≤ src.target_windows) × All IsFresh out) (return-eq-return done)
        (
          omega (
            arith,
            new_images-length newest_ready,
            length-take src.target_windows (sort_by later_first ready),
          ),
          new_images-All newest_ready all,
        )
