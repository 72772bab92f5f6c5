-- ===== src/Sources/Wrf/Runs.antt =====
-- Which runs are emitted.
use mathlib.Core.List.{reverse}
use tiles_processor.Base.{
  ℕ, ◌+◌, ◌<◌, ◌||◌, subst, codes, text_eq, text_eq_iff, Bool-cases, ◌-◌, ◌≤◌, ◌≡◌, inl, inr, refl,
  ap, sym, ◌∙◌, Bool, true, false, not, ◌&&◌, List, [], ◌∷◌, ◌++◌, map, Option, some, Text, arith,
  ltb, ◌==◌, if◌then◌else◌, member, length, take, keep, All, Option-cases, return, return-eq-return,
  is_after, member-latest, sort_by, text_leb,
}
use tiles_processor.Base.Picks.{Picks, nothing, taken, passed, after_round}
use tiles_processor.Producer.Discovery.{ImageInfo, DiscoveryConfig}
use tiles_processor.Producer.Tilesets.{until_sep}
use tiles_processor.Sources.Lister.Partitions.{member-add_prefix, member-add_self}
use tiles_processor.Sources.Wrf.{
  WrfName, WrfSource, Step, parse_wrf_filename, set_of, runs_newest_first, step_of, recent_steps,
  to_image_info, discover_images,
}

-- The runs of the steps, each once.
abbrev pub runs_of : List Step → List Text
runs_of steps = set_of [] (map (λ s. s.init_tag) steps)

abbrev grown : Text → List Text → List Text
grown t seen = if member t seen then seen else seen ++ t ∷ []

member-set_of :
    (p : Text) (seen ts : List Text) → member p seen ≡ true → member p (set_of seen ts) ≡ true
unfolding set_of
member-set_of p seen [] h = h
member-set_of p seen (t ∷ ts) h = member-set_of p (grown t seen) ts (member-add_prefix p t seen h)

tags-members :
    (seen : List Text) (steps : List Step)
    → All (λ s. member s.init_tag (set_of seen (map (λ r. r.init_tag) steps)) ≡ true) steps
unfolding set_of
tags-members seen [] = tt
tags-members seen (s ∷ steps) =
    let more = grown s.init_tag seen in
    (
      member-set_of s.init_tag more (map (λ r. r.init_tag) steps) (member-add_self s.init_tag seen),
      tags-members more steps,
    )

keep_same : (p q : Step → Bool) (xs : List Step) → All (λ x. p x ≡ q x) xs → keep p xs ≡ keep q xs
keep_same p q [] h = refl
keep_same p q (x ∷ xs) h = ground (arith, h.0, keep_same p q xs h.1)

All-latest :
    (n : ℕ) (p : Step → Bool) (runs : List Text) (steps : List Step)
    → All (λ s. member s.init_tag runs ≡ true) steps
    → All
        (λ s.
          (member s.init_tag (take n (sort_by (λ a b. text_leb b a) runs)) && p s)
          ≡ (ltb (length (keep (is_after s.init_tag) runs)) n && p s))
        steps
All-latest n p runs [] h = tt
All-latest n p runs (s ∷ steps) h =
    (ap (λ b. b && p s) (member-latest n runs s.init_tag h.0), All-latest n p runs steps h.1)

-- How often a run is in a list.
abbrev pub occurrences : Text → List Text → ℕ
occurrences t ts = length (keep (λ s. text_eq s t) ts)

occurrences-add :
    (t a : Text) (seen : List Text)
    → occurrences t (seen ++ a ∷ []) ≡ occurrences t seen + (if text_eq a t then 1 else 0)
occurrences-add t a [] = ground arith
occurrences-add t a (s ∷ seen) = ground (arith, occurrences-add t a seen)

member-add :
    (t a : Text) (seen : List Text) → member t (seen ++ a ∷ []) ≡ (member t seen || text_eq a t)
unfolding member
member-add t a [] = ground arith
member-add t a (s ∷ seen) = ground (arith, member-add t a seen)

-- A set holds each of its elements once.
set_of-once :
    (t : Text) (seen ts : List Text)
    → occurrences t seen ≡ (if member t seen then 1 else 0)
    → occurrences t (set_of seen ts) ≡ (if member t seen || member t ts then 1 else 0)
unfolding set_of member
set_of-once t seen [] h = ground (arith, h)
set_of-once t seen (a ∷ ts) h = elim (Bool-cases (member a seen)) [
  | inl old ↦ elim (Bool-cases (text_eq a t)) [
    | inl same ↦
        let e = (text_eq_iff a t).0 same in
        let old' : member t seen ≡ true = subst (λ x. member x seen ≡ true) e old in
        ground (arith, old, old', set_of-once t seen ts h)
    | inr apart ↦ ground (arith, old, apart, set_of-once t seen ts h)
  ]
  | inr new ↦ elim (Bool-cases (text_eq a t)) [
    | inl same ↦
        let e = (text_eq_iff a t).0 same in
        let new' : member t seen ≡ false = subst (λ x. member x seen ≡ false) e new in
        let once : occurrences t (seen ++ a ∷ []) ≡ (if member t (seen ++ a ∷ []) then 1 else 0) =
          ground (arith, h, same, new', occurrences-add t a seen, member-add t a seen) in
        ground (arith, new, new', same, member-add t a seen, set_of-once t (seen ++ a ∷ []) ts once)
    | inr apart ↦
        let once : occurrences t (seen ++ a ∷ []) ≡ (if member t (seen ++ a ∷ []) then 1 else 0) =
          ground (arith, h, apart, occurrences-add t a seen, member-add t a seen) in
        ground (arith, new, apart, member-add t a seen, set_of-once t (seen ++ a ∷ []) ts once)
  ]
]

module _ (src : WrfSource) (parse_init_time : Text → Option ℕ) (config : DiscoveryConfig) where
  -- The step of a file whose run started within the age limit, and which is not skipped.
  pub record IsRecent (uri : Text) (step : Step) : Type 0 where
    pub name : WrfName
    pub parsed : parse_wrf_filename (until_sep b'/' [] (reverse uri)) ≡ some name
    pub init_time : ℕ
    pub started : parse_init_time name.init_tag ≡ some init_time
    pub kept : (name.fnum == 0 && src.skip_f000) ≡ false
    pub recent : config.current_time - src.max_age ≤ init_time
    pub tag : step.init_tag ≡ name.init_tag
    pub uri_of : step.source_uri ≡ uri
    pub id : step.image_id ≡ src.product_id ++ (b'_' ∷ name.init_tag) ++ (b'_' ∷ name.fxxx)

  step_of-IsRecent :
      (uri : Text) (step : Step)
      → step_of src parse_init_time (config.current_time - src.max_age) uri ≡ some step
      → IsRecent uri step
  unfolding step_of
  step_of-IsRecent uri step h =
      elim (Option-cases (parse_wrf_filename (until_sep b'/' [] (reverse uri)))) [
        | inl bad ↦ absurd (ground (arith, bad))
        | inr (name, parsed) ↦ elim (Option-cases (parse_init_time name.init_tag)) [
          | inl bad ↦ absurd (ground (arith, parsed, bad))
          | inr (t, started) ↦ record {
            name = name;
            parsed = parsed;
            init_time = t;
            started = started;
            kept = ground (arith, parsed, started);
            recent = ground (arith, parsed, started);
            tag = ground (arith, parsed, started);
            uri_of = ground (arith, parsed, started);
            id = ground (arith, parsed, started);
          }
        ]
      ]

  found :
      (uri : Text) (step : Step)
      → IsRecent uri step
      → step_of src parse_init_time (config.current_time - src.max_age) uri ≡ some step
  unfolding step_of
  found uri step r =
      let s : Step = record {
        init_tag = r.name.init_tag;
        source_uri = uri;
        image_id = src.product_id ++ (b'_' ∷ r.name.init_tag) ++ (b'_' ∷ r.name.fxxx);
      } in
      let made : step_of src parse_init_time (config.current_time - src.max_age) uri ≡ some s =
        ground (arith, r.parsed, r.started, r.kept, r.recent) in
      let same : s ≡ step = cc (r.tag, r.uri_of, r.id) in made ∙ ap some same

  recent_steps-Picks :
      (uris : List Text)
      → Picks IsRecent uris
          (recent_steps src parse_init_time uris (config.current_time - src.max_age))
  unfolding recent_steps
  recent_steps-Picks [] = nothing
  recent_steps-Picks (uri ∷ uris) =
      after_round (step_of src parse_init_time (config.current_time - src.max_age) uri)
        (λ step. (step_of-IsRecent uri step, found uri step)) (recent_steps-Picks uris)

  -- The image of a step that one of the latest runs still lacks.
  pub record IsLacking (runs : List Text) (step : Step) (i : ImageInfo) : Type 0 where
    pub late : length (keep (is_after step.init_tag) runs) < src.target_runs
    pub not_made : member step.image_id config.existing_tilesets ≡ false
    pub not_queued : member step.image_id config.in_progress_images ≡ false
    pub image : i ≡ record {
      image_id = step.image_id;
      source_uri = step.source_uri;
      data_source_id = codes "wrf_arg4k_" ++ src.product_id;
      processor_id = codes "wrf_arg4k";
      output_prefix = src.s3_tiles_prefix;
    }

  abbrev is_lacking : (runs : List Text) → Step → Bool
  is_lacking runs s =
      ltb (length (keep (is_after s.init_tag) runs)) src.target_runs
      && (not (member s.image_id config.existing_tilesets)
          && not (member s.image_id config.in_progress_images))

  IsLacking-Picks :
      (runs : List Text) (steps : List Step)
      → Picks
          (IsLacking runs)
          steps
          (map (to_image_info src parse_init_time) (keep (is_lacking runs) steps))
  unfolding to_image_info
  IsLacking-Picks runs [] = nothing
  IsLacking-Picks runs (s ∷ steps) = elim (Bool-cases (is_lacking runs s)) [
    | inl lacks ↦ rw lacks (
        taken
          (record {
            late = ground (arith, lacks);
            not_made = ground (arith, lacks);
            not_queued = ground (arith, lacks);
            image = refl;
          })
          (IsLacking-Picks runs steps))
    | inr has ↦ rw has (
        passed (λ i l. absurd (ground (arith, has, l.late, l.not_made, l.not_queued)))
          (IsLacking-Picks runs steps))
  ]

  -- What is emitted, with the steps of recent runs and these runs.
  pub record IsEmitted (listed : List Text) (images : List ImageInfo) : Type 0 where
    pub steps : List Step
    pub runs : List Text
    pub are_recent : Picks IsRecent listed steps
    pub once :
        (t : Text) → occurrences t runs ≡ (if member t (map (λ s. s.init_tag) steps) then 1 else 0)
    pub lack : Picks (IsLacking runs) steps images

  -- A WRF discovery emits an image for each step, in the order of the listing, of a run that fewer
  -- than `target_runs` listed runs come after, if it was neither made nor queued. Runs are counted
  -- once each, whatever the number of their steps, and whether they were processed or not, so a
  -- processed run lets no older one through. The steps are of exactly those files of the listing whose
  -- run started within the age limit, without those at hour 0 where these are to be skipped.
  pub discover_images-lacking :
      (listed : List Text) (images : List ImageInfo)
      → discover_images src parse_init_time (return listed) config ≡ return images
      → IsEmitted listed images
  unfolding discover_images runs_newest_first member
  discover_images-lacking listed images h =
      let all = recent_steps src parse_init_time listed (config.current_time - src.max_age) in
      let fresh : Step → Bool = λ s.
        not (member s.image_id config.existing_tilesets)
        && not (member s.image_id config.in_progress_images) in
      let same =
        sym (return-eq-return h)
        ∙ ap (map (to_image_info src parse_init_time)) (
            keep_same _ _ all
              (All-latest src.target_runs fresh (runs_of all) all (tags-members [] all))) in
      record {
        steps = all;
        runs = runs_of all;
        are_recent = recent_steps-Picks listed;
        once = λ t. set_of-once t [] (map (λ s. s.init_tag) all) refl;
        lack =
            subst (λ out. Picks (IsLacking (runs_of all)) all out) (sym same)
              (IsLacking-Picks (runs_of all) all);
      }
