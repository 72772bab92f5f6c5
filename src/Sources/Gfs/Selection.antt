-- ===== src/Sources/Gfs/Selection.antt =====
-- What one GFS discovery emits: how much, and of what.
use tiles_processor.Base.{
  ◌≢◌, codes, some, return, Option-cases, ℕ, zero, suc, ◌+◌, ◌-◌, ◌*◌, ◌/◌, ◌%◌, ◌==◌, ◌≤◌, ◌≡◌,
  refl, true, false, ◌&&◌, List, [], ◌∷◌, ◌++◌, map, Option, Text, arith, member, length, take,
  keep, All, All-keep, All-take, All-append, All-map, length-take, length-map, length-append,
  contains, Result, ltb, Bool-cases, inl, inr,
}
use tiles_processor.Producer.Discovery.{ImageInfo, DiscoveryConfig}
use tiles_processor.Sources.Gfs.{
  hour, is_cycle_hour, GfsProducer, forecast_steps, probe_cycles, candidate_cycles, cached_steps,
  prefix_of, step_from_key, steps_of, to_image_info, is_missing, discover_cycle, discover_cycles,
  discover_images, is_empty,
}

-- A cycle at an hour at which runs are issued.
abbrev pub IsIssued : ℕ → Type 0
IsIssued cycle = is_cycle_hour (cycle % 24) ≡ true

-- The candidate cycles start at the hours at which runs are issued.
probe_cycles-All :
    (n left probe : ℕ) (cycles : List ℕ)
    → All IsIssued cycles
    → All IsIssued (probe_cycles n left probe cycles)
unfolding probe_cycles
probe_cycles-All n zero probe cycles h = h
probe_cycles-All n (suc left) probe cycles h = elim (Bool-cases (is_cycle_hour (probe % 24))) [
  | inl issued ↦ ground (
    arith,
    All-append IsIssued cycles (probe ∷ []) h (issued, tt),
    probe_cycles-All n left (probe - 1) cycles h,
    probe_cycles-All n left (probe - 1) (cycles ++ probe ∷ [])
        (All-append IsIssued cycles (probe ∷ []) h (issued, tt)),
  )
  | inr not_issued ↦ ground (arith, probe_cycles-All n left (probe - 1) cycles h)
]

module _ (p : GfsProducer) (fmt_cycle : ℕ → Text) (format_03d : ℕ → Text)
    (source_uri : ℕ → ℕ → Text) (int : Text → Option ℕ)
    (list_files : (directory_path file_pattern : Text) → Result (List Text))
    (config : DiscoveryConfig) where
  -- The listing of a cycle's GRIB files.
  abbrev pub listing : (cycle : ℕ) → Result (List Text)
  listing cycle =
      list_files (prefix_of p fmt_cycle format_03d source_uri int list_files cycle ++ codes "/")
        (codes ".grib2")

  -- No key of the listing names the step.
  abbrev pub Lacks : (step : ℕ) → List Text → Type 0
  Lacks step [] = Unit
  Lacks step (key ∷ keys) =
      (step_from_key p fmt_cycle format_03d source_uri int list_files key ≢ some step)
      × Lacks step keys

  steps_of-Lacks :
      (step : ℕ) (keys : List Text)
      → contains step (steps_of p fmt_cycle format_03d source_uri int list_files keys) ≡ false
      → Lacks step keys
  unfolding steps_of contains
  steps_of-Lacks step [] h = tt
  steps_of-Lacks step (key ∷ keys) h =
      elim (Option-cases (step_from_key p fmt_cycle format_03d source_uri int list_files key)) [
        | inl bad ↦ (
          λ e. absurd (ground (arith, bad, e)),
          steps_of-Lacks step keys (ground (arith, bad, h)),
        )
        | inr (s, e) ↦ (
          λ e'. absurd (ground (arith, e, e', h)),
          steps_of-Lacks step keys (ground (arith, e, h)),
        )
      ]

  cached_steps-Lacks :
      (cycle step : ℕ) (keys : List Text)
      → contains step (cached_steps p fmt_cycle format_03d source_uri int list_files cycle) ≡ false
      → listing cycle ≡ return keys
      → Lacks step keys
  unfolding cached_steps
  cached_steps-Lacks cycle step keys h e = steps_of-Lacks step keys (ground (arith, e, h))

  -- An image of a cycle that starts when runs are issued and is old enough, with a step that is neither
  -- cached, as far as the listing answered, nor in progress.
  pub record IsWanted (i : ImageInfo) : Type 0 where
    pub cycle : ℕ
    pub step : ℕ
    pub image : i ≡ to_image_info p fmt_cycle format_03d source_uri int list_files cycle step
    pub issued : IsIssued cycle
    pub old : cycle * hour + p.probe_from_hours * hour ≤ config.current_time
    pub not_cached : (keys : List Text) → listing cycle ≡ return keys → Lacks step keys
    pub not_in_progress : member i.image_id config.in_progress_images ≡ false

  discover_cycle-length :
      (cycle budget : ℕ)
      → length (discover_cycle p fmt_cycle format_03d source_uri int list_files cycle config budget)
        ≤ budget
  unfolding discover_cycle
  discover_cycle-length cycle budget =
      let missing =
        keep (is_missing p fmt_cycle format_03d source_uri int list_files config cycle)
          forecast_steps in
      ground (
        arith,
        length-map (to_image_info p fmt_cycle format_03d source_uri int list_files cycle)
            (take budget missing),
        length-take budget missing,
      )

  wanted :
      (cycle step : ℕ)
      → IsIssued cycle
      → cycle * hour + p.probe_from_hours * hour ≤ config.current_time
      → is_missing p fmt_cycle format_03d source_uri int list_files config cycle step ≡ true
      → IsWanted (to_image_info p fmt_cycle format_03d source_uri int list_files cycle step)
  wanted cycle step issued old h = record {
    cycle = cycle;
    step = step;
    image = refl;
    issued = issued;
    old = old;
    not_cached = λ keys. cached_steps-Lacks cycle step keys (ground arith);
    not_in_progress = ground arith;
  }

  selected-All :
      (cycle budget : ℕ)
      → IsIssued cycle
      → cycle * hour + p.probe_from_hours * hour ≤ config.current_time
      → All IsWanted (
          map (to_image_info p fmt_cycle format_03d source_uri int list_files cycle) (
            take budget (
              keep
                (is_missing p fmt_cycle format_03d source_uri int list_files config cycle)
                forecast_steps)))
  selected-All cycle budget issued old =
      let test = is_missing p fmt_cycle format_03d source_uri int list_files config cycle in
      let IsMissing = λ (step : ℕ). test step ≡ true in
      All-map IsMissing IsWanted
        (to_image_info p fmt_cycle format_03d source_uri int list_files cycle)
        (take budget (keep test forecast_steps)) (λ step h. wanted cycle step issued old h)
        (All-take IsMissing budget (keep test forecast_steps)
          (All-keep IsMissing test forecast_steps (λ step h. h)))

  discover_cycle-All :
      (cycle budget : ℕ)
      → IsIssued cycle
      → All IsWanted
          (discover_cycle p fmt_cycle format_03d source_uri int list_files cycle config budget)
  unfolding discover_cycle
  discover_cycle-All cycle budget issued =
      elim (Bool-cases (ltb config.current_time (cycle * hour + p.probe_from_hours * hour))) [
        | inl young ↦ rw young tt
        | inr old ↦
            elim (Bool-cases (
              ltb (cycle * hour + p.probe_to_hours * hour) config.current_time
              && is_empty p fmt_cycle format_03d source_uri int list_files
                  (cached_steps p fmt_cycle format_03d source_uri int list_files cycle))) [
                    | inl abandoned ↦ rw (old, abandoned) tt
                    | inr kept ↦ rw (old, kept) (selected-All cycle budget issued (ground arith))
                  ]
      ]

  discover_cycles-length :
      (cycles : List ℕ) (emitted : List ImageInfo)
      → length emitted ≤ p.max_steps_per_tick
      → length
          (discover_cycles p fmt_cycle format_03d source_uri int list_files config cycles emitted)
        ≤ p.max_steps_per_tick
  unfolding discover_cycles
  discover_cycles-length [] emitted h = h
  discover_cycles-length (c ∷ cycles) emitted h =
      let budget = p.max_steps_per_tick - length emitted in
      let found = discover_cycle p fmt_cycle format_03d source_uri int list_files c config budget in
      ground (
        arith,
        discover_cycle-length c budget,
        length-append emitted found,
        discover_cycles-length cycles (emitted ++ found),
      )

  discover_cycles-All :
      (cycles : List ℕ) (emitted : List ImageInfo)
      → All IsIssued cycles
      → All IsWanted emitted
      → All IsWanted
          (discover_cycles p fmt_cycle format_03d source_uri int list_files config cycles emitted)
  unfolding discover_cycles
  discover_cycles-All [] emitted issued h = h
  discover_cycles-All (c ∷ cycles) emitted issued h =
      let budget = p.max_steps_per_tick - length emitted in
      let found = discover_cycle p fmt_cycle format_03d source_uri int list_files c config budget in
      let more =
        discover_cycles-All cycles (emitted ++ found) issued.1
          (All-append IsWanted emitted found h (discover_cycle-All c budget issued.0)) in
      elim (Bool-cases (budget == 0)) [ inl spent ↦ rw spent h | inr left ↦ rw left more ]

  -- One discovery emits no more images than the cap of a tick. Each is a step of a cycle that starts at
  -- an hour at which runs are issued and is old enough to be published. Its image is not in progress,
  -- and no key of the object store's listing of that cycle names the step, unless that listing raised:
  -- then the cycle counts as not cached at all.
  pub discover_images-IsWanted :
      (length (discover_images p fmt_cycle format_03d source_uri int list_files config)
        ≤ p.max_steps_per_tick)
      × All IsWanted (discover_images p fmt_cycle format_03d source_uri int list_files config)
  unfolding discover_images candidate_cycles
  discover_images-IsWanted =
      let cycles = candidate_cycles p.cycles_to_maintain config.current_time in
      (
        discover_cycles-length cycles [] (ground arith),
        discover_cycles-All cycles []
            (probe_cycles-All p.cycles_to_maintain 48 (config.current_time / hour) [] tt) tt,
      )
