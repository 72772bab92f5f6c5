-- ===== src/Settings/Inputs/Accepted.antt =====
-- What holds of an input configuration that was accepted.
use tiles_processor.Base.{
  ◌≡◌, ◌≢◌, ◌⊎◌, inl, inr, refl, sym, ◌∙◌, subst, Bool, true, false, not, List, [], ◌++◌, Option,
  none, some, Text, codes, arith, member, if◌then◌else◌, Bool-cases, Result, return, raise,
  bind-eq-return, return-eq-return,
}
use tiles_processor.Settings.Endpoints.{refused, Url}
use tiles_processor.Settings.Inputs.{
  Input, InputSourceConfig, Defaults, or_none, get_or, s3_mode, allowed_modes, parse_input_mode,
  raw_bucket_of, parse_input_bucket, env_prefix_of, input_credentials, parse_input_dir,
  addressing_styles, parse_addressing_style, key_template_sources, parse_key_template, disagrees,
  endpoint_url, validate_input_endpoint, input_source_of, parse_input_source,
}
use tiles_processor.Settings.Inputs.Locations.{IsPrefix, bucket_of-IsLocation}
use tiles_processor.Settings.Inputs.Paths.{IsAbsolute, parse_input_dir-IsAbsolute}

abbrev pub ArePaired : Option Text × Option Text → Type 0
ArePaired keys =
    ((keys.0 ≡ none) × (keys.1 ≡ none))
    ⊎ ((access secret : Text) × (keys.0 ≡ some access) × (keys.1 ≡ some secret))

input_credentials-ArePaired :
    (getenv : Text → Option Text) (env_prefix : Text) (keys : Option Text × Option Text)
    → input_credentials getenv env_prefix ≡ return keys
    → ArePaired keys
unfolding input_credentials
input_credentials-ArePaired getenv env_prefix keys h =
    paired (or_none (getenv (env_prefix ++ codes "_S3_ACCESS_KEY")))
      (or_none (getenv (env_prefix ++ codes "_S3_SECRET_KEY"))) h
  where
    paired :
        (access secret : Option Text)
        → (elim access [
          | none ↦ elim secret [
            | none ↦ return (none, none)
            | some s ↦ raise (refused (codes "credentials"))
          ]
          | some a ↦ elim secret [
            | none ↦ raise (refused (codes "credentials"))
            | some s ↦ return (some a, some s)
          ]
        ])
          ≡ return keys
        → ArePaired keys
    paired none none k = subst ArePaired (return-eq-return k) (inl (refl, refl))
    paired none (some s) k = absurd (ground (arith, k))
    paired (some a) none k = absurd (ground (arith, k))
    paired (some a) (some s) k = subst ArePaired (return-eq-return k) (inr (a, s, refl, refl))

chosen_of :
    (value : Text) (values : List Text) (result text : Text)
    → (if member value values then return value else raise (refused text)) ≡ return result
    → member result values ≡ true
chosen_of value values result text h = elim (Bool-cases (member value values)) [
  | inl found ↦
      subst (λ v. member v values ≡ true) (return-eq-return (ground (arith, found, h))) found
  | inr missing ↦ absurd (ground (arith, missing, h))
]

module _ (urlparse : Text → Result Url) (is_valid : Text → Bool) (getenv : Text → Option Text)
    (d : Defaults) (inp : Input) where
  abbrev pub IsTemplate : Option Text → Type 0
  IsTemplate none = Unit {0}
  IsTemplate (some template) =
      (member d.json_key key_template_sources ≡ true) × (is_valid template ≡ true)

  parse_key_template-IsTemplate :
      (template : Option Text)
      → parse_key_template is_valid d inp ≡ return template
      → IsTemplate template
  unfolding parse_key_template
  parse_key_template-IsTemplate template h = by_setting (or_none inp.s3_key_template) h
    where
      by_setting :
          (setting : Option Text)
          → (elim setting [
            | none ↦ return none
            | some t ↦
                if not (member d.json_key key_template_sources)
                then raise (refused (codes "input.s3_key_template"))
                else if is_valid t
                then return (some t)
                else raise (refused (codes "input.s3_key_template"))
          ])
            ≡ return template
          → IsTemplate template
      by_setting none k = subst IsTemplate (return-eq-return k) tt
      by_setting (some t) k = elim (Bool-cases (member d.json_key key_template_sources)) [
        | inr other ↦ absurd (ground (arith, other, k))
        | inl supported ↦ elim (Bool-cases (is_valid t)) [
          | inr bad ↦ absurd (ground (arith, supported, bad, k))
          | inl good ↦
              let e : some t ≡ template = return-eq-return (ground (arith, supported, good, k)) in
              subst IsTemplate e (supported, good)
        ]
      ]

  pub record IsAccepted (source : InputSourceConfig) : Type 0 where
    pub mode : member source.mode (allowed_modes d) ≡ true
    pub bucket : source.mode ≡ s3_mode → (b : Text) × (source.s3_bucket ≡ some b) × (b ≢ [])
    pub prefix : IsPrefix source.s3_prefix
    pub keys : ArePaired (source.s3_access_key, source.s3_secret_key)
    pub dir : IsAbsolute source.input_dir
    pub style : member source.s3_addressing_style addressing_styles ≡ true
    pub template : IsTemplate source.s3_key_template
    pub agrees : disagrees inp.s3_secure source.s3_endpoint ≡ false
    pub endpoint : (url : Option Text) × (endpoint_url urlparse source ≡ return url)

  mode_of :
      (mode : Text) → parse_input_mode d inp ≡ return mode → member mode (allowed_modes d) ≡ true
  unfolding parse_input_mode
  mode_of mode h =
      chosen_of (get_or d.default_mode inp.mode) (allowed_modes d) mode (codes "input.mode") h

  style_of :
      (style : Text)
      → parse_addressing_style inp ≡ return style
      → member style addressing_styles ≡ true
  unfolding parse_addressing_style
  style_of style h =
      chosen_of (get_or (codes "path") inp.s3_addressing_style) addressing_styles style
        (codes "input.s3_addressing_style") h

  checked_endpoint :
      (source : InputSourceConfig) (u : Unit {0})
      → validate_input_endpoint urlparse source inp ≡ return u
      → (disagrees inp.s3_secure source.s3_endpoint ≡ false)
        × ((url : Option Text) × (endpoint_url urlparse source ≡ return url))
  unfolding validate_input_endpoint
  checked_endpoint source u h = elim (Bool-cases (disagrees inp.s3_secure source.s3_endpoint)) [
    | inl contradicts ↦ absurd (ground (arith, contradicts, h))
    | inr agrees ↦
        let (url, found, rest) =
          bind-eq-return (endpoint_url urlparse source) (λ _. return tt)
            (sym (rw agrees refl) ∙ h) in
        (agrees, (url, found))
  ]

  -- An accepted input has one of the modes its source allows, a bucket if it reads from S3, a prefix
  -- that is empty or ends in a slash, both keys or none, an absolute directory with no slash at its end, a known
  -- addressing style, a key template only where the source takes one, and an endpoint that agrees with the
  -- setting `s3_secure` and whose URL can be built.
  pub parse_input_source-IsAccepted :
      (source : InputSourceConfig)
      → parse_input_source urlparse is_valid getenv d inp ≡ return source
      → IsAccepted source
  unfolding parse_input_source parse_input_bucket
  parse_input_source-IsAccepted source h =
      let (mode, mode_is, h1) = bind-eq-return (parse_input_mode d inp) _ h in
      let (bucket, bucket_is, h2) = bind-eq-return (parse_input_bucket d inp mode) _ h1 in
      let (keys, keys_is, h3) = bind-eq-return (input_credentials getenv (env_prefix_of d)) _ h2 in
      let (dir, dir_is, h4) = bind-eq-return (parse_input_dir d inp) _ h3 in
      let (style, style_is, h5) = bind-eq-return (parse_addressing_style inp) _ h4 in
      let (template, template_is, h6) = bind-eq-return (parse_key_template is_valid d inp) _ h5 in
      let made = input_source_of inp mode bucket keys dir style template in
      let (u, u_is, h7) = bind-eq-return (validate_input_endpoint urlparse made inp) _ h6 in
      let (agreed, found) = checked_endpoint made u u_is in
      let (has_bucket, is_prefix) =
        bucket_of-IsLocation mode (get_or [] inp.s3_prefix) (raw_bucket_of d inp) bucket
          bucket_is in
      subst IsAccepted (return-eq-return h7) record {
        mode = mode_of mode mode_is;
        bucket = has_bucket;
        prefix = is_prefix;
        keys = input_credentials-ArePaired getenv (env_prefix_of d) keys keys_is;
        dir = parse_input_dir-IsAbsolute d inp dir dir_is;
        style = style_of style style_is;
        template = parse_key_template-IsTemplate template template_is;
        agrees = agreed;
        endpoint = found;
      }
