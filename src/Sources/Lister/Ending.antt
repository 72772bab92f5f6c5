-- ===== src/Sources/Lister/Ending.antt =====
-- When a listing of a window ends.
use tiles_processor.Base.{
  ℕ, ◌≡◌, ◌≢◌, refl, subst, Bool, List, [], ◌∷◌, Option, none, some, Text, arith, Exception, Result,
  return, raise, pure, and_then, Bool-cases, Option-cases, inl, inr, ◌>>=◌,
}
use tiles_processor.Store.Client.{Client}
use tiles_processor.Store.Client.Aws.{Gateway}
use tiles_processor.Sources.Lister.Template.{ListingWindow}
use tiles_processor.Sources.Lister.Wildcards.{NoStars, resolve-Ends}
use tiles_processor.Sources.Lister.{
  ListerConfig, Lister, keep_input_files, resolve, list_all, list_each, pending_of, list_partitions,
  whole_prefix, or_whole, list_window, list_keys, is_cached, remember,
}

abbrev Answers : {A : Type 0} → Result (Option A) → Type 0
Answers r = r ≢ return none

module _ (g : Gateway) (caught : Exception → Bool) (fill : (template : Text) → (moment : ℕ) → Text)
    (cfg : ListerConfig) where
  answered :
      {A B : Type 0} (r : Result A) (f : A → B) (d : Client g)
      → Answers (and_then r (λ a. pure (some (f a))) d).0
  answered (return a) f d h = cc
  answered (raise e) f d h = cc

  whole-Answers : (c : Client g) → Answers (whole_prefix g caught fill cfg c).0
  whole-Answers c =
      answered (list_all g caught fill cfg c).0 (λ keys. keys) (list_all g caught fill cfg c).1

  or_whole-Answers :
      (r : Result (Option (List Text))) (d : Client g)
      → Answers r
      → Answers (or_whole g caught fill cfg r d).0
  or_whole-Answers (return none) d h = absurd (h refl)
  or_whole-Answers (return (some [])) d h = whole-Answers d
  or_whole-Answers (return (some (key ∷ keys))) d h = λ q. cc
  or_whole-Answers (raise e) d h = elim (Bool-cases (caught e)) [
    | inl again ↦ rw again (whole-Answers d)
    | inr fatal ↦ rw fatal (λ q. cc)
  ]

  after_prefixes :
      (r : Result (Option (List Text))) (d : Client g)
      → Answers r
      → Answers {A = List Text}
          (and_then r
            (λ prefixes. elim prefixes [
              | none ↦ pure none
              | some ps ↦ list_each g caught fill cfg ps >>= λ keys.
                  pure (some (keep_input_files cfg.key_suffixes keys))
            ])
            d).0
  after_prefixes (return none) d h = absurd (h refl)
  after_prefixes (return (some ps)) d h =
      answered (list_each g caught fill cfg ps d).0 (keep_input_files cfg.key_suffixes)
        (list_each g caught fill cfg ps d).1
  after_prefixes (raise e) d h = λ q. cc

  remember-Answers :
      (w : ListingWindow) (r : Result (Option (List Text))) (t : Lister g)
      → Answers r
      → Answers (and_then r (remember g caught fill cfg w) t).0
  remember-Answers w (return none) t h = absurd (h refl)
  remember-Answers w (return (some keys)) t h = λ q. cc
  remember-Answers w (raise e) t h = λ q. cc

  by_template :
      (fuel : ℕ) (w : ListingWindow) (c : Client g) (o : Option Text)
      → ((template : Text)
          → o ≡ some template
          → Answers (resolve g caught fill cfg fuel (pending_of g caught fill cfg template w) c).0)
      → let listing : Result (Option (List Text)) × Client g = elim o [
        | none ↦ whole_prefix g caught fill cfg c
        | some template ↦
            let (r, d) = list_partitions g caught fill cfg fuel template w c in
            or_whole g caught fill cfg r d
      ] in
        Answers listing.0
  unfolding list_partitions
  by_template fuel w c none h = whole-Answers c
  by_template fuel w c (some template) h =
      or_whole-Answers (list_partitions g caught fill cfg fuel template w c).0 _ (
        after_prefixes
          (resolve g caught fill cfg fuel (pending_of g caught fill cfg template w) c).0 _
          (h template refl))

  list_window-Answers :
      (fuel : ℕ) (w : ListingWindow) (c : Client g)
      → ((template : Text)
          → cfg.key_template ≡ some template
          → Answers (resolve g caught fill cfg fuel (pending_of g caught fill cfg template w) c).0)
      → Answers (list_window g caught fill cfg fuel w c).0
  unfolding list_window
  list_window-Answers fuel w c h = by_template fuel w c cfg.key_template h

  -- If no folder of the store has a star in its name, a call for a window ends: with enough fuel it
  -- answers with keys or raises.
  pub list_keys-Ends :
      (w : ListingWindow) (s : Lister g)
      → NoStars g caught fill cfg
      → (fuel : ℕ) × ((list_keys g caught fill cfg fuel (some w) s).0 ≢ return none)
  unfolding list_keys
  list_keys-Ends w s n = elim (Bool-cases (is_cached g caught fill cfg w s.cached_window)) [
    | inl hit ↦ (0, rw hit (λ q. cc))
    | inr miss ↦ elim (Option-cases cfg.key_template) [
      | inl whole ↦ (
        0,
        rw miss (
            remember-Answers w _ _
              (list_window-Answers 0 w s.client (λ template e. absurd (ground arith)))),
      )
      | inr (template, e) ↦
          let r = pending_of g caught fill cfg template w in
          let (fuel, done) = resolve-Ends g caught fill cfg r.pending n [] [] s.client tt in
          (
            fuel,
            rw miss (
                remember-Answers w _ _ (
                  list_window-Answers fuel w s.client (λ t e'.
                    let same : template ≡ t = ground (arith, e, e') in
                    subst
                      (λ x.
                        Answers
                          (resolve g caught fill cfg fuel (pending_of g caught fill cfg x w)
                            s.client).0)
                      same done))),
          )
    ]
  ]
