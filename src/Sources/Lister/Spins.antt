-- ===== src/Sources/Lister/Spins.antt =====
-- A folder that makes the resolution of wildcards go round for ever.
use mathlib.Core.List.{append-nil}
use tiles_processor.Base.{
  ℕ, zero, suc, ◌≡◌, refl, ap, sym, subst, ◌∙◌, Bool, List, [], ◌∷◌, ◌++◌, none, some, Text, codes,
  arith, text_eq_refl, Exception, return,
}
use tiles_processor.Store.Client.{Client, list_prefixes}
use tiles_processor.Store.Client.Aws.{Gateway}
use tiles_processor.Sources.Lister.Template.{lstrip_slash}
use tiles_processor.Sources.Lister.Stars.{stars, IsPlain}
use tiles_processor.Sources.Lister.Wildcards.{star_step, at_step, run, listed}
use tiles_processor.Sources.Lister.{
  ListerConfig, partition, children_of, children_at, push_children, resolve,
}

-- `*/` below `h`.
abbrev pub starred : Text → Text
starred h = h ++ b'*' ∷ b'/' ∷ []

partition-starred : (h : Text) → IsPlain h → partition (starred h) ≡ (h, some (b'/' ∷ []))
unfolding partition stars
partition-starred [] p = refl
partition-starred (c ∷ h) p = ground (arith, partition-starred h)

push_starred : (h : Text) → push_children (starred h ∷ []) (b'/' ∷ []) [] ≡ starred h ∷ []
unfolding lstrip_slash
push_starred h = ap (λ p. p ∷ []) (append-nil (starred h))

known : (h : Text) → children_of h ((h, starred h ∷ []) ∷ []) ≡ some (starred h ∷ [])
unfolding children_of
known h = rw (text_eq_refl h) refl

module _ (g : Gateway) (caught : Exception → Bool) (fill : (template : Text) → (moment : ℕ) → Text)
    (cfg : ListerConfig) where
  -- One round, whatever the children come from.
  round :
      (fuel : ℕ) (h : Text) (resolved : List Text) (children kept : List (Text × List Text))
      (c d : Client g)
      → IsPlain h
      → listed g caught fill cfg h children c ≡ (return (starred h ∷ [], kept), d)
      → resolve g caught fill cfg
          (suc fuel)
          (at_step g caught fill cfg (starred h ∷ []) resolved children)
          c
        ≡ resolve g caught fill cfg fuel
            (at_step g caught fill cfg (starred h ∷ []) resolved kept)
            d
  round fuel h resolved children kept c d p k =
      let e = partition-starred h p in
      let found : listed g caught fill cfg (partition (starred h)).0 children c
          ≡ (return (starred h ∷ [], kept), d) =
        subst (λ q. listed g caught fill cfg q children c ≡ (return (starred h ∷ [], kept), d))
          (sym (ap (λ q. q.0) e)) k in
      star_step g caught fill cfg fuel (starred h) (b'/' ∷ []) [] resolved children c
        (starred h ∷ [], kept) (ap (λ q. q.1) e) (ap (λ o. o.0) found)
      ∙ ap
          (λ ps.
            run g caught fill cfg fuel (at_step g caught fill cfg ps resolved kept)
              (listed g caught fill cfg (partition (starred h)).0 children c).1)
          (push_starred h)
      ∙ ap
          (λ o.
            run g caught fill cfg fuel (at_step g caught fill cfg (starred h ∷ []) resolved kept)
              o.1)
          found

  cached :
      (h : Text) (children : List (Text × List Text)) (c : Client g)
      → children_of h children ≡ some (starred h ∷ [])
      → listed g caught fill cfg h children c ≡ (return (starred h ∷ [], children), c)
  unfolding children_at
  cached h children c k = ground arith

  asked :
      (h : Text) (c : Client g) (w' : g.World)
      → g.common_prefixes h (codes "/") c.world ≡ (return ((starred h ∷ []) ∷ []), w')
      → listed g caught fill cfg h [] c
        ≡ (return (starred h ∷ [], (h, starred h ∷ []) ∷ []), record c { world = w' })
  unfolding children_at list_prefixes children_of
  asked h c w' k = rw k refl

  spinning :
      (fuel : ℕ) (h : Text) (resolved : List Text) (children : List (Text × List Text))
      (c : Client g)
      → IsPlain h
      → children_of h children ≡ some (starred h ∷ [])
      → (resolve g caught fill cfg fuel
          (at_step g caught fill cfg (starred h ∷ []) resolved children)
          c).0
        ≡ return none
  spinning zero h resolved children c p k = unfold resolve in refl
  spinning (suc fuel) h resolved children c p k =
      ap (λ o. o.0) (round fuel h resolved children children c c p (cached h children c k))
      ∙ spinning fuel h resolved children c p k

  -- If all that is left to resolve is a prefix without a star followed by a star, nothing was listed
  -- yet, and the store lists under that prefix one page with one folder, which is named like the prefix
  -- with a star after it, then the wildcard is replaced by itself: no fuel suffices, so the loop never
  -- ends, whatever was resolved before.
  pub resolve-spins :
      (h : Text) (resolved : List Text) (c : Client g) (w' : g.World)
      → IsPlain h
      → g.common_prefixes h (codes "/") c.world ≡ (return ((starred h ∷ []) ∷ []), w')
      → (fuel : ℕ)
      → (resolve g caught fill cfg fuel
          (at_step g caught fill cfg (starred h ∷ []) resolved [])
          c).0
        ≡ return none
  resolve-spins h resolved c w' p k zero = unfold resolve in refl
  resolve-spins h resolved c w' p k (suc fuel) =
      let children = (h, starred h ∷ []) ∷ [] in
      let d : Client g = record c { world = w' } in
      ap (λ o. o.0) (round fuel h resolved [] children c d p (asked h c w' k))
      ∙ spinning fuel h resolved children d p (known h)
