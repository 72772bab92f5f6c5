-- ===== src/Sources/Lister/Wildcards.antt =====
-- When the resolution of wildcards ends.
use mathlib.Core.List.{reverse, append-nil}
use tiles_processor.Base.{
  All-reverse, ℕ, zero, suc, ◌≤◌, ◌≡◌, ◌≢◌, ap, sym, ◌∙◌, subst, Bool, List, [], ◌∷◌, ◌++◌, map,
  Option, none, some, Text, codes, arith, All, All-append, Exec, Exception, return, raise,
  Option-cases, Result-cases, inl, inr,
}
use tiles_processor.Store.Client.{Client, list_prefixes, concat}
use tiles_processor.Store.Client.Aws.{Gateway}
use tiles_processor.Sources.Lister.Stars.{
  stars, stars-partition, IsPlain, AllPlain, children_of-Plain, pushed, bound, All-bound,
}
use tiles_processor.Sources.Lister.Template.{lstrip_slash}
use tiles_processor.Sources.Lister.{
  Resolving, ListerConfig, partition, children_of, push_children, children_at, resolve_one, resolve,
}

module _ (g : Gateway) (caught : Exception → Bool) (fill : (template : Text) → (moment : ℕ) → Text)
    (cfg : ListerConfig) where
  -- No folder that the store lists has a star in its name.
  abbrev pub NoStars : Type 0
  NoStars =
      (prefix : Text) (w : g.World) (pages : List (List Text))
      → (g.common_prefixes prefix (codes "/") w).0 ≡ return pages
      → All IsPlain (concat pages)

  abbrev pub at_step : (pending resolved : List Text) → List (Text × List Text) → Resolving
  at_step pending resolved children = record {
    pending = pending;
    resolved = resolved;
    children = children;
  }

  abbrev pub run : ℕ → Resolving → Exec (Client g) (Option (List Text))
  run fuel r = resolve g caught fill cfg fuel r

  abbrev pub listed :
      (head : Text)
      → List (Text × List Text)
      → Exec (Client g) (List Text × List (Text × List Text))
  listed head children = children_at g caught fill cfg head children

  plain_step :
      (fuel : ℕ) (p : Text) (ps resolved : List Text) (children : List (Text × List Text))
      (c : Client g)
      → (partition p).1 ≡ none
      → run (suc fuel) (at_step (p ∷ ps) resolved children) c
        ≡ run fuel (at_step ps (resolved ++ p ∷ []) children) c
  unfolding resolve resolve_one
  plain_step fuel p ps resolved children c h = ground arith

  pub star_step :
      (fuel : ℕ) (p tail : Text) (ps resolved : List Text) (children : List (Text × List Text))
      (c : Client g) (at : List Text × List (Text × List Text))
      → (partition p).1 ≡ some tail
      → (listed (partition p).0 children c).0 ≡ return at
      → run (suc fuel) (at_step (p ∷ ps) resolved children) c
        ≡ run fuel
            (at_step (push_children at.0 tail ps) resolved at.1)
            (listed (partition p).0 children c).1
  unfolding resolve resolve_one
  star_step fuel p tail ps resolved children c at h k = ground arith

  raise_step :
      (p tail : Text) (ps resolved : List Text) (children : List (Text × List Text)) (c : Client g)
      (e : Exception)
      → (partition p).1 ≡ some tail
      → (listed (partition p).0 children c).0 ≡ raise e
      → (run 1 (at_step (p ∷ ps) resolved children) c).0 ≡ raise e
  unfolding resolve resolve_one
  raise_step p tail ps resolved children c e h k = ground arith

  children_at-Plain :
      (head : Text) (children : List (Text × List Text)) (c : Client g)
      (at : List Text × List (Text × List Text))
      → NoStars
      → AllPlain children
      → (listed head children c).0 ≡ return at
      → All IsPlain at.0 × AllPlain at.1
  unfolding children_at list_prefixes
  children_at-Plain head children c at n p h = elim (Option-cases (children_of head children)) [
    | inr (found, hit) ↦
        let same : (found, children) ≡ at = ground arith in
        subst (λ a. All IsPlain a.0 × AllPlain a.1) same
          (children_of-Plain head children found p hit, p)
    | inl miss ↦ elim (Result-cases (g.common_prefixes head (codes "/") c.world).0) [
      | inl (pages, e) ↦
          let found = concat pages in
          let plain = n head c.world pages e in
          let same : (found, children ++ (head, found) ∷ []) ≡ at = ground arith in
          subst (λ a. All IsPlain a.0 × AllPlain a.1) same
            (plain, All-append (λ k. All IsPlain k.1) children ((head, found) ∷ []) p (plain, tt))
      | inr (x, e) ↦ absurd (ground arith)
    ]
  ]

  -- Whatever was resolved and cached so far, some fuel suffices for the stack.
  abbrev pub Ends : (pending : List Text) → Type 0
  Ends pending =
      (resolved : List Text) (children : List (Text × List Text)) (c : Client g)
      → AllPlain children
      → (fuel : ℕ) × ((run fuel (at_step pending resolved children) c).0 ≢ return none)

  Ends-nil : Ends []
  unfolding resolve
  Ends-nil resolved children c p = (1, λ h. cc)

  -- A prefix goes, or gives way to children with a star less.
  Ends-cons :
      (p : Text) (rest : List Text)
      → NoStars
      → Ends rest
      → ((found : List Text) (tail : Text)
          → All IsPlain found
          → stars p ≡ suc (stars tail)
          → Ends (push_children found tail rest))
      → Ends (p ∷ rest)
  Ends-cons p rest n e more resolved children c pl = elim (Option-cases (partition p).1) [
    | inl plain ↦
        let (fuel, done) = e (resolved ++ p ∷ []) children c pl in
        (
          suc fuel,
          λ q.
              done (sym (ap (λ out. out.0) (plain_step fuel p rest resolved children c plain)) ∙ q),
        )
    | inr (tail, star) ↦ elim (Result-cases (listed (partition p).0 children c).0) [
      | inr (x, bad) ↦
          (1, λ q. absurd (ground (arith, raise_step p tail rest resolved children c x star bad)))
      | inl (at, ok) ↦
          let (found, kept) = children_at-Plain (partition p).0 children c at n pl ok in
          let (fuel, done) =
            more at.0 tail found (stars-partition p tail star) resolved at.1
              (listed (partition p).0 children c).1 kept in
          (
            suc fuel,
            λ q. done (
                sym (ap (λ out. out.0) (star_step fuel p tail rest resolved children c at star ok))
                ∙ q),
          )
    ]
  ]

  Ends-append :
      (k : ℕ) (new rest : List Text)
      → NoStars
      → All (λ p. stars p ≤ k) new
      → Ends rest
      → Ends (new ++ rest)
  Ends-append k [] rest n h e = e
  Ends-append zero (p ∷ ps) rest n h e =
      Ends-cons p (ps ++ rest) n (Ends-append zero ps rest n h.1 e)
        (λ found tail plain q. absurd (omega arith))
  Ends-append (suc k) (p ∷ ps) rest n h e =
      let after = Ends-append (suc k) ps rest n h.1 e in
      Ends-cons p (ps ++ rest) n after (λ found tail plain q.
        Ends-append k (reverse (map (λ child. child ++ lstrip_slash tail) found)) (ps ++ rest) n
          (All-reverse (λ r. stars r ≤ k) _ (pushed k tail found (omega arith) plain)) after)

  pub resolve-Ends : (pending : List Text) → NoStars → Ends pending
  resolve-Ends pending n =
      subst Ends (append-nil pending)
        (Ends-append (bound pending) pending [] n (All-bound pending) Ends-nil)
