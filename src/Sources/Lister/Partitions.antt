-- ===== src/Sources/Lister/Partitions.antt =====
-- Which partitions of a bucket are listed for a window.
use tiles_processor.Base.{
  ℕ, zero, suc, ◌+◌, ◌-◌, ◌*◌, ◌/◌, ◌%◌, ◌≤◌, ◌<◌, ◌≡◌, refl, true, List, [], ◌∷◌, ◌++◌, Text,
  codes, text_eq_refl, member, arith, Bool-cases, inl, inr, ◌⊎◌,
}
use tiles_processor.Sources.Lister.Template.{
  ListingWindow, add_prefix, expand_from, step_of, expand_time_prefixes,
}
use tiles_processor.Store.Client.{contains_text}

member-append : (p : Text) (ps qs : List Text) → member p ps ≡ true → member p (ps ++ qs) ≡ true
unfolding member
member-append p [] qs h = absurd (ground arith)
member-append p (q ∷ ps) qs h = ground (arith, member-append p ps qs)

member-last : (p : Text) (ps : List Text) → member p (ps ++ p ∷ []) ≡ true
unfolding member
member-last p [] = rw (text_eq_refl p) refl
member-last p (q ∷ ps) = ground (arith, member-last p ps)

pub member-add_prefix :
    (p q : Text) (ps : List Text) → member p ps ≡ true → member p (add_prefix q ps) ≡ true
member-add_prefix p q ps h = ground (arith, member-append p ps (q ∷ []))

pub member-add_self : (p : Text) (ps : List Text) → member p (add_prefix p ps) ≡ true
member-add_self p ps = ground (arith, member-last p ps)

module _ (fill : ℕ → Text) (step end : ℕ) where
  member-kept :
      (rounds moment : ℕ) (ps : List Text) (p : Text)
      → member p ps ≡ true
      → member p (expand_from fill step end rounds moment ps) ≡ true
  unfolding expand_from
  member-kept zero moment ps p h = h
  member-kept (suc rounds) moment ps p h = ground (
    arith,
    member-kept rounds (moment + step) (add_prefix (fill moment) ps) p
        (member-add_prefix p (fill moment) ps h),
  )

  member-expand_from :
      (k rounds moment : ℕ) (ps : List Text)
      → k < rounds
      → moment + k * step ≤ end
      → member (fill (moment + k * step)) (expand_from fill step end rounds moment ps) ≡ true
  unfolding expand_from
  member-expand_from k zero moment ps l h = absurd (omega arith)
  member-expand_from zero (suc rounds) moment ps l h =
      let same : moment + 0 * step ≡ moment = omega arith in
      rw same (
        ground (
          arith,
          member-kept rounds (moment + step) (add_prefix (fill moment) ps) (fill moment)
              (member-add_self (fill moment) ps),
        ))
  member-expand_from (suc k) (suc rounds) moment ps l h =
      let same : moment + suc k * step ≡ moment + step + k * step = omega arith in
      rw same (
        ground (
          arith,
          same,
          member-expand_from k rounds (moment + step) (add_prefix (fill moment) ps) (omega arith)
              (omega (arith, same)),
        ))

-- The round in which the moment's hour (or day) is filled in.
abbrev IsRound : (step start end t n : ℕ) → Type 0
IsRound step start end t n =
    (t - t % step ≡ start - start % step + n * step)
    × (n < suc ((end - (start - start % step)) / step))
    × (start - start % step + n * step ≤ end)

moment-IsRound :
    (step start end t : ℕ)
    → (step ≡ 3600000000) ⊎ (step ≡ 86400000000)
    → start ≤ t
    → t ≤ end
    → IsRound step start end t (t / step - start / step)
moment-IsRound step start end t (inl e) h k = rw e (omega arith, omega arith, omega arith)
moment-IsRound step start end t (inr e) h k = rw e (omega arith, omega arith, omega arith)

steps : (template : Text) → (step_of template ≡ 3600000000) ⊎ (step_of template ≡ 86400000000)
steps template = elim (Bool-cases (contains_text (codes "{HH}") template)) [
  | inl hourly ↦ inl (rw hourly refl)
  | inr daily ↦ inr (rw daily refl)
]

-- No partition of the window is missed: the prefix of the hour (or the day, where the template does
-- not name the hour) of each moment of the window is listed.
pub expand_time_prefixes-member :
    (fill : (template : Text) → (moment : ℕ) → Text) (template : Text) (w : ListingWindow) (t : ℕ)
    → w.start ≤ t
    → t ≤ w.end
    → member (fill template (t - t % step_of template)) (expand_time_prefixes fill template w)
      ≡ true
unfolding expand_time_prefixes
expand_time_prefixes-member fill template w t h k =
    let step = step_of template in
    let first = w.start - w.start % step in
    let n = t / step - w.start / step in
    let (at, soon, inside) = moment-IsRound step w.start w.end t (steps template) h k in
    rw at (
      member-expand_from (fill template) step w.end n (suc ((w.end - first) / step)) first [] soon
        inside)
