-- ===== src/Sources/Radar/Groups.antt =====
-- Groups of images by station.
use tiles_processor.Base.{
  ℕ, zero, suc, ◌≡◌, inl, inr, refl, ap, sym, ◌∙◌, subst, Bool, true, false, List, [], ◌∷◌, ◌++◌,
  Text, text_eq, text_eq_iff, arith, if◌then◌else◌, take, keep, keep-append, keep_every, keep_none,
  All, All-take, All-implies, All-append, All-sort_by, sort_by, Bool-cases,
}
use tiles_processor.Producer.Discovery.{ImageInfo}
use tiles_processor.Sources.Radar.{station_of, append_to, group_by_radar, later_id, newest_of_each}
use mathlib.Core.List.{append_assoc, append-nil}

-- Whether an image is of the station.
abbrev pub is_of : Text → ImageInfo → Bool
is_of radar_id i = text_eq (station_of i) radar_id

abbrev Groups : Type 0
Groups = List (Text × List ImageInfo)

-- The images under a key.
members : Text → Groups → List ImageInfo
members r [] = []
members r ((k, images) ∷ groups) = if text_eq k r then images else members r groups

members-append_to :
    (r q : Text) (i : ImageInfo) (groups : Groups)
    → members r (append_to q i groups)
      ≡ (if text_eq q r then members r groups ++ i ∷ [] else members r groups)
unfolding members append_to
members-append_to r q i [] = ground arith
members-append_to r q i ((k, images) ∷ groups) =
    ground
      (arith, text_eq_iff k q, text_eq_iff k r, text_eq_iff q r, members-append_to r q i groups)

members-group_by_radar :
    (r : Text) (images : List ImageInfo) (groups : Groups)
    → members r (group_by_radar images groups) ≡ members r groups ++ keep (is_of r) images
unfolding group_by_radar
members-group_by_radar r [] groups = sym (append-nil _)
members-group_by_radar r (i ∷ images) groups =
    members-group_by_radar r images (append_to (station_of i) i groups)
    ∙ elim (Bool-cases (text_eq (station_of i) r)) [
      | inl same ↦
          rw (members-append_to r (station_of i) i groups, same)
            (append_assoc (members r groups) (i ∷ []) (keep (is_of r) images))
      | inr apart ↦ rw (members-append_to r (station_of i) i groups, apart) refl
    ]

-- Each group holds images of its key, and no later group has the key.
IsGrouped : Groups → Type 0
IsGrouped [] = Unit {0}
IsGrouped ((k, images) ∷ groups) =
    All (λ i. station_of i ≡ k) images × All (λ g. text_eq g.0 k ≡ false) groups × IsGrouped groups

away-append_to :
    (k q : Text) (i : ImageInfo) (groups : Groups)
    → text_eq q k ≡ false
    → All (λ g. text_eq g.0 k ≡ false) groups
    → All (λ g. text_eq g.0 k ≡ false) (append_to q i groups)
unfolding append_to
away-append_to k q i [] d h = (d, tt)
away-append_to k q i ((j, images) ∷ groups) d h = elim (Bool-cases (text_eq j q)) [
  | inl same ↦ rw same h
  | inr apart ↦ rw apart (h.0, away-append_to k q i groups d h.1)
]

text_eq_flip : (s t : Text) → text_eq s t ≡ false → text_eq t s ≡ false
text_eq_flip s t h = ground (arith, text_eq_iff s t, text_eq_iff t s)

append_to-IsGrouped :
    (i : ImageInfo) (groups : Groups)
    → IsGrouped groups
    → IsGrouped (append_to (station_of i) i groups)
unfolding append_to IsGrouped
append_to-IsGrouped i [] h = ((refl, tt), tt, tt)
append_to-IsGrouped i ((k, images) ∷ groups) h = elim (Bool-cases (text_eq k (station_of i))) [
  | inl same ↦ rw same (
    All-append (λ j. station_of j ≡ k) images (i ∷ []) h.0
        (sym ((text_eq_iff k (station_of i)).0 same), tt),
    h.1,
    h.2,
  )
  | inr apart ↦ rw apart (
    h.0,
    away-append_to k (station_of i) i groups (text_eq_flip k (station_of i) apart) h.1,
    append_to-IsGrouped i groups h.2,
  )
]

group_by_radar-IsGrouped :
    (images : List ImageInfo) (groups : Groups)
    → IsGrouped groups
    → IsGrouped (group_by_radar images groups)
unfolding group_by_radar
group_by_radar-IsGrouped [] groups h = h
group_by_radar-IsGrouped (i ∷ images) groups h =
    group_by_radar-IsGrouped images (append_to (station_of i) i groups)
      (append_to-IsGrouped i groups h)

members_away :
    (r : Text) (groups : Groups) → All (λ g. text_eq g.0 r ≡ false) groups → members r groups ≡ []
unfolding members
members_away r [] h = refl
members_away r ((k, images) ∷ groups) h = rw h.0 (members_away r groups h.1)

abbrev newest : ℕ → List ImageInfo → List ImageInfo
newest n images = take n (sort_by later_id images)

newest-nil : (n : ℕ) → newest n [] ≡ []
unfolding sort_by
newest-nil zero = refl
newest-nil (suc n) = refl

newest-All :
    (P : ImageInfo → Type 0) (n : ℕ) (images : List ImageInfo)
    → All P images
    → All P (newest n images)
newest-All P n images h = All-take P n (sort_by later_id images) (All-sort_by later_id P images h)

keep-newest_of_each :
    (r : Text) (n : ℕ) (groups : Groups)
    → IsGrouped groups
    → keep (is_of r) (newest_of_each n groups) ≡ newest n (members r groups)
unfolding newest_of_each members IsGrouped
keep-newest_of_each r n [] h = sym (newest-nil n)
keep-newest_of_each r n ((k, images) ∷ groups) h =
    let ih = keep-newest_of_each r n groups h.2 in
    keep-append (is_of r) (newest n images) (newest_of_each n groups)
    ∙ elim (Bool-cases (text_eq k r)) [
      | inl same ↦
          let here = keep_every (is_of r) (newest n images) (
            newest-All (λ i. is_of r i ≡ true) n images
              (All-implies (λ i. station_of i ≡ k) (λ i. is_of r i ≡ true) images (λ i e. rw e same)
                h.0)) in
          let key : k ≡ r = (text_eq_iff k r).0 same in
          let none_later =
            ih
            ∙ ap (newest n) (
                members_away r groups
                  (subst (λ q. All (λ g. text_eq g.0 q ≡ false) groups) key h.1))
            ∙ newest-nil n in
          rw (here, none_later, same) (append-nil (newest n images))
      | inr apart ↦
          let nothing = keep_none (is_of r) (newest n images) (
            newest-All (λ i. is_of r i ≡ false) n images
              (All-implies (λ i. station_of i ≡ k) (λ i. is_of r i ≡ false) images
                (λ i e. rw e apart) h.0)) in
          rw (nothing, ih, apart) refl
    ]

-- Of each station, grouping and cutting leave the newest images of that station.
pub keep-newest_of_groups :
    (r : Text) (n : ℕ) (images : List ImageInfo)
    → keep (is_of r) (newest_of_each n (group_by_radar images []))
      ≡ take n (sort_by later_id (keep (is_of r) images))
unfolding members IsGrouped
keep-newest_of_groups r n images =
    keep-newest_of_each r n (group_by_radar images []) (group_by_radar-IsGrouped images [] tt)
    ∙ ap (newest n) (members-group_by_radar r images [])
