-- ===== src/Base/Ranking.antt =====
-- Places in a sorted list of texts.
use Prim.Native.Nat.{ℕ, zero, suc, ◌<◌}
use mathlib.Core.Path.{◌≡◌, refl, ◌∙◌, subst}
use mathlib.Core.Logic.{inl, inr}
use mathlib.Core.Bool.{Bool, true, not}
use mathlib.Core.List.{List, [], ◌∷◌}
use native.Mathlib.Omega.{arith}
use tiles_processor.Base.Tests.{ltb, Bool-cases}
use tiles_processor.Base.Lists.{length, keep, take, All, All-implies}
use tiles_processor.Base.Strings.{Text, text_eq, text_eq_iff, member}
use tiles_processor.Base.Sorting.{
  text_leb, text_leb_refl, text_leb_total, text_leb_trans, text_leb_antisym, insert_by, sort_by,
  All-insert_by,
}

abbrev latest_first : Text → Text → Bool
latest_first s t = text_leb t s

-- `t` comes strictly after `s`.
abbrev pub is_after : (s t : Text) → Bool
is_after s t = not (text_leb t s)

-- Lists sorted by a text, from the latest on.
module _ {A : Type 0} (key : A → Text) where
  abbrev pub by_latest : A → A → Bool
  by_latest x y = text_leb (key y) (key x)

  abbrev pub Ordered : List A → Type 0
  Ordered [] = Unit {0}
  Ordered (x ∷ xs) = All (λ y. by_latest x y ≡ true) xs × Ordered xs

  insert_by-Ordered : (x : A) (ys : List A) → Ordered ys → Ordered (insert_by by_latest x ys)
  unfolding insert_by
  insert_by-Ordered x [] h = (tt, tt)
  insert_by-Ordered x (y ∷ ys) h = elim (Bool-cases (by_latest x y)) [
    | inl first ↦ rw first (
      (
        first,
        All-implies (λ z. by_latest y z ≡ true) (λ z. by_latest x z ≡ true) ys
            (λ z k. text_leb_trans (key z) (key y) (key x) k first) h.0,
      ),
      h,
    )
    | inr later ↦ rw later (
      All-insert_by by_latest (λ z. by_latest y z ≡ true) x ys
          (text_leb_total (key y) (key x) later) h.0,
      insert_by-Ordered x ys h.1,
    )
  ]

  pub sort_by-Ordered : (xs : List A) → Ordered (sort_by by_latest xs)
  unfolding sort_by
  sort_by-Ordered [] = tt
  sort_by-Ordered (x ∷ xs) = insert_by-Ordered x (sort_by by_latest xs) (sort_by-Ordered xs)

  insert_by-first :
      (x : A) (ys : List A) → All (λ y. by_latest x y ≡ true) ys → insert_by by_latest x ys ≡ x ∷ ys
  unfolding insert_by
  insert_by-first x [] h = refl
  insert_by-first x (y ∷ ys) h = rw h.0 refl

  pub sort_by-eq_of_Ordered : (xs : List A) → Ordered xs → sort_by by_latest xs ≡ xs
  unfolding sort_by
  sort_by-eq_of_Ordered [] h = refl
  sort_by-eq_of_Ordered (x ∷ xs) h = rw (sort_by-eq_of_Ordered xs h.1) (insert_by-first x xs h.0)

abbrev Descending : List Text → Type 0
Descending = Ordered (λ s. s)

sort_by-Descending : (xs : List Text) → Descending (sort_by latest_first xs)
sort_by-Descending = sort_by-Ordered (λ s. s)

length-keep-insert_by :
    (p : Text → Bool) (x : Text) (ys : List Text)
    → length (keep p (insert_by latest_first x ys)) ≡ length (keep p (x ∷ ys))
unfolding insert_by
length-keep-insert_by p x [] = refl
length-keep-insert_by p x (y ∷ ys) = ground (arith, length-keep-insert_by p x ys)

length-keep-sort_by :
    (p : Text → Bool) (xs : List Text)
    → length (keep p (sort_by latest_first xs)) ≡ length (keep p xs)
unfolding sort_by
length-keep-sort_by p [] = refl
length-keep-sort_by p (x ∷ xs) =
    length-keep-insert_by p x (sort_by latest_first xs) ∙ ground (arith, length-keep-sort_by p xs)

keep_no_later :
    (a : Text) (xs : List Text)
    → All (λ y. text_leb y a ≡ true) xs
    → length (keep (is_after a) xs) ≡ 0
keep_no_later a [] h = refl
keep_no_later a (x ∷ xs) h = rw h.0 (keep_no_later a xs h.1)

rank-take :
    (n : ℕ) (xs : List Text) (a : Text)
    → Descending xs
    → member a (take n xs) ≡ true
    → length (keep (is_after a) xs) < n
unfolding member
rank-take zero xs a d h = absurd (ground arith)
rank-take (suc n) [] a d h = absurd (ground arith)
rank-take (suc n) (x ∷ xs) a d h = elim (Bool-cases (text_eq x a)) [
  | inl same ↦
      let e = (text_eq_iff x a).0 same in
      let none_later = keep_no_later a xs (subst (λ q. All (λ y. text_leb y q ≡ true) xs) e d.0) in
      let self : text_leb x a ≡ true = subst (λ q. text_leb x q ≡ true) e (text_leb_refl x) in
      ground (arith, none_later, self)
  | inr apart ↦ ground (arith, rank-take n xs a d.1)
]

member-All : (a : Text) (xs : List Text) (P : Text → Type 0) → All P xs → member a xs ≡ true → P a
unfolding member
member-All a [] P p h = absurd (ground arith)
member-All a (x ∷ xs) P p h = elim (Bool-cases (text_eq x a)) [
  | inl same ↦ subst P ((text_eq_iff x a).0 same) p.0
  | inr apart ↦ member-All a xs P p.1 (ground arith)
]

member-rank :
    (n : ℕ) (xs : List Text) (a : Text)
    → Descending xs
    → member a xs ≡ true
    → length (keep (is_after a) xs) < n
    → member a (take n xs) ≡ true
unfolding member
member-rank n [] a d h l = absurd (ground arith)
member-rank zero (x ∷ xs) a d h l = absurd (omega arith)
member-rank (suc n) (x ∷ xs) a d h l = elim (Bool-cases (text_eq x a)) [
  | inl same ↦ ground arith
  | inr apart ↦
      let there : member a xs ≡ true = ground arith in
      let above : text_leb a x ≡ true = member-All a xs (λ y. text_leb y x ≡ true) d.0 there in
      ground (arith, text_leb_antisym x a, text_eq_iff x a, member-rank n xs a d.1 there)
]

member-insert_by :
    (a x : Text) (ys : List Text) → member a (insert_by latest_first x ys) ≡ member a (x ∷ ys)
unfolding insert_by member
member-insert_by a x [] = refl
member-insert_by a x (y ∷ ys) = ground (arith, member-insert_by a x ys)

pub member-sort_by : (a : Text) (xs : List Text) → member a (sort_by latest_first xs) ≡ member a xs
unfolding sort_by member
member-sort_by a [] = refl
member-sort_by a (x ∷ xs) =
    member-insert_by a x (sort_by latest_first xs) ∙ ground (arith, member-sort_by a xs)

-- An element of a list is one of the `n` latest exactly if fewer than `n` come after it.
pub member-latest :
    (n : ℕ) (xs : List Text) (a : Text)
    → member a xs ≡ true
    → member a (take n (sort_by (λ s t. text_leb t s) xs)) ≡ ltb (length (keep (is_after a) xs)) n
member-latest n xs a h =
    let sorted = sort_by latest_first xs in
    ground (
      arith,
      length-keep-sort_by (is_after a) xs,
      rank-take n sorted a (sort_by-Descending xs),
      member-rank n sorted a (sort_by-Descending xs) (member-sort_by a xs ∙ h),
    )
