-- ===== src/Tracker/Keys.antt =====
-- The primary key (image_id, band_id), and the row that a key finds.
use tiles_processor.Base.{
  text_eq_refl, member, Option-cases, ◌⊎◌, inl, inr, ℕ, ◌≡◌, refl, Bool, true, false, ◌&&◌, List,
  [], ◌∷◌, ◌++◌, map, Option, none, some, Text, text_eq, text_eq_iff, if◌then◌else◌, keep, arith,
}
use tiles_processor.Tracker.{get_in_progress_images, Row, ProgressTracker, has_key, delete, touch}

unfoldable pub find : (image_id band_id : Text) → List Row → Option Row
find image_id band_id [] = none
find image_id band_id (r ∷ rows) =
    if has_key image_id band_id r then some r else find image_id band_id rows

pub find-nil : (i b : Text) → find i b [] ≡ none
unfolding find
find-nil i b = refl

-- Every key stands in one row at most.
abbrev pub IsKeyed : List Row → Type 0
IsKeyed [] = Unit {0}
IsKeyed (r ∷ rows) = (find r.image_id r.band_id rows ≡ none) × IsKeyed rows

pub has_key_self : (r : Row) → has_key r.image_id r.band_id r ≡ true
unfolding has_key
has_key_self r = ground (arith, text_eq_iff r.image_id r.image_id, text_eq_iff r.band_id r.band_id)

-- Two keys that one row has are one key.
pub has_key_same :
    (i b : Text) (r : Row) → has_key i b r ≡ true → (r.image_id ≡ i) × (r.band_id ≡ b)
unfolding has_key
has_key_same i b r h = ground (arith, text_eq_iff r.image_id i, text_eq_iff r.band_id b)

-- `DELETE` and the lookup, where the condition may keep the row that is looked up.
abbrev pub unless : (Row → Bool) → Option Row → Option Row
unless p none = none
unless p (some r) = if p r then none else some r

find-none-delete :
    (i b : Text) (p : Row → Bool) (rows : List Row)
    → find i b rows ≡ none
    → find i b (delete p rows) ≡ none
unfolding find
find-none-delete i b p [] h = refl
find-none-delete i b p (r ∷ rows) h = ground (arith, find-none-delete i b p rows)

pub IsKeyed-delete : (p : Row → Bool) (rows : List Row) → IsKeyed rows → IsKeyed (delete p rows)
IsKeyed-delete p [] k = tt
IsKeyed-delete p (r ∷ rows) k =
    ground (arith, IsKeyed-delete p rows k.1, find-none-delete r.image_id r.band_id p rows k.0)

pub find-delete :
    (i b : Text) (p : Row → Bool) (rows : List Row)
    → IsKeyed rows
    → find i b (delete p rows) ≡ unless p (find i b rows)
unfolding find
find-delete i b p [] k = refl
find-delete i b p (r ∷ rows) k =
    ground (arith, find-delete i b p rows k.1, has_key_same i b r, find-none-delete i b p rows)

pub find-append :
    (i b : Text) (rows : List Row) (r : Row)
    → find i b (rows ++ r ∷ []) ≡ (
        let last = if has_key i b r then some r else none in
        elim (find i b rows) [ none ↦ last | some x ↦ some x ])
unfolding find
find-append i b [] r = ground arith
find-append i b (x ∷ rows) r = ground (arith, find-append i b rows r)

pub IsKeyed-append :
    (rows : List Row) (r : Row)
    → IsKeyed rows
    → find r.image_id r.band_id rows ≡ none
    → IsKeyed (rows ++ r ∷ [])
unfolding find
IsKeyed-append [] r k h = (refl, tt)
IsKeyed-append (x ∷ rows) r k h = ground (
  arith,
  IsKeyed-append rows r k.1,
  find-append x.image_id x.band_id rows r,
  has_key_same x.image_id x.band_id r,
  has_key_self x,
)

pub find-touch :
    (now : ℕ) (i b j c : Text) (rows : List Row)
    → find j c (map (touch now i b) rows)
      ≡ elim (find j c rows) [ none ↦ none | some r ↦ some (touch now i b r) ]
unfolding find has_key
find-touch now i b j c [] = refl
find-touch now i b j c (r ∷ rows) = ground (arith, find-touch now i b j c rows)

pub find-key :
    (i b : Text) (rows : List Row) (r : Row) → find i b rows ≡ some r → has_key i b r ≡ true
unfolding find
find-key i b [] r h = cc
find-key i b (x ∷ rows) r h = ground (arith, find-key i b rows r)

-- A row of one key, tested for another key.
pub has_key-of :
    (i b j c : Text) (r : Row) → has_key i b r ≡ true → has_key j c r ≡ (text_eq j i && text_eq c b)
unfolding has_key
has_key-of i b j c r h = ground (
  arith,
  text_eq_iff r.image_id i,
  text_eq_iff r.band_id b,
  text_eq_iff r.image_id j,
  text_eq_iff r.band_id c,
  text_eq_iff j i,
  text_eq_iff c b,
)

-- An entry with the key of `i` and `b`, where the table may hold one.
pub find_by_key :
    (i b j c : Text) (rows : List Row)
    → (find i b rows ≡ none)
      ⊎ ((r : Row) × (find i b rows ≡ some r) × (has_key j c r ≡ (text_eq j i && text_eq c b)))
find_by_key i b j c rows = elim (Option-cases (find i b rows)) [
  | inl e ↦ inl e
  | inr (r, e) ↦ inr (r, e, has_key-of i b j c r (find-key i b rows r e))
]

pub find-delete_self :
    (i b : Text) (rows : List Row) → IsKeyed rows → find i b (delete (has_key i b) rows) ≡ none
find-delete_self i b rows k = elim (find_by_key i b i b rows) [
  | inl e ↦ ground (arith, find-delete i b (has_key i b) rows k)
  | inr (r, e, same) ↦
      ground (arith, find-delete i b (has_key i b) rows k, text_eq_refl i, text_eq_refl b)
]

pub IsKeyed-touch :
    (now : ℕ) (i b : Text) (rows : List Row) → IsKeyed rows → IsKeyed (map (touch now i b) rows)
IsKeyed-touch now i b [] k = tt
IsKeyed-touch now i b (r ∷ rows) k =
    ground (arith, IsKeyed-touch now i b rows k.1, find-touch now i b r.image_id r.band_id rows)

member_lem :
    (i b : Text) (rows : List Row)
    → member i (map (λ r. r.image_id) (keep (λ r. text_eq r.band_id b) rows))
      ≡ elim (find i b rows) [ none ↦ false | some _ ↦ true ]
unfolding member find has_key
member_lem i b [] = refl
member_lem i b (r ∷ rows) = ground (arith, member_lem i b rows)

-- The images that the producer reads back for a band are those that have a row in the band.
pub member-get_in_progress_images :
    (i b : Text) (t : ProgressTracker)
    → member i (get_in_progress_images b t)
      ≡ elim (find i b t.rows) [ none ↦ false | some _ ↦ true ]
unfolding get_in_progress_images
member-get_in_progress_images i b t = member_lem i b t.rows
