-- ===== src/Sources/Glm/Minutes.antt =====
-- What the windows of GLM files and the entries by minute hold.
use tiles_processor.Base.{
  ℕ, zero, suc, ◌+◌, ◌-◌, ◌%◌, ◌≤◌, ◌<◌, ◌≡◌, ◌≢◌, inl, inr, refl, ◌∙◌, sym, subst, ap, true, List,
  [], ◌∷◌, Text, arith, ◌==◌, member, length, All, All-append, Apart, Bool-cases, return, raise,
  bind-eq-return, return-eq-return,
}
use tiles_processor.Sources.Glm.{
  minute, walk, append_to, append_all, set_minute, values, start_of, newest, accum,
}

-- The minute at which a file starts.
abbrev pub minute_of : Text → ℕ
minute_of uri = elim (start_of uri) [ return t ↦ t - t % minute | raise e ↦ 0 ]

-- A file of the listing that starts in `[a, a + accum)` and not before the cutoff.
abbrev pub Inside : (uris : List Text) (cutoff accum a : ℕ) → Text → Type 0
Inside uris cutoff accum a uri =
    (t : ℕ) × (start_of uri ≡ return t)
    × (cutoff ≤ t)
    × (a ≤ t)
    × (t < a + accum)
    × (member uri uris ≡ true)

pub walk-All :
    (step accum t rounds anchor : ℕ)
    → All (λ a. (a ≤ t) × (t < a + accum)) (walk step accum t rounds anchor)
unfolding walk
walk-All step accum t zero anchor = tt
walk-All step accum t (suc rounds) anchor =
    ground (arith, walk-All step accum t rounds (anchor - step))

append_to-All :
    (P : ℕ → Text → Type 0) (a : ℕ) (uri : Text) (windows : List (ℕ × List Text))
    → P a uri
    → All (λ w. All (P w.0) w.1) windows
    → All (λ w. All (P w.0) w.1) (append_to a uri windows)
unfolding append_to
append_to-All P a uri [] p h = ((p, tt), tt)
append_to-All P a uri ((b, files) ∷ windows) p h = elim (Bool-cases (b == a)) [
  | inl same ↦
      let e : a ≡ b = ground arith in
      rw same (All-append (P b) files (uri ∷ []) h.0 (subst (λ c. P c uri) e p, tt), h.1)
  | inr apart ↦ rw apart (h.0, append_to-All P a uri windows p h.1)
]

pub append_all-All :
    (P : ℕ → Text → Type 0) (anchors : List ℕ) (uri : Text) (windows : List (ℕ × List Text))
    → All (λ a. P a uri) anchors
    → All (λ w. All (P w.0) w.1) windows
    → All (λ w. All (P w.0) w.1) (append_all anchors uri windows)
unfolding append_all
append_all-All P [] uri windows p h = h
append_all-All P (a ∷ anchors) uri windows p h =
    append_all-All P anchors uri (append_to a uri windows) p.1 (append_to-All P a uri windows p.0 h)

-- Each entry's file starts in the entry's minute.
abbrev pub Keyed : ℕ × Text → Type 0
Keyed e = minute_of e.1 ≡ e.0

set_minute-All :
    (P : ℕ × Text → Type 0) (m : ℕ) (uri : Text) (entries : List (ℕ × Text))
    → P (m, uri)
    → All P entries
    → All P (set_minute m uri entries)
unfolding set_minute
set_minute-All P m uri [] p h = (p, tt)
set_minute-All P m uri ((k, old) ∷ entries) p h = elim (Bool-cases (k == m)) [
  | inl same ↦ let e : m ≡ k = ground arith in rw same (subst (λ c. P (c, uri)) e p, h.1)
  | inr apart ↦ rw apart (h.0, set_minute-All P m uri entries p h.1)
]

set_minute-Apart :
    (m : ℕ) (uri : Text) (entries : List (ℕ × Text))
    → Apart (λ e. e.0) entries
    → Apart (λ e. e.0) (set_minute m uri entries)
unfolding set_minute
set_minute-Apart m uri [] h = (tt, tt)
set_minute-Apart m uri ((k, old) ∷ entries) h = elim (Bool-cases (k == m)) [
  | inl same ↦ rw same h
  | inr apart ↦ rw apart (
    set_minute-All (λ e. k ≢ e.0) m uri entries (ground arith) h.0,
    set_minute-Apart m uri entries h.1,
  )
]

pub values-All :
    (P : Text → Type 0) (entries : List (ℕ × Text))
    → All (λ e. P e.1) entries
    → All P (values entries)
unfolding values
values-All P [] h = tt
values-All P (e ∷ entries) h = (h.0, values-All P entries h.1)

values-Other :
    (m : ℕ) (entries : List (ℕ × Text))
    → All Keyed entries
    → All (λ e. m ≢ e.0) entries
    → All (λ uri. m ≢ minute_of uri) (values entries)
unfolding values
values-Other m [] k h = tt
values-Other m (e ∷ entries) k h = (λ q. h.0 (q ∙ k.0), values-Other m entries k.1 h.1)

pub values-Apart :
    (entries : List (ℕ × Text))
    → All Keyed entries
    → Apart (λ e. e.0) entries
    → Apart minute_of (values entries)
unfolding values
values-Apart [] k h = tt
values-Apart (e ∷ entries) k h = (
  values-Other (minute_of e.1) entries k.1 (subst (λ c. All (λ y. c ≢ y.0) entries) (sym k.0) h.0),
  values-Apart entries k.1 h.1,
)

pub length-values : (entries : List (ℕ × Text)) → length (values entries) ≡ length entries
unfolding values
length-values [] = refl
length-values (e ∷ entries) = ap suc (length-values entries)

minute_of-start : (uri : Text) (t : ℕ) → start_of uri ≡ return t → minute_of uri ≡ t - t % minute
minute_of-start uri t h = rw (h, minute_of) refl

-- What the fold over the files keeps: one entry for each minute, each of the window.
pub record IsByMinute (P : Text → Type 0) (entries : List (ℕ × Text)) : Type 0 where
  pub all : All (λ e. P e.1) entries
  pub keyed : All Keyed entries
  pub apart : Apart (λ e. e.0) entries

pub newest-IsByMinute :
    (P : Text → Type 0) (files : List Text) (entries : List (ℕ × Text)) {out : List (ℕ × Text)}
    → All P files
    → IsByMinute P entries
    → newest files entries ≡ return out
    → IsByMinute P out
unfolding newest
newest-IsByMinute P [] entries p h e = subst (IsByMinute P) (return-eq-return e) h
newest-IsByMinute P (uri ∷ files) entries p h e =
    let (t, start, more) = bind-eq-return (start_of uri) _ e in
    newest-IsByMinute P files (set_minute (t - t % minute) uri entries) p.1
      (record {
        all = set_minute-All (λ x. P x.1) (t - t % minute) uri entries p.0 h.all;
        keyed =
            set_minute-All Keyed (t - t % minute) uri entries (minute_of-start uri t start) h.keyed;
        apart = set_minute-Apart (t - t % minute) uri entries h.apart;
      })
      more
