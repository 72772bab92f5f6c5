-- ===== src/Metrics/Repository/Windows.antt =====
-- Reading the table in parts: windows of time, and pages.
use mathlib.Core.List.{map-append}
use tiles_processor.Base.{
  ℕ, zero, suc, ◌+◌, ◌≤◌, ◌<◌, ◌≡◌, refl, ap, sym, ◌∙◌, Bool, true, not, ◌&&◌, List, [], ◌∷◌, ◌++◌,
  map, Option, some, Text, arith, if◌then◌else◌, text_leb, text_leb_trans, sort_by, length, take,
  drop, keep,
}
use tiles_processor.Metrics.Repository.{
  JobRow, Table, Json, is_before, later_finish, is_wanted, page, recent_jobs, timeline_rows,
  job_to_dict,
}

count_split :
    (p q r s : JobRow → Bool) (rows : List JobRow)
    → ((x : JobRow) → (if q x then 1 else 0) ≡ (if r x then 1 else 0) + (if s x then 1 else 0))
    → length (keep p (keep q rows)) ≡ length (keep p (keep r rows)) + length (keep p (keep s rows))
count_split p q r s [] h = omega arith
count_split p q r s (x ∷ rows) h = ground (arith, h x, count_split p q r s rows h)

in_one :
    (x y z f : Text)
    → text_leb x y ≡ true
    → text_leb y z ≡ true
    → (if text_leb x f && not (text_leb z f) then 1 else 0)
      ≡ (if text_leb x f && not (text_leb y f) then 1 else 0)
        + (if text_leb y f && not (text_leb z f) then 1 else 0)
in_one x y z f h k = ground (arith, text_leb_trans x y f h, text_leb_trans y z f k)

-- The rows of a window are those of its two parts, each in one of them: of the rows that pass any
-- test, the whole has as many as the parts together.
pub timeline_rows-split :
    (since mid before : Text) (p : JobRow → Bool) (t : Table)
    → text_leb since mid ≡ true
    → text_leb mid before ≡ true
    → 0 < length mid
    → length (keep p (timeline_rows since (some before) t))
      ≡ length (keep p (timeline_rows since (some mid) t))
        + length (keep p (timeline_rows mid (some before) t))
unfolding timeline_rows
timeline_rows-split since [] before p t h k pos = absurd (omega arith)
timeline_rows-split since (x ∷ mid) [] p t h k pos = absurd (unfold text_leb in ground (arith, k))
timeline_rows-split since (x ∷ mid) (y ∷ before) p t h k pos =
    count_split p (λ r. text_leb since r.columns.finished_at && is_before (some (y ∷ before)) r)
      (λ r. text_leb since r.columns.finished_at && is_before (some (x ∷ mid)) r)
      (λ r. text_leb (x ∷ mid) r.columns.finished_at && is_before (some (y ∷ before)) r) t.rows
      (λ r. in_one since (x ∷ mid) (y ∷ before) r.columns.finished_at h k)

module _ {A : Type 0} where
  drop-nil : (n : ℕ) → drop {A = A} n [] ≡ []
  drop-nil zero = refl
  drop-nil (suc n) = refl

  take-nil : (n : ℕ) → take {A = A} n [] ≡ []
  take-nil zero = refl
  take-nil (suc n) = refl

  drop-drop : (m n : ℕ) (xs : List A) → drop n (drop m xs) ≡ drop (m + n) xs
  drop-drop zero n xs = ground arith
  drop-drop (suc m) n [] = drop-nil n ∙ sym (drop-nil (suc m + n))
  drop-drop (suc m) n (x ∷ xs) =
      let e : suc m + n ≡ suc (m + n) = omega arith in rw e (drop-drop m n xs)

  take-append-take : (n m : ℕ) (xs : List A) → take n xs ++ take m (drop n xs) ≡ take (n + m) xs
  take-append-take zero m xs = ground arith
  take-append-take (suc n) m [] = take-nil m ∙ sym (take-nil (suc n + m))
  take-append-take (suc n) m (x ∷ xs) =
      let e : suc n + m ≡ suc (n + m) = omega arith in
      rw e (ap (λ rest. x ∷ rest) (take-append-take n m xs))

page_lem :
    (limit offset : ℕ) (json : Json) (rows : List JobRow)
    → 0 < limit
    → limit ≤ 1000
    → page json limit offset rows ≡ take limit (drop offset rows)
page_lem zero offset json rows pos most = absurd (omega arith)
page_lem (suc limit) offset json rows pos most = ground arith

-- Two pages, one after the other, are the page of both sizes, if that is at most 1000.
pub recent_jobs-pages :
    (json : Json) (n m offset : ℕ) (job_type outcome since before : Option Text) (t : Table)
    → 0 < n
    → 0 < m
    → n + m ≤ 1000
    → recent_jobs json n job_type outcome offset since before t
        ++ recent_jobs json m job_type outcome (offset + n) since before t
      ≡ recent_jobs json (n + m) job_type outcome offset since before t
unfolding recent_jobs
recent_jobs-pages json n m offset job_type outcome since before t hn hm most =
    let wanted = sort_by later_finish (keep (is_wanted job_type outcome since before) t.rows) in
    let first = page_lem n offset json wanted hn (omega (arith, most)) in
    let second = page_lem m (offset + n) json wanted hm (omega (arith, most)) in
    let both = page_lem (n + m) offset json wanted (omega (arith, hn)) most in
    rw (first, second, both)
      (sym (
          map-append (job_to_dict json) (take n (drop offset wanted))
            (take m (drop (offset + n) wanted)))
        ∙ ap (map (job_to_dict json))
            (rw (sym (drop-drop offset n wanted)) (take-append-take n m (drop offset wanted))))
