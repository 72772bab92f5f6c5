-- ===== src/Metrics/Repository/Pruning.antt =====
-- What is left after a pruning.
use mathlib.Core.List.{reverse, reverse-cons}
use tiles_processor.Base.{
  ℕ, zero, suc, ◌-◌, ◌≤◌, ◌<◌, ◌≡◌, inl, inr, refl, ap, sym, ◌∙◌, Bool, true, not, List, [], ◌∷◌,
  ◌++◌, none, some, arith, ltb, ltb→lt, length, drop, keep, keep_every, get_elem?,
  get_elem?-append_left, get_elem?-append_mid, get_elem?-All, All, All-reverse, All-implies,
  length-reverse, sort_by, insert_by, Bool-cases, length-drop,
}
use tiles_processor.Metrics.Repository.{JobRow, Table, later_id, prune_to_max_rows}

-- The rows go by their ids.
abbrev pub Ascending : List JobRow → Type 0
Ascending [] = Unit {0}
Ascending (r ∷ rows) = All (λ s. r.id < s.id) rows × Ascending rows

insert_by-last :
    (r : JobRow) (rows : List JobRow)
    → All (λ s. r.id < s.id) rows
    → insert_by later_id r rows ≡ rows ++ r ∷ []
unfolding insert_by
insert_by-last r [] h = refl
insert_by-last r (s ∷ rows) h = ground (arith, insert_by-last r rows)

sort_by-reverse : (rows : List JobRow) → Ascending rows → sort_by later_id rows ≡ reverse rows
unfolding sort_by
sort_by-reverse [] h = refl
sort_by-reverse (r ∷ rows) h = rw (sort_by-reverse rows h.1) (
    insert_by-last r (reverse rows) (All-reverse (λ s. r.id < s.id) rows h.0)
    ∙ sym (reverse-cons r rows))

abbrev from_id : ℕ → JobRow → Bool
from_id n r = not (ltb r.id n)

older_goes :
    (r row : JobRow) (rows : List JobRow) (older : ℕ)
    → older < length rows
    → r.id < row.id
    → keep (from_id row.id) rows ≡ drop (length rows - suc older) rows
    → keep (from_id row.id) (r ∷ rows) ≡ drop (length (r ∷ rows) - suc older) (r ∷ rows)
older_goes r row rows older inner after kept =
    let size : length (r ∷ rows) - suc older ≡ suc (length rows - suc older) =
      omega (arith, inner) in
    let goes : keep (from_id row.id) (r ∷ rows) ≡ keep (from_id row.id) rows =
      ground (arith, after) in
    goes ∙ kept ∙ sym (ap (λ (n : ℕ). drop n (r ∷ rows)) size)

-- The row at the cut, counted from the newest on.
cut :
    (rows : List JobRow) (older : ℕ)
    → Ascending rows
    → older < length rows
    → (row : JobRow) × (get_elem? (reverse rows) older ≡ some row)
      × (keep (from_id row.id) rows ≡ drop (length rows - suc older) rows)
cut [] older h lt = absurd (omega arith)
cut (r ∷ rows) older h lt = elim (Bool-cases (ltb older (length rows))) [
  | inl inner ↦
      let inner' = ltb→lt older (length rows) inner in
      let (row, found, kept) = cut rows older h.1 inner' in
      let after : r.id < row.id =
        get_elem?-All (λ s. r.id < s.id) (reverse rows) older row
          (All-reverse (λ s. r.id < s.id) rows h.0) found in
      let there : older < length (reverse rows) = omega (arith, length-reverse rows, inner') in
      (
        row,
        rw (reverse-cons r rows)
            (get_elem?-append_left (reverse rows) (r ∷ []) older there ∙ found),
        older_goes r row rows older inner' after kept,
      )
  | inr last ↦
      let here : older ≡ length (reverse rows) = ground (arith, length-reverse rows, lt, last) in
      let newer = keep_every (from_id r.id) rows (
        All-implies (λ s. r.id < s.id) (λ s. from_id r.id s ≡ true) rows (λ s k. ground (arith, k))
          h.0) in
      (
        r,
        rw (reverse-cons r rows, here) (get_elem?-append_mid (reverse rows) [] r),
        ground (arith, newer, here, length-reverse rows),
      )
]

too_few : (rows : List JobRow) (older : ℕ) → length rows ≤ older → get_elem? rows older ≡ none
too_few [] older h = refl
too_few (r ∷ rows) zero h = absurd (omega (arith, h))
too_few (r ∷ rows) (suc older) h = too_few rows older (omega (arith, h))

-- While the ids ascend, a pruning to at most `max_rows` rows, of at least one, leaves exactly the
-- newest ones, all if they are no more, and reports how many are gone.
pub prune_to_max_rows_lem :
    (max_rows : ℕ) (t : Table)
    → Ascending t.rows
    → 0 < max_rows
    → prune_to_max_rows max_rows t
      ≡ (record t { rows = drop (length t.rows - max_rows) t.rows }, length t.rows - max_rows)
unfolding prune_to_max_rows
prune_to_max_rows_lem zero t h pos = absurd (omega arith)
prune_to_max_rows_lem (suc older) t h pos =
    let sorted = sort_by-reverse t.rows h in
    elim (Bool-cases (ltb older (length t.rows))) [
      | inl many ↦
          let (row, found, kept) = cut t.rows older h (ltb→lt older (length t.rows) many) in
          let size = length-drop (length t.rows - suc older) t.rows in
          rw (sorted, found, prune_to_max_rows) (ground (arith, kept, size, many))
      | inr few ↦
          let none_there =
            too_few (reverse t.rows) older (ground (arith, length-reverse t.rows, few)) in
          rw (sorted, none_there, prune_to_max_rows) (ground (arith, few))
    ]
