-- ===== src/Tracker/Lookup.antt =====
-- The tracker seen as a map from keys to rows: what each operation does to one key.
use tiles_processor.Base.{
  inl, inr, ℕ, ◌-◌, ◌≡◌, ◌&&◌, List, [], ◌∷◌, Option, none, some, Text, text_eq, text_eq_iff,
  if◌then◌else◌, arith,
}
use tiles_processor.Tracker.{
  in_progress, processing, Row, ProgressTracker, has_key, is_stale, delete, fresh, grace,
  cleanup_stale, reclaim_orphan_in_progress, mark_in_progress, mark_processing, mark_completed,
  clear_all,
}
use tiles_processor.Tracker.Keys.{
  find, IsKeyed, unless, find-delete, IsKeyed-delete, find-append, IsKeyed-append, find-touch,
  find-delete_self, IsKeyed-touch, find_by_key, find-nil, has_key-of, has_key_self,
}

-- One call of the tracker, with the time that it reads.
pub data Operation : Type 0 where
  cleans : (now : ℕ) → Operation
  reclaims : (now : ℕ) → Option ℕ → Operation
  queues : (now : ℕ) (image_id band_id : Text) → Operation
  starts : (now : ℕ) (image_id band_id : Text) → Operation
  completes : (image_id band_id : Text) → Operation
  clears : Operation

unfoldable pub apply : Operation → ProgressTracker → ProgressTracker
apply (cleans now) t = cleanup_stale now t
apply (reclaims now older_than) t = (reclaim_orphan_in_progress now older_than t).0
apply (queues now image_id band_id) t = mark_in_progress now image_id band_id t
apply (starts now image_id band_id) t = mark_processing now image_id band_id t
apply (completes image_id band_id) t = mark_completed image_id band_id t
apply clears t = clear_all t

-- The map view: the row of a key after a call, from its row before.
unfoldable pub row_after :
    ProgressTracker → Operation → (image_id band_id : Text) → Option Row → Option Row
row_after t (cleans now) i b o = unless (is_stale processing (now - t.ttl)) o
row_after t (reclaims now older) i b o = unless (is_stale in_progress (now - grace older t)) o
row_after t (queues now j c) i b o = if text_eq j i && text_eq c b then some (fresh now j c) else o
row_after t (starts now j c) i b none = none
row_after t (starts now j c) i b (some r) =
    some
      (if text_eq j i && text_eq c b then record r { status = processing; updated_at = now } else r)
row_after t (completes j c) i b o = if text_eq j i && text_eq c b then none else o
row_after t clears i b o = none

-- Each call changes the row of each key as the map view says.
pub find-apply :
    (t : ProgressTracker) (op : Operation) (i b : Text)
    → IsKeyed t.rows
    → find i b (apply op t).rows ≡ row_after t op i b (find i b t.rows)
unfolding apply row_after cleanup_stale reclaim_orphan_in_progress mark_in_progress mark_processing
    mark_completed clear_all
find-apply t (cleans now) i b k = find-delete i b _ t.rows k
find-apply t (reclaims now older) i b k = find-delete i b _ t.rows k
find-apply t (queues now j c) i b k = elim (find_by_key i b j c t.rows) [
  | inl e ↦ ground (
    arith,
    find-append i b (delete (has_key j c) t.rows) (fresh now j c),
    find-delete i b (has_key j c) t.rows k,
    has_key-of j c i b (fresh now j c) (has_key_self (fresh now j c)),
    text_eq_iff i j,
    text_eq_iff j i,
    text_eq_iff b c,
    text_eq_iff c b,
  )
  | inr (r, e, same) ↦ ground (
    arith,
    find-append i b (delete (has_key j c) t.rows) (fresh now j c),
    find-delete i b (has_key j c) t.rows k,
    has_key-of j c i b (fresh now j c) (has_key_self (fresh now j c)),
    text_eq_iff i j,
    text_eq_iff j i,
    text_eq_iff b c,
    text_eq_iff c b,
  )
]
find-apply t (starts now j c) i b k = elim (find_by_key i b j c t.rows) [
  | inl e ↦ ground (arith, find-touch now j c i b t.rows)
  | inr (r, e, same) ↦ ground (arith, find-touch now j c i b t.rows)
]
find-apply t (completes j c) i b k = elim (find_by_key i b j c t.rows) [
  | inl e ↦ ground (arith, find-delete i b (has_key j c) t.rows k)
  | inr (r, e, same) ↦ ground (arith, find-delete i b (has_key j c) t.rows k)
]
find-apply t clears i b k = find-nil i b

-- A history of calls, the first one first.
unfoldable pub run : ProgressTracker → List Operation → ProgressTracker
run t [] = t
run t (op ∷ ops) = run (apply op t) ops

pub apply-IsKeyed :
    (t : ProgressTracker) (op : Operation) → IsKeyed t.rows → IsKeyed (apply op t).rows
unfolding apply cleanup_stale reclaim_orphan_in_progress mark_in_progress mark_processing
    mark_completed clear_all
apply-IsKeyed t (cleans now) k = IsKeyed-delete _ t.rows k
apply-IsKeyed t (reclaims now older) k = IsKeyed-delete _ t.rows k
apply-IsKeyed t (queues now j c) k =
    IsKeyed-append (delete (has_key j c) t.rows) (fresh now j c) (IsKeyed-delete _ t.rows k)
      (find-delete_self j c t.rows k)
apply-IsKeyed t (starts now j c) k = IsKeyed-touch now j c t.rows k
apply-IsKeyed t (completes j c) k = IsKeyed-delete _ t.rows k
apply-IsKeyed t clears k = tt

-- No history of calls ever gives one image of one band two rows.
pub run-IsKeyed :
    (t : ProgressTracker) (ops : List Operation) → IsKeyed t.rows → IsKeyed (run t ops).rows
unfolding run
run-IsKeyed t [] k = k
run-IsKeyed t (op ∷ ops) k = run-IsKeyed (apply op t) ops (apply-IsKeyed t op k)
