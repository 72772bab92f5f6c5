-- ===== src/Tracker/Reclaim.antt =====
-- How long an entry lives: what gives an image back to discovery, and what does not.
use tiles_processor.Base.{
  ℕ, ◌+◌, ◌-◌, ◌<◌, ◌≡◌, refl, Bool, false, ◌&&◌, List, [], ◌∷◌, Option, none, some, Text, ◌⊎◌, inr,
  text_eq, arith, All, length, keep, ◌∙◌,
}
use tiles_processor.Tracker.{
  delete, is_stale, grace, Row, in_progress, processing, ProgressTracker, cleanup_stale,
  reclaim_orphan_in_progress, mark_in_progress, mark_processing, mark_completed, clear_all,
}
use tiles_processor.Tracker.Keys.{find, IsKeyed}
use tiles_processor.Tracker.Lookup.{
  Operation, cleans, reclaims, queues, starts, completes, clears, apply, run, row_after, find-apply,
  run-IsKeyed, apply-IsKeyed,
}

abbrev same_key : Text → Text → Text → Text → Bool
same_key i b j c = text_eq j i && text_eq c b

-- The call does not queue or start the image again.
abbrev pub IsQuiet : Text → Text → Operation → Type 0
IsQuiet i b (queues _ j c) = same_key i b j c ≡ false
IsQuiet i b (starts _ j c) = same_key i b j c ≡ false
IsQuiet i b _ = Unit {0}

-- The call neither reclaims queued entries nor names the image.
abbrev pub IsElsewhere : Text → Text → Operation → Type 0
IsElsewhere i b (cleans _) = Unit {0}
IsElsewhere i b (reclaims _ _) = ⊥
IsElsewhere i b (queues _ j c) = same_key i b j c ≡ false
IsElsewhere i b (starts _ j c) = same_key i b j c ≡ false
IsElsewhere i b (completes j c) = same_key i b j c ≡ false
IsElsewhere i b clears = ⊥

ttl-apply : (t : ProgressTracker) (op : Operation) → (apply op t).ttl ≡ t.ttl
unfolding apply cleanup_stale reclaim_orphan_in_progress mark_in_progress mark_processing
    mark_completed clear_all
ttl-apply t (cleans _) = refl
ttl-apply t _ = refl

ttl-run : (t : ProgressTracker) (ops : List Operation) → (run t ops).ttl ≡ t.ttl
unfolding run
ttl-run t [] = refl
ttl-run t (op ∷ ops) = ttl-run (apply op t) ops ∙ ttl-apply t op

-- A quiet call keeps the row or drops it.
abbrev GoneOr : Row → Option Row → Type 0
GoneOr r o = (o ≡ none) ⊎ (o ≡ some r)

apply-GoneOr :
    (i b : Text) (r : Row) (t : ProgressTracker) (op : Operation)
    → IsKeyed t.rows
    → IsQuiet i b op
    → GoneOr r (find i b t.rows)
    → GoneOr r (find i b (apply op t).rows)
unfolding row_after
apply-GoneOr i b r t (cleans n) k q h = ground (arith, find-apply t (cleans n) i b k)
apply-GoneOr i b r t (reclaims n o) k q h = ground (arith, find-apply t (reclaims n o) i b k)
apply-GoneOr i b r t (queues n j c) k q h = ground (arith, find-apply t (queues n j c) i b k)
apply-GoneOr i b r t (starts n j c) k q h = ground (arith, find-apply t (starts n j c) i b k)
apply-GoneOr i b r t (completes j c) k q h = ground (arith, find-apply t (completes j c) i b k)
apply-GoneOr i b r t clears k q h = ground (arith, find-apply t clears i b k)

run-GoneOr :
    (i b : Text) (r : Row) (t : ProgressTracker) (ops : List Operation)
    → IsKeyed t.rows
    → All (IsQuiet i b) ops
    → GoneOr r (find i b t.rows)
    → GoneOr r (find i b (run t ops).rows)
unfolding run
run-GoneOr i b r t [] k q h = h
run-GoneOr i b r t (op ∷ ops) k q h =
    run-GoneOr i b r (apply op t) ops (apply-IsKeyed t op k) q.1 (apply-GoneOr i b r t op k q.0 h)

-- An image whose worker is lost: once its PROCESSING row has stayed untouched for longer than the
-- TTL, one cleanup gives the image back to discovery, whatever else the tracker did in between.
pub cleanup_stale-recovers :
    (i b : Text) (r : Row) (t : ProgressTracker) (ops : List Operation) (later : ℕ)
    → IsKeyed t.rows
    → find i b t.rows ≡ some r
    → r.status ≡ processing
    → All (IsQuiet i b) ops
    → r.updated_at + t.ttl < later
    → find i b (cleanup_stale later (run t ops)).rows ≡ none
unfolding apply row_after
cleanup_stale-recovers i b r t ops later k found status quiet old = ground (
  arith,
  find-apply (run t ops) (cleans later) i b (run-IsKeyed t ops k),
  run-GoneOr i b r t ops k quiet (inr found),
  ttl-run t ops,
)

apply-Elsewhere :
    (i b : Text) (r : Row) (t : ProgressTracker) (op : Operation)
    → IsKeyed t.rows
    → IsElsewhere i b op
    → r.status ≡ in_progress
    → find i b t.rows ≡ some r
    → find i b (apply op t).rows ≡ some r
unfolding row_after
apply-Elsewhere i b r t (cleans n) k q s h = ground (arith, find-apply t (cleans n) i b k)
apply-Elsewhere i b r t (reclaims n o) k q s h = absurd q
apply-Elsewhere i b r t (queues n j c) k q s h = ground (arith, find-apply t (queues n j c) i b k)
apply-Elsewhere i b r t (starts n j c) k q s h = ground (arith, find-apply t (starts n j c) i b k)
apply-Elsewhere i b r t (completes j c) k q s h = ground (arith, find-apply t (completes j c) i b k)
apply-Elsewhere i b r t clears k q s h = absurd q

-- A queued image stays tracked, its row unchanged, through any cleanups at any times and any calls
-- for other images, as long as queued entries are not reclaimed: a backlog is never queued twice.
pub queued_survives :
    (i b : Text) (r : Row) (t : ProgressTracker) (ops : List Operation)
    → IsKeyed t.rows
    → find i b t.rows ≡ some r
    → r.status ≡ in_progress
    → All (IsElsewhere i b) ops
    → find i b (run t ops).rows ≡ some r
unfolding run
queued_survives i b r t [] k found status calls = found
queued_survives i b r t (op ∷ ops) k found status calls =
    queued_survives i b r (apply op t) ops (apply-IsKeyed t op k)
      (apply-Elsewhere i b r t op k calls.0 status found) status calls.1

length-delete :
    (p : Row → Bool) (rows : List Row) → length rows ≡ length (delete p rows) + length (keep p rows)
length-delete p [] = refl
length-delete p (r ∷ rows) = ground (arith, length-delete p rows)

-- An orphan reclaim keeps the row of an image that a worker is on, and reports as many rows as are
-- queued and untouched since before its cutoff.
pub reclaim_orphan_in_progress_lem :
    (i b : Text) (t : ProgressTracker) (now : ℕ) (older_than : Option ℕ)
    → IsKeyed t.rows
    → let out = reclaim_orphan_in_progress now older_than t in
      ((r : Row) → r.status ≡ processing → find i b t.rows ≡ some r → find i b out.0.rows ≡ some r)
      × (out.1 ≡ length (keep (is_stale in_progress (now - grace older_than t)) t.rows))
unfolding apply row_after reclaim_orphan_in_progress
reclaim_orphan_in_progress_lem i b t now older_than k = (
  λ r s e. ground (arith, find-apply t (reclaims now older_than) i b k),
  omega (arith, length-delete (is_stale in_progress (now - grace older_than t)) t.rows),
)
