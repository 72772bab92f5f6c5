-- ===== src/Producer/Discovery/Backlog.antt =====
-- Queued images over a tick, while messages wait.
use tiles_processor.Base.{
  ℕ, ◌+◌, ◌≡◌, refl, false, List, [], ◌∷◌, some, Text, text_eq, arith, inl, inr, Bool-cases, Result,
  return, raise, Exec, and_then, ◌&&◌,
}
use tiles_processor.Tracker.{
  Row, in_progress, fresh, ProgressTracker, mark_in_progress, cleanup_stale,
}
use tiles_processor.Tracker.Keys.{find, IsKeyed}
use tiles_processor.Tracker.Lookup.{cleans, queues, apply, row_after, find-apply, apply-IsKeyed}
use tiles_processor.Rabbit.Pika.{Amqp}
use tiles_processor.Producer.Routing.{QueueRouter}
use tiles_processor.Producer.Discovery.{
  Config, DataSource, ImageInfo, ImageDiscoveryProducer, band_of, publish_image, publish_images,
  discovery_config, discover_source, discover_with_timeout, on_tracker, reclaim_if,
  work_queue_empty, attempt_source, attempt_sources, discover_and_publish,
}

-- A queued image of a band, in a table that obeys its key.
pub record IsQueued (i b : Text) (t : ProgressTracker) : Type 0 where
  pub keyed : IsKeyed t.rows
  pub row : Row
  pub found : find i b t.rows ≡ some row
  pub status : row.status ≡ in_progress

mark-IsQueued :
    (i b : Text) (now : ℕ) (j c : Text) (t : ProgressTracker)
    → IsQueued i b t
    → IsQueued i b (mark_in_progress now j c t)
unfolding apply row_after
mark-IsQueued i b now j c t q = elim (Bool-cases (text_eq j i && text_eq c b)) [
  | inl same ↦ record {
    keyed = apply-IsKeyed t (queues now j c) q.keyed;
    row = fresh now j c;
    found = ground (arith, find-apply t (queues now j c) i b q.keyed);
    status = refl;
  }
  | inr differ ↦ record {
    keyed = apply-IsKeyed t (queues now j c) q.keyed;
    row = q.row;
    found = ground (arith, q.found, find-apply t (queues now j c) i b q.keyed);
    status = q.status;
  }
]

cleanup-IsQueued :
    (i b : Text) (now : ℕ) (t : ProgressTracker)
    → IsQueued i b t
    → IsQueued i b (cleanup_stale now t)
unfolding apply row_after
cleanup-IsQueued i b now t q = record {
  keyed = apply-IsKeyed t (cleans now) q.keyed;
  row = q.row;
  found = ground (arith, q.found, q.status, find-apply t (cleans now) i b q.keyed);
  status = q.status;
}

and_then-keeps :
    {S A B : Type 0} (Q : S → Type 0) (r : Result A) (f : A → Exec S B) (s : S)
    → Q s
    → ((a : A) (t : S) → Q t → Q (f a t).1)
    → Q (and_then r f s).1
and_then-keeps Q (return a) f s q k = k a s q
and_then-keeps Q (raise e) f s q k = q

module _ (amqp : Amqp) (config : Config) (router : QueueRouter) (now : ℕ) (clock_text : Text)
    (uuid : Text → Text) (list_prefixes : Text → Result (List Text)) where
  abbrev P : Type 0
  P = ImageDiscoveryProducer amqp

  work_queue_empty-tracker :
      (p : P)
      → (work_queue_empty amqp config router now clock_text uuid list_prefixes p).1.progress_tracker
        ≡ p.progress_tracker
  unfolding work_queue_empty
  work_queue_empty-tracker p = ground arith

  module _ (i b : Text) where
    abbrev Queued : P → Type 0
    Queued p = IsQueued i b p.progress_tracker

    publish_images-Queued :
        (band : Text) (images : List ImageInfo) (n : ℕ) (p : P)
        → Queued p
        → Queued
            (publish_images amqp config router now clock_text uuid list_prefixes band images n p).1
    unfolding publish_images publish_image
    publish_images-Queued band [] n p q = q
    publish_images-Queued band (j ∷ images) n p q =
        and_then-keeps Queued
          (publish_image amqp config router now clock_text uuid list_prefixes band j p).0 _
          (publish_image amqp config router now clock_text uuid list_prefixes band j p).1
          (mark-IsQueued i b now j.image_id band p.progress_tracker q)
          (λ _ r h. publish_images-Queued band images (n + 1) r h)

    discover_source-Queued :
        (s : DataSource) (p : P)
        → Queued p
        → Queued (discover_source amqp config router now clock_text uuid list_prefixes s p).1
    unfolding discover_source
    discover_source-Queued s p q =
        and_then-keeps Queued
          (s.discover_images (
            discovery_config amqp config router now clock_text uuid list_prefixes s
              p.progress_tracker))
          _ p q (λ images r h. publish_images-Queued (band_of s) images 0 r h)

    attempt_source-Queued :
        (s : DataSource) (p : P)
        → Queued p
        → Queued (attempt_source amqp config router now clock_text uuid list_prefixes s p).1
    unfolding attempt_source discover_with_timeout
    attempt_source-Queued s p q = ground (arith, discover_source-Queued s p q)

    attempt_sources-Queued :
        (sources : List DataSource) (n : ℕ) (p : P)
        → Queued p
        → Queued
            (attempt_sources amqp config router now clock_text uuid list_prefixes sources n p).1
    unfolding attempt_sources
    attempt_sources-Queued [] n p q = q
    attempt_sources-Queued (s ∷ sources) n p q =
        and_then-keeps Queued
          (attempt_source amqp config router now clock_text uuid list_prefixes s p).0 _
          (attempt_source amqp config router now clock_text uuid list_prefixes s p).1
          (attempt_source-Queued s p q) (λ m r h. attempt_sources-Queued sources (n + m) r h)

    -- While a work queue is not confirmed empty, a tick never forgets a queued image: it is queued
    -- after the tick too, so the next discovery is told that it is in progress.
    pub discover_and_publish-IsQueued :
        (sources : List DataSource) (p : P)
        → IsQueued i b p.progress_tracker
        → let cleaned =
            (on_tracker amqp config router now clock_text uuid list_prefixes
              (cleanup_stale now)
              p).1 in
          (work_queue_empty amqp config router now clock_text uuid list_prefixes cleaned).0
            ≡ return false
          → IsQueued i b
              (discover_and_publish amqp config router now clock_text uuid list_prefixes sources
                p).1.progress_tracker
    unfolding discover_and_publish reclaim_if
    discover_and_publish-IsQueued sources p q backlog =
        let cleaned =
          (on_tracker amqp config router now clock_text uuid list_prefixes (cleanup_stale now)
            p).1 in
        let after =
          (work_queue_empty amqp config router now clock_text uuid list_prefixes cleaned).1 in
        let queued : Queued after =
          rw (work_queue_empty-tracker cleaned) (cleanup-IsQueued i b now p.progress_tracker q) in
        rw backlog (attempt_sources-Queued sources 0 after queued)
