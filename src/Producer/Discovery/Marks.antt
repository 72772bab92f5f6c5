-- ===== src/Producer/Discovery/Marks.antt =====
-- How a tick ends, and the mark of an image whose publish fails.
use tiles_processor.Base.{
  ℕ, ◌+◌, ◌≡◌, refl, Bool, true, false, List, [], ◌∷◌, some, Text, text_eq_iff, arith, member, inl,
  inr, Exception, Result, return, raise, Exec, Result-cases, ◌>>=◌, ◌>>◌,
}
use tiles_processor.Tracker.{fresh, ProgressTracker, mark_in_progress, cleanup_stale}
use tiles_processor.Tracker.Keys.{find, IsKeyed, member-get_in_progress_images}
use tiles_processor.Tracker.Lookup.{queues, apply, row_after, find-apply}
use tiles_processor.Rabbit.Pika.{Amqp}
use tiles_processor.Producer.Routing.{QueueRouter}
use tiles_processor.Producer.Discovery.{
  Config, DataSource, ImageInfo, ImageDiscoveryProducer, band_of, publish_image, publish_images,
  discovery_config, on_tracker, reclaim_if, work_queue_empty, attempt_source, attempt_sources,
  discover_and_publish,
}

mark_found :
    (now : ℕ) (i b : Text) (t : ProgressTracker)
    → IsKeyed t.rows
    → find i b (mark_in_progress now i b t).rows ≡ some (fresh now i b)
unfolding apply row_after
mark_found now i b t k =
    ground (arith, find-apply t (queues now i b) i b k, text_eq_iff i i, text_eq_iff b b)

abbrev Returns : {S A : Type 0} → Result A × S → Type 0
Returns {A = A} out = (a : A) × (out.0 ≡ return a)

then-Returns :
    {S A B : Type 0} (m : Exec S A) (f : A → Exec S B) (p : S)
    → Returns (m p)
    → ((a : A) (q : S) → Returns (f a q))
    → Returns ((m >>= f) p)
then-Returns m f p h k = let (a, e) = h in let (b, g) = k a (m p).1 in (b, rw (e, ◌>>=◌) g)

module _ (amqp : Amqp) (config : Config) (router : QueueRouter) (now : ℕ) (clock_text : Text)
    (uuid : Text → Text) (list_prefixes : Text → Result (List Text)) where
  abbrev P : Type 0
  P = ImageDiscoveryProducer amqp

  attempt_source-returns :
      (s : DataSource) (p : P)
      → (n : ℕ) × ((attempt_source amqp config router now clock_text uuid list_prefixes s p).0
          ≡ return n)
  unfolding attempt_source
  attempt_source-returns s p =
      elim (Result-cases
        (attempt_source amqp config router now clock_text uuid list_prefixes s p).0) [
          | inl (n, e) ↦ (n, e)
          | inr (x, e) ↦ absurd (ground arith)
        ]

  attempt_sources-returns :
      (sources : List DataSource) (total : ℕ) (p : P)
      → (n : ℕ) × ((attempt_sources amqp config router now clock_text uuid list_prefixes sources
            total p).0
          ≡ return n)
  unfolding attempt_sources
  attempt_sources-returns [] total p = (total, refl)
  attempt_sources-returns (s ∷ sources) total p =
      let (n, e) = attempt_source-returns s p in
      let (m, f) =
        attempt_sources-returns sources (total + n)
          (attempt_source amqp config router now clock_text uuid list_prefixes s p).1 in
      (m, rw (e, ◌>>=◌) f)

  work_queue_empty-Returns :
      (p : P) → Returns (work_queue_empty amqp config router now clock_text uuid list_prefixes p)
  unfolding work_queue_empty
  work_queue_empty-Returns p =
      elim (Result-cases
        (work_queue_empty amqp config router now clock_text uuid list_prefixes p).0) [
          | inl (n, e) ↦ (n, e)
          | inr (x, e) ↦ absurd (ground arith)
        ]

  reclaim_if-Returns :
      (drained : Bool) (p : P)
      → Returns (reclaim_if amqp config router now clock_text uuid list_prefixes drained p)
  unfolding reclaim_if
  reclaim_if-Returns true p = (tt, refl)
  reclaim_if-Returns false p = (tt, refl)

  -- A tick never raises: whatever the sources, the object store, the broker and the queue depths
  -- answer, it returns a number of published units.
  pub discover_and_publish-returns :
      (sources : List DataSource) (p : P)
      → (n : ℕ) × ((discover_and_publish amqp config router now clock_text uuid list_prefixes
            sources p).0
          ≡ return n)
  unfolding discover_and_publish
  discover_and_publish-returns sources p =
      let cleaned =
        on_tracker amqp config router now clock_text uuid list_prefixes (cleanup_stale now) p in
      let rest = attempt_sources amqp config router now clock_text uuid list_prefixes sources 0 in
      then-Returns (work_queue_empty amqp config router now clock_text uuid list_prefixes)
        (λ drained. reclaim_if amqp config router now clock_text uuid list_prefixes drained >> rest)
        cleaned.1 (work_queue_empty-Returns cleaned.1)
        (λ drained q.
          then-Returns (reclaim_if amqp config router now clock_text uuid list_prefixes drained)
            (λ _. rest) q (reclaim_if-Returns drained q)
            (λ _ r. attempt_sources-returns sources 0 r))

  -- An image whose publish raised stays marked: the loop ends there, and the image is among those
  -- in progress that the next discovery of the source is given.
  pub publish_images-marked :
      (s : DataSource) (i : ImageInfo) (images : List ImageInfo) (n : ℕ) (e : Exception) (p : P)
      → IsKeyed p.progress_tracker.rows
      → (publish_image amqp config router now clock_text uuid list_prefixes (band_of s) i p).0
        ≡ raise e
      → let out =
          publish_images amqp config router now clock_text uuid list_prefixes
            (band_of s)
            (i ∷ images)
            n
            p in
        let seen =
          (discovery_config amqp config router now clock_text uuid list_prefixes s
            out.1.progress_tracker).in_progress_images in
        (out.0 ≡ raise e) × (member i.image_id seen ≡ true)
  unfolding publish_images publish_image discovery_config
  publish_images-marked s i images n e p k h = ground (
    arith,
    mark_found now i.image_id (band_of s) p.progress_tracker k,
    member-get_in_progress_images i.image_id (band_of s)
        (mark_in_progress now i.image_id (band_of s) p.progress_tracker),
  )
