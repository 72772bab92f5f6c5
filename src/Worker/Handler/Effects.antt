-- ===== src/Worker/Handler/Effects.antt =====
-- What one handling does to the tracker, to the scratch directory and to the queue client.
use tiles_processor.Base.{
  ◌>>◌, Result-cases, inl, inr, true, false, ◌≡◌, List, ◌∷◌, Text, Result, return, raise, arith,
  text_eq_iff, text_eq, sym, subst, ◌∙◌, ap, refl, Bool, not, ◌||◌, ◌&&◌, Bool-cases, [], ◌++◌,
  member,
}
use tiles_processor.WorkUnit.{WorkUnit}
use tiles_processor.Tracker.{ProgressTracker, mark_processing, mark_completed}
use tiles_processor.Rabbit.Pika.{Amqp}
use tiles_processor.Worker.Site.{Site, Answers}
use tiles_processor.Worker.Handler.Frame.{SameClient, IsGrown, fetch-Keeps, process-Keeps}
use tiles_processor.Worker.Handler.{
  fetch, process, complete, guarded, make_dirs, cleanup, State, handle, work_dir, metrics_sink,
  without_attempt,
}

module _ (amqp : Amqp) (answers : Answers amqp) (u : WorkUnit) where
  -- The tracker after a handling that ended so.
  abbrev pub tracker_after : Result Unit → ProgressTracker → ProgressTracker
  tracker_after (return _) t =
      mark_completed u.image_id u.band_id (mark_processing answers.now u.image_id u.band_id t)
  tracker_after (raise _) t = mark_processing answers.now u.image_id u.band_id t

  abbrev completed_if : Result Unit → ProgressTracker → ProgressTracker
  completed_if (return _) t = mark_completed u.image_id u.band_id t
  completed_if (raise _) t = t

  -- The state in which they start.
  abbrev started : State amqp answers u → State amqp answers u
  started (s, c) = (
    make_dirs amqp answers u
        (record s { tracker = mark_processing answers.now u.image_id u.band_id s.tracker }),
    c,
  )

  -- What the statements under `try` leave.
  record Guarded (s t : Site amqp) (r : Result Unit) : Type 0 where
    tracker : t.tracker ≡ completed_if r s.tracker
    scratch : IsGrown answers.left s.scratch t.scratch
    base_dir : t.base_dir ≡ s.base_dir
    client : answers.is_inline u.processor_id ≡ false → SameClient amqp s.client t.client

  processed :
      (path : Text) (st : State amqp answers u)
      → let out = (process amqp answers u path >> complete amqp answers u) st in
        Guarded st.0 out.1.0 out.0
  unfolding complete
  processed path st =
      let same = (process-Keeps amqp answers u path).at st in
      let same_paths : ((process amqp answers u path >> complete amqp answers u) st).1.0.scratch
          ≡ (process amqp answers u path st).1.0.scratch =
        ground arith in
      record {
        tracker = ground arith;
        scratch = subst (IsGrown answers.left st.0.scratch) (sym same_paths) same.scratch;
        base_dir = ground arith;
        client = λ h. ground (arith, same.client h);
      }

  guarded-Guarded :
      (st : State amqp answers u)
      → Guarded st.0 (guarded amqp answers u st).1.0 (guarded amqp answers u st).0
  unfolding guarded
  guarded-Guarded st = elim (Result-cases (fetch amqp answers u st).0) [
    | inl (path, e) ↦
        ground
          (arith, (fetch-Keeps amqp answers u).at st, processed path (fetch amqp answers u st).1)
    | inr (x, e) ↦ ground (arith, (fetch-Keeps amqp answers u).at st)
  ]

  -- The image's entry is armed with the TTL before anything can fail, and it is dropped exactly if
  -- the handling succeeds.
  pub handle-tracker :
      (st : State amqp answers u)
      → (handle amqp answers u st).1.0.tracker
        ≡ tracker_after (handle amqp answers u st).0 st.0.tracker
  unfolding handle make_dirs cleanup
  handle-tracker st = ground (arith, guarded-Guarded (started st))

  -- The attempt's work directory and its sink.
  abbrev pub is_own : (base_dir p : Text) → Bool
  is_own base_dir p =
      text_eq p (work_dir amqp answers u base_dir)
      || text_eq p (metrics_sink amqp answers u base_dir)

  member-without_attempt :
      (base p : Text) (paths : List Text)
      → member p (without_attempt amqp answers u base paths)
        ≡ (member p paths && not (is_own base p))
  unfolding without_attempt member
  member-without_attempt base p [] = refl
  member-without_attempt base p (q ∷ paths) = elim (Bool-cases (text_eq q p)) [
    | inl same ↦
        let e : is_own base q ≡ is_own base p = ap (is_own base) ((text_eq_iff q p).0 same) in
        ground (arith, same, e, member-without_attempt base p paths)
    | inr apart ↦ ground (arith, apart, member-without_attempt base p paths)
  ]

  member-cleanup :
      (p : Text) (st : State amqp answers u)
      → answers.removes ≡ true
      → member p (cleanup amqp answers u st).0.scratch
        ≡ (member p st.0.scratch && not (is_own st.0.base_dir p))
  unfolding cleanup
  member-cleanup p st works = simp works (member-without_attempt st.0.base_dir p st.0.scratch)

  handled :
      (st : State amqp answers u)
      → answers.has_source u.data_source_id ≡ true
      → (handle amqp answers u st).1
        ≡ cleanup amqp answers u (guarded amqp answers u (started st)).1
  unfolding handle
  handled st known = ground (arith, known)

  other_way : (a b : Text) → text_eq a b ≡ text_eq b a
  other_way a b = elim (Bool-cases (text_eq a b)) [
    | inl same ↦ same ∙ sym ((text_eq_iff b a).1 (sym ((text_eq_iff a b).0 same)))
    | inr apart ↦ elim (Bool-cases (text_eq b a)) [
      | inl same ↦ (text_eq_iff a b).1 (sym ((text_eq_iff b a).0 same)) ∙ sym same
      | inr apart' ↦ apart ∙ sym apart'
    ]
  ]

  -- If the unit's source is known and removing works, then after any outcome the attempt's work
  -- directory and its sink are gone, and every other path that was there still is. What is new is at
  -- most the directory of the band, and what the child made elsewhere and left.
  pub handle-scratch :
      (st : State amqp answers u) (p : Text)
      → answers.has_source u.data_source_id ≡ true
      → answers.removes ≡ true
      → let base = st.0.base_dir in
        let before = member p st.0.scratch in
        let after = member p (handle amqp answers u st).1.0.scratch in
        let new = member p answers.left || text_eq (base ++ b'/' ∷ u.band_id) p in
        ((is_own base p && after) ≡ false)
        × ((before && not (is_own base p) && not after) ≡ false)
        × ((after && not (before || new)) ≡ false)
  unfolding make_dirs member
  handle-scratch st p known works =
      let base = st.0.base_dir in
      let end = (guarded amqp answers u (started st)).1 in
      let h = guarded-Guarded (started st) in
      let grown = h.scratch p in
      let e : member p (handle amqp answers u st).1.0.scratch
          ≡ (member p end.0.scratch && not (is_own end.0.base_dir p)) =
        ap (λ t. member p t.0.scratch) (handled st known) ∙ member-cleanup p end works in
      let b : is_own end.0.base_dir p ≡ is_own base p = ap (λ d. is_own d p) h.base_dir in
      let w = other_way p (work_dir amqp answers u base) in
      let s = other_way p (metrics_sink amqp answers u base) in ground (arith, e, b, grown, w, s)

  -- Handling a unit whose processor runs in a child does not touch the wire, nor the count of
  -- outstanding deliveries.
  pub handle-client :
      (st : State amqp answers u)
      → answers.is_inline u.processor_id ≡ false
      → SameClient amqp st.0.client (handle amqp answers u st).1.0.client
  unfolding handle make_dirs cleanup
  handle-client st child = ground (arith, (guarded-Guarded (started st)).client child)
