-- ===== src/Worker/Handler/Frame.antt =====
-- The frame of fetching and processing: what of the worker they may change.
use tiles_processor.Base.{
  List, ◌++◌, ◌||◌, member, member-append, Bool, true, false, ◌≡◌, refl, ◌∙◌, Text, Exec, branch,
  Exception, Result, and_then, recover, return, raise, arith, some, ◌>>=◌, lift, try_except,
}
use tiles_processor.WorkUnit.{WorkUnit}
use tiles_processor.Rabbit.{Client}
use tiles_processor.Rabbit.Pika.{Amqp}
use tiles_processor.Worker.Metrics.{JobMetricsContext}
use tiles_processor.Worker.Site.{Site, Answers, signal_handler, interrupt, on_client}
use tiles_processor.Worker.Handler.{
  State, fetch, download, collector, process, process_inline, process_child, translate, on_site,
  leave,
}

-- What was there is there still, and the rest is among `left`.
abbrev pub IsGrown : (left before after : List Text) → Type 0
IsGrown left before after =
    (p : Text)
    → (member p before ≡ true → member p after ≡ true)
      × (member p after ≡ true → (member p left || member p before) ≡ true)

pub IsGrown-refl : (left paths : List Text) → IsGrown left paths paths
IsGrown-refl left paths p = (λ h. h, λ h. ground (arith, h))

pub IsGrown-trans :
    (left a b c : List Text) → IsGrown left a b → IsGrown left b c → IsGrown left a c
IsGrown-trans left a b c h k p = (λ m. (k p).0 ((h p).0 m), λ m. ground (arith, (k p).1 m, (h p).1))

pub IsGrown-append : (left paths : List Text) → IsGrown left paths (left ++ paths)
IsGrown-append left paths p = (
  λ h. ground (arith, h, member-append p left paths),
  λ h. ground (arith, h, member-append p left paths),
)

module _ (amqp : Amqp) where
  -- The client of `t` is that of `s`, but for the flag that a signal lowers.
  pub record SameClient (s t : Client amqp) : Type 0 where
    pub wire : t.wire ≡ s.wire
    pub outstanding_deliveries : t.outstanding_deliveries ≡ s.outstanding_deliveries
    pub has_connection : t.has_connection ≡ s.has_connection
    pub has_channel : t.has_channel ≡ s.has_channel
    pub queue_name : t.queue_name ≡ s.queue_name
    pub dlq_name : t.dlq_name ≡ s.dlq_name
    pub dlx_name : t.dlx_name ≡ s.dlx_name

  pub SameClient-refl : (s : Client amqp) → SameClient s s
  SameClient-refl s = ground arith

  pub SameClient-trans : {s t v : Client amqp} → SameClient s t → SameClient t v → SameClient s v
  SameClient-trans p q = ground arith

module _ (amqp : Amqp) (left : List Text) where
  -- An inline processor uses the queue client; nothing else does.
  pub record Same (is_inline : Bool) (s t : Site amqp) : Type 0 where
    pub tracker : t.tracker ≡ s.tracker
    pub scratch : IsGrown left s.scratch t.scratch
    pub base_dir : t.base_dir ≡ s.base_dir
    pub metrics : t.metrics ≡ s.metrics
    pub client : is_inline ≡ false → SameClient amqp s.client t.client

  pub Same-refl : (is_inline : Bool) (s : Site amqp) → Same is_inline s s
  Same-refl is_inline s = record {
    tracker = refl;
    scratch = IsGrown-refl left s.scratch;
    base_dir = refl;
    metrics = refl;
    client = λ _. SameClient-refl amqp s.client;
  }

  pub Same-trans :
      {is_inline : Bool} {s t v : Site amqp}
      → Same is_inline s t
      → Same is_inline t v
      → Same is_inline s v
  Same-trans p q = record {
    tracker = q.tracker ∙ p.tracker;
    scratch = IsGrown-trans left _ _ _ p.scratch q.scratch;
    base_dir = q.base_dir ∙ p.base_dir;
    metrics = q.metrics ∙ p.metrics;
    client = λ h. SameClient-trans amqp (p.client h) (q.client h);
  }

  pub interrupt-Same :
      (is_inline arrived : Bool) (s : Site amqp) → Same is_inline s (interrupt amqp arrived s).1
  unfolding signal_handler
  interrupt-Same is_inline true s = record {
    tracker = refl;
    scratch = IsGrown-refl left s.scratch;
    base_dir = refl;
    metrics = refl;
    client = λ _. record {
      wire = refl;
      outstanding_deliveries = refl;
      has_connection = refl;
      has_channel = refl;
      queue_name = refl;
      dlq_name = refl;
      dlx_name = refl;
    };
  }
  interrupt-Same is_inline false s = Same-refl is_inline s

module _ (amqp : Amqp) (answers : Answers amqp) (u : WorkUnit) where
  abbrev inlined : Bool
  inlined = answers.is_inline u.processor_id

  -- The statement changes no more than the flags, the collector and, for an inline processor, the
  -- queue client.
  pub record Keeps {A : Type 0} (m : Exec (State amqp answers u) A) : Type 0 where
    pub at : (st : State amqp answers u) → Same amqp answers.left inlined st.0 (m st).1.0

  and_then-Same :
      {A B : Type 0} (r : Result A) (f : A → Exec (State amqp answers u) B)
      → ((a : A) → Keeps (f a))
      → (st : State amqp answers u) → Same amqp answers.left inlined st.0 (and_then r f st).1.0
  and_then-Same (return a) f h st = (h a).at st
  and_then-Same (raise e) f h st = Same-refl amqp answers.left inlined st.0

  bind-Keeps :
      {A B : Type 0} {m : Exec (State amqp answers u) A} {f : A → Exec (State amqp answers u) B}
      → Keeps m
      → ((a : A) → Keeps (f a))
      → Keeps (m >>= f)
  bind-Keeps {m = m} {f = f} h k = record {
    at = λ st. Same-trans amqp answers.left (h.at st) (and_then-Same (m st).0 f k (m st).1);
  }

  recover-Same :
      {A : Type 0} (r : Result A) (f : Exception → Exec (State amqp answers u) A)
      → ((e : Exception) → Keeps (f e))
      → (st : State amqp answers u) → Same amqp answers.left inlined st.0 (recover r f st).1.0
  recover-Same (return a) f h st = Same-refl amqp answers.left inlined st.0
  recover-Same (raise e) f h st = (h e).at st

  try_except-Keeps :
      {A : Type 0} {m : Exec (State amqp answers u) A}
      {f : Exception → Exec (State amqp answers u) A}
      → Keeps m
      → ((e : Exception) → Keeps (f e))
      → Keeps (try_except m f)
  try_except-Keeps {m = m} {f = f} h k = record {
    at = λ st. Same-trans amqp answers.left (h.at st) (recover-Same (m st).0 f k (m st).1);
  }

  branch-Keeps :
      {A : Type 0} (b : Bool) {m n : Exec (State amqp answers u) A}
      → (b ≡ true → Keeps m)
      → Keeps n
      → Keeps (branch b m n)
  branch-Keeps true h k = record { at = (h refl).at }
  branch-Keeps false h k = record { at = k.at }

  interrupt-Keeps : (arrived : Bool) → Keeps (on_site amqp answers u (interrupt amqp arrived))
  interrupt-Keeps arrived = record {
    at = λ st. interrupt-Same amqp answers.left inlined arrived st.0;
  }

  lift-Keeps : {A : Type 0} (r : Result A) → Keeps (lift r)
  lift-Keeps r = record { at = λ st. Same-refl amqp answers.left inlined st.0 }

  collector-Keeps : (f : JobMetricsContext → JobMetricsContext) → Keeps (collector amqp answers u f)
  collector-Keeps f = record { at = λ st. Same-refl amqp answers.left inlined st.0 }

  client-Keeps :
      {A : Type 0} (m : Exec (Client amqp) A)
      → inlined ≡ true
      → Keeps (on_site amqp answers u (on_client amqp m))
  client-Keeps m e = record {
    at = λ st. record {
      tracker = refl;
      scratch = IsGrown-refl answers.left st.0.scratch;
      base_dir = refl;
      metrics = refl;
      client = λ h. cc;
    };
  }

  leave-Keeps : Keeps (leave amqp answers u)
  unfolding leave
  leave-Keeps = record {
    at = λ st. record {
      tracker = refl;
      scratch = IsGrown-append answers.left st.0.scratch;
      base_dir = refl;
      metrics = refl;
      client = λ _. SameClient-refl amqp st.0.client;
    };
  }

  ruleset rules = (
    leave-Keeps, bind-Keeps, try_except-Keeps, branch-Keeps, interrupt-Keeps, lift-Keeps,
    collector-Keeps, client-Keeps,
  )

  download-Keeps : Keeps (download amqp answers u)
  unfolding download
  download-Keeps = search rules

  translate-Keeps : (e : Exception) → Keeps (translate amqp answers u e)
  unfolding translate
  translate-Keeps e = record { at = λ st. ground arith }

  pub fetch-Keeps : Keeps (fetch amqp answers u)
  unfolding fetch
  fetch-Keeps = search (rules, download-Keeps, translate-Keeps)

  process_inline-Keeps : (path : Text) → inlined ≡ true → Keeps (process_inline amqp answers u path)
  unfolding process_inline
  process_inline-Keeps path e = search rules

  process_child-Keeps : (path : Text) → Keeps (process_child amqp answers u path)
  unfolding process_child
  process_child-Keeps path = search rules

  pub process-Keeps : (path : Text) → Keeps (process amqp answers u path)
  unfolding process
  process-Keeps path =
      bind-Keeps (branch-Keeps inlined (process_inline-Keeps path) (process_child-Keeps path))
        (λ _. collector-Keeps (λ c. record c { process_s = some answers.process_time }))
