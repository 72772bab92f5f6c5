-- ===== src/Worker/Drain/Shutdown.antt =====
-- What the loop has taken in, settled and in flight when it stops.
use mathlib.Core.List.{append-nil, append_assoc}
use tiles_processor.Base.{
  ℕ, ◌≤◌, ◌≡◌, refl, sym, subst, Bool, true, false, not, ◌||◌, List, [], ◌∷◌, ◌++◌, Text, arith,
  length, keep, inl, inr, Bool-cases, Result, return, raise, pure, and_then, ◌>>=◌, ◌>>◌, ◌&&◌,
  ◌==◌,
}
use tiles_processor.Rabbit.{Client, Message, stop_consuming}
use tiles_processor.Rabbit.Pika.{Amqp}
use tiles_processor.Worker.Site.{Site, Answers, interrupt, signal_handler}
use tiles_processor.Worker.Messages.{WorkerConfig, consume_tiers, process_message_async}
use tiles_processor.Worker.Drain.{
  turn, Round, Progress, nothing_yet, after_wait, settle, drain_inflight, wait, drain,
}
use tiles_processor.Worker.Drain.Room.{TakenIn, turn-TakenIn}
use tiles_processor.Worker.Drain.Accounts.{
  count-append, IsAccounted, after_wait-IsAccounted, Extends, turn-Extends,
}

abbrev pub any_signal : List Round → Bool
any_signal [] = false
any_signal (r ∷ rounds) = r.signal || any_signal rounds

abbrev Fits : (worker_concurrency : ℕ) → Result (List Message) → Type 0
Fits n (return ms) = length ms ≤ n
Fits n (raise e) = Unit {0}

TakenIn-Fits :
    (amqp : Amqp) (now : Text) (strict round_robin : List Text) (n k : ℕ) (inflight : List Message)
    (out : Result (List Message) × Client amqp)
    → TakenIn amqp now strict round_robin n k inflight out
    → Fits n out.0
TakenIn-Fits amqp now strict round_robin n k inflight (return ms, d) h = h.0
TakenIn-Fits amqp now strict round_robin n k inflight (raise e, d) h = tt

module _ (amqp : Amqp) (config : WorkerConfig) (worker_concurrency : ℕ) (now : Text)
    (answers : Message → Answers amqp) where
  -- From one site to another by the handling of messages, one by one in this order. In between there
  -- are only calls of the queue client and signals.
  pub data Handled (s : Site amqp) : List Message → Site amqp → Type 0 where
    none_yet : Handled s [] s
    handles :
        {ms : List Message} {t : Site amqp} (m : Message)
        → Handled s ms t
        → Handled s (ms ++ m ∷ []) (process_message_async amqp (answers m) m.0 m.1 m.2 t).1
    polls :
        {ms : List Message} {t : Site amqp} (c : Client amqp)
        → Handled s ms t
        → Handled s ms (record t { client = c })
    signals :
        {ms : List Message} {t : Site amqp}
        → Handled s ms t
        → Handled s ms (signal_handler amqp t).1

  settle-Handled :
      {s : Site amqp} {ms : List Message} (new : List Message) (t : Site amqp)
      → Handled s ms t
      → Handled s (ms ++ new) (settle amqp config worker_concurrency now answers new t)
  unfolding settle
  settle-Handled {s} {ms} [] t h = subst (λ l. Handled s l t) (sym (append-nil ms)) h
  settle-Handled {s} {ms} (m ∷ new) t h =
      subst (λ l. Handled s l (settle amqp config worker_concurrency now answers (m ∷ new) t))
        (append_assoc ms (m ∷ []) new)
        (settle-Handled new (process_message_async amqp (answers m) m.0 m.1 m.2 t).1 (handles m h))

  interrupt-Handled :
      {s : Site amqp} {ms : List Message} (arrived : Bool) (t : Site amqp)
      → Handled s ms t
      → Handled s ms (interrupt amqp arrived t).1
  interrupt-Handled false t h = h
  interrupt-Handled true t h = signals h

  -- Where a loop that returned stands.
  abbrev pub Stands : (s : Site amqp) (rounds : List Round) → Result Progress × Site amqp → Type 0
  Stands s rounds (raise e, t) = Unit {0}
  Stands s rounds (return p, t) =
      IsAccounted worker_concurrency p
      × Handled s p.settled t
      × ((not p.over || (length p.inflight == 0)) ≡ true)
      × ((p.over || (t.running && not (any_signal rounds))) ≡ true)

  stopped :
      (s0 : Site amqp) (rounds : List Round) (p : Progress) (s : Site amqp)
      → IsAccounted worker_concurrency p
      → Handled s0 p.settled s
      → Stands s0 rounds (drain_inflight amqp config worker_concurrency now answers p s)
  unfolding drain_inflight
  stopped s0 rounds p s h done = (
    record {
      bounded = omega arith;
      counted = λ q. omega (arith, h.counted q, count-append q p.settled p.inflight);
    },
    settle-Handled p.inflight s done,
    refl,
    refl,
  )

  drain_stopped :
      (rounds : List Round) (p : Progress) (s : Site amqp)
      → s.running ≡ false
      → drain amqp config worker_concurrency now answers rounds p s
        ≡ drain_inflight amqp config worker_concurrency now answers p s
  unfolding drain
  drain_stopped [] p s off = rw off refl
  drain_stopped (r ∷ rounds) p s off = rw off refl

  signalled :
      (s : Site amqp)
      → ((signal_handler amqp s).0 ≡ return tt) × ((signal_handler amqp s).1.running ≡ false)
  unfolding signal_handler stop_consuming
  signalled s = (refl, refl)

  no_signal :
      (s0 : Site amqp) (r : Round) (rounds : List Round) (out : Result Progress × Site amqp)
      → r.signal ≡ false
      → Stands s0 rounds out
      → Stands s0 (r ∷ rounds) out
  no_signal s0 r rounds (return p, t) quiet (h, d, k, m) = (h, d, k, rw quiet m)
  no_signal s0 r rounds (raise e, t) quiet h = tt

  module _ (s0 : Site amqp) (r : Round) (rounds : List Round) (p : Progress)
      (h : IsAccounted worker_concurrency p)
      (rest : (q : Progress) (t : Site amqp)
        → q.over ≡ false
        → IsAccounted worker_concurrency q
        → Handled s0 q.settled t
        → Stands s0 rounds (drain amqp config worker_concurrency now answers rounds q t)) where
    interrupted :
        (signal : Bool) (q : Progress) (t : Site amqp)
        → r.signal ≡ signal
        → q.over ≡ false
        → IsAccounted worker_concurrency q
        → Handled s0 q.settled t
        → Stands s0 (r ∷ rounds) (
            ((interrupt amqp signal >> pure q) >>= λ q.
            drain amqp config worker_concurrency now answers rounds q)
              t)
    unfolding signal_handler stop_consuming
    interrupted false q t quiet o k done =
        no_signal s0 r rounds (drain amqp config worker_concurrency now answers rounds q t) quiet
          (rest q t o k done)
    interrupted true q t noisy o k done =
        let u = (signal_handler amqp t).1 in
        rw (drain_stopped rounds q u refl) (stopped s0 (r ∷ rounds) q u k (signals done))

    waited :
        (new : List Message) (t : Site amqp)
        → length (p.inflight ++ new) ≤ worker_concurrency
        → Handled s0 p.settled t
        → Stands s0 (r ∷ rounds) (
            (wait amqp config worker_concurrency now answers r (p.inflight ++ new) p >>= λ q.
            drain amqp config worker_concurrency now answers rounds q)
              t)
    unfolding wait
    waited new t fits done =
        interrupted r.signal (after_wait r.done (p.inflight ++ new) p)
          (settle amqp config worker_concurrency now answers (keep r.done (p.inflight ++ new)) t)
          refl refl (after_wait-IsAccounted worker_concurrency r.done new p fits h)
          (settle-Handled (keep r.done (p.inflight ++ new)) t done)

    taken_in :
        (out : Result (List Message)) (t : Site amqp)
        → Extends amqp now (consume_tiers config).0 (consume_tiers config).1 p.inflight out
        → Fits worker_concurrency out
        → Handled s0 p.settled t
        → Stands s0 (r ∷ rounds) (
            and_then out
              (λ filled. wait amqp config worker_concurrency now answers r filled p >>= λ q.
                drain amqp config worker_concurrency now answers rounds q)
              t)
    taken_in (return ms) t (new, e) fits done =
        subst
          (λ ms. Stands s0 (r ∷ rounds) (
            (wait amqp config worker_concurrency now answers r ms p >>= λ q.
            drain amqp config worker_concurrency now answers rounds q)
              t))
          (sym e) (waited new t (subst (λ ms. length ms ≤ worker_concurrency) e fits) done)
    taken_in (raise e) t x fits done = tt

  drain-Stands :
      (s0 : Site amqp) (rounds : List Round) (p : Progress) (s : Site amqp)
      → p.over ≡ false
      → IsAccounted worker_concurrency p
      → Handled s0 p.settled s
      → Stands s0 rounds (drain amqp config worker_concurrency now answers rounds p s)
  unfolding drain
  drain-Stands s0 [] p s o h done = elim (Bool-cases s.running) [
    | inl on ↦ simp on (h, done, ground (arith, o), ground (arith, on))
    | inr off ↦ simp off (stopped s0 [] p s h done)
  ]
  drain-Stands s0 (r ∷ rounds) p s o h done = elim (Bool-cases s.running) [
    | inr off ↦ simp off (stopped s0 (r ∷ rounds) p s h done)
    | inl on ↦
        let tiers = consume_tiers config in
        let taken = turn amqp now tiers.0 tiers.1 worker_concurrency p.inflight s.client in
        rw on (
          taken_in s0 r rounds p h (drain-Stands s0 rounds) taken.0
            (record s { client = taken.1; running = true })
            (turn-Extends amqp now tiers.0 tiers.1 worker_concurrency p.inflight s.client)
            (TakenIn-Fits amqp now tiers.0 tiers.1 worker_concurrency
              s.client.outstanding_deliveries p.inflight taken
              (turn-TakenIn amqp now tiers.0 tiers.1 worker_concurrency p.inflight s.client
                h.bounded))
            (subst (λ b. Handled s0 p.settled (record s { client = taken.1; running = b })) on
              (polls taken.1 done)))
  ]

  -- A loop that returns after any rounds never has more in flight than the concurrency, and each message
  -- that it took in was handled to its end, with success or not, or is in flight, exactly as often as it
  -- was taken in. The site is what handling those messages, one by one in the order in which they
  -- finished, made of it, but for changes of the queue client and signals in between. The loop is over if
  -- a signal came in one of the rounds, whatever the schedule, and once it is over nothing is in flight.
  pub drain-settles :
      (rounds : List Round) (s : Site amqp)
      → Stands s rounds (drain amqp config worker_concurrency now answers rounds nothing_yet s)
  drain-settles rounds s =
      drain-Stands s rounds nothing_yet s refl
        (record { bounded = omega arith; counted = λ q. refl }) none_yet
