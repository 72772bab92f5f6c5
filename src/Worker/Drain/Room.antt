-- ===== src/Worker/Drain/Room.antt =====
-- How many messages one turn takes in, and that each of them is counted.
use tiles_processor.Base.{
  ℕ, zero, suc, ◌+◌, ◌-◌, ◌≤◌, ◌≡◌, refl, sym, ap, subst, ◌∙◌, List, [], ◌∷◌, ◌++◌, Option, none,
  some, Text, arith, length, Result, return, raise, pure, and_then, ◌>>◌,
}
use tiles_processor.Rabbit.{Client, Message, poll_one, service_events}
use tiles_processor.Rabbit.Polling.{Counted, poll_one-Counted}
use tiles_processor.Rabbit.Pika.{Amqp}
use tiles_processor.Worker.Drain.{fill, turn}

length-snoc : (xs : List Message) (m : Message) → length (xs ++ m ∷ []) ≡ length xs + 1
length-snoc [] m = refl
length-snoc (x ∷ xs) m = ground (arith, length-snoc xs m)

module _ (amqp : Amqp) (now : Text) (strict round_robin : List Text) where
  -- What taking messages in leaves, from `inflight` and a client with `n` outstanding deliveries.
  abbrev pub TakenIn : (bound n : ℕ) → List Message → Result (List Message) × Client amqp → Type 0
  TakenIn bound n inflight (return ms, d) =
      (length ms ≤ bound) × (d.outstanding_deliveries + length inflight ≡ n + length ms)
  TakenIn bound n inflight (raise e, d) = Unit {0}

  one_more :
      (room n : ℕ) (inflight : List Message) (m : Message)
      (out : Result (List Message) × Client amqp)
      → TakenIn (length (inflight ++ m ∷ []) + room) (n + 1) (inflight ++ m ∷ []) out
      → TakenIn (length inflight + suc room) n inflight out
  one_more room n inflight m (return ms, d) h = ground (arith, length-snoc inflight m)
  one_more room n inflight m (raise e, d) h = tt

  by_found :
      (room : ℕ) (inflight : List Message) (c : Client amqp)
      → ((ms : List Message) (d : Client amqp)
          → TakenIn
              (length ms + room)
              d.outstanding_deliveries
              ms
              (fill amqp now strict round_robin room ms d))
      → (r : Result (Option Message)) (d : Client amqp) → Counted amqp now c r d
      → TakenIn (length inflight + suc room) c.outstanding_deliveries inflight (
          and_then r
            (λ found. elim found [
              | none ↦ pure inflight
              | some m ↦ fill amqp now strict round_robin room (inflight ++ m ∷ [])
            ])
            d)
  by_found room inflight c rest (return none) d h = ground arith
  by_found room inflight c rest (return (some m)) d h =
      let all = inflight ++ m ∷ [] in
      one_more room c.outstanding_deliveries inflight m
        (fill amqp now strict round_robin room all d) (rw (sym h) (rest all d))
  by_found room inflight c rest (raise e) d h = tt

  filled :
      (room : ℕ) (inflight : List Message) (c : Client amqp)
      → TakenIn
          (length inflight + room)
          c.outstanding_deliveries
          inflight
          (fill amqp now strict round_robin room inflight c)
  unfolding fill
  filled zero inflight c = ground arith
  filled (suc room) inflight c =
      let found = poll_one amqp now strict round_robin c in
      by_found room inflight c (filled room) found.0 found.1
        (poll_one-Counted amqp now strict round_robin c)

  serviced :
      (c : Client amqp)
      → (service_events amqp c).1.outstanding_deliveries ≡ c.outstanding_deliveries
  unfolding service_events
  serviced c = ground arith

  serviced_by :
      (bound n : ℕ) (inflight ms : List Message) (r : Result Unit) (d : Client amqp)
      → length ms ≤ bound
      → d.outstanding_deliveries + length inflight ≡ n + length ms
      → TakenIn bound n inflight (and_then r (λ _. pure ms) d)
  serviced_by bound n inflight ms (return _) d h k = (h, k)
  serviced_by bound n inflight ms (raise e) d h k = tt

  then_serviced :
      (bound n : ℕ) (inflight : List Message) (out : Result (List Message) × Client amqp)
      → TakenIn bound n inflight out
      → TakenIn bound n inflight (and_then out.0 (λ ms. service_events amqp >> pure ms) out.1)
  then_serviced bound n inflight (return ms, d) h =
      serviced_by bound n inflight ms (service_events amqp d).0 (service_events amqp d).1 h.0
        (ap (λ (k : ℕ). k + length inflight) (serviced d) ∙ h.1)
  then_serviced bound n inflight (raise e, d) h = tt

  -- A turn of the loop never has more messages in flight than the configured concurrency, and it
  -- counts one outstanding delivery for each message that it took in.
  pub turn-TakenIn :
      (worker_concurrency : ℕ) (inflight : List Message) (c : Client amqp)
      → length inflight ≤ worker_concurrency
      → TakenIn worker_concurrency c.outstanding_deliveries inflight
          (turn amqp now strict round_robin worker_concurrency inflight c)
  unfolding turn
  turn-TakenIn worker_concurrency inflight c fits =
      let room = worker_concurrency - length inflight in
      let whole : length inflight + room ≡ worker_concurrency = omega arith in
      then_serviced worker_concurrency c.outstanding_deliveries inflight
        (fill amqp now strict round_robin room inflight c)
        (subst
          (λ (k : ℕ).
            TakenIn k c.outstanding_deliveries inflight
              (fill amqp now strict round_robin room inflight c))
          whole (filled room inflight c))
