-- ===== src/Worker/Drain/Accounts.antt =====
-- What one turn adds to the messages that the loop has taken in.
use mathlib.Core.List.{append-nil, append_assoc}
use tiles_processor.Base.{
  ℕ, zero, suc, ◌+◌, ◌-◌, ◌≤◌, ◌≡◌, refl, ap, sym, ◌∙◌, Bool, not, List, [], ◌∷◌, ◌++◌, Option,
  none, some, Text, arith, length, drop, keep, keep-append, length-append, length-keep, Result,
  return, raise, pure, and_then, ◌>>◌,
}
use tiles_processor.Rabbit.{Client, Message, poll_one, service_events}
use tiles_processor.Rabbit.Pika.{Amqp}
use tiles_processor.Worker.Drain.{fill, turn, Progress, after_wait}

abbrev pub count : (Message → Bool) → List Message → ℕ
count q ms = length (keep q ms)

pub count-append :
    (q : Message → Bool) (xs ys : List Message) → count q (xs ++ ys) ≡ count q xs + count q ys
count-append q xs ys = ap length (keep-append q xs ys) ∙ length-append (keep q xs) (keep q ys)

count-split :
    (q done : Message → Bool) (ms : List Message)
    → count q (keep done ms) + count q (keep (λ m. not (done m)) ms) ≡ count q ms
count-split q done [] = refl
count-split q done (m ∷ ms) = ground (arith, count-split q done ms)

drop-append : (xs ys : List Message) → drop (length xs) (xs ++ ys) ≡ ys
drop-append [] ys = refl
drop-append (x ∷ xs) ys = drop-append xs ys

-- No more in flight than the concurrency, and each message that was taken in is settled or in flight, and
-- that as often as it was taken in.
pub record IsAccounted (worker_concurrency : ℕ) (p : Progress) : Type 0 where
  pub bounded : length p.inflight ≤ worker_concurrency
  pub counted :
      (q : Message → Bool)
      → length (keep q p.taken) ≡ length (keep q p.settled) + length (keep q p.inflight)

pub after_wait-IsAccounted :
    (n : ℕ) (done : Message → Bool) (new : List Message) (p : Progress)
    → length (p.inflight ++ new) ≤ n
    → IsAccounted n p
    → IsAccounted n (after_wait done (p.inflight ++ new) p)
after_wait-IsAccounted n done new p fits h =
    let filled = p.inflight ++ new in
    record {
      bounded = omega (arith, fits, length-keep (λ m. not (done m)) filled);
      counted = λ q. omega (
        arith,
        h.counted q,
        count-append q p.taken (drop (length p.inflight) filled),
        ap (count q) (drop-append p.inflight new),
        count-append q p.settled (keep done filled),
        count-split q done filled,
        count-append q p.inflight new,
      );
    }

module _ (amqp : Amqp) (now : Text) (strict round_robin : List Text) where
  abbrev pub Extends : List Message → Result (List Message) → Type 0
  Extends inflight (return ms) = (new : List Message) × (ms ≡ inflight ++ new)
  Extends inflight (raise e) = Unit {0}

  extended :
      (room : ℕ) (inflight : List Message)
      → ((ms : List Message) (d : Client amqp)
          → Extends ms (fill amqp now strict round_robin room ms d).0)
      → (r : Result (Option Message)) (d : Client amqp)
      → Extends inflight
          (and_then r
            (λ found. elim found [
              | none ↦ pure inflight
              | some m ↦ fill amqp now strict round_robin room (inflight ++ m ∷ [])
            ])
            d).0
  extended room inflight rest (return none) d = ([], sym (append-nil inflight))
  extended room inflight rest (return (some m)) d =
      longer (fill amqp now strict round_robin room (inflight ++ m ∷ []) d).0
        (rest (inflight ++ m ∷ []) d)
    where
      longer : (r : Result (List Message)) → Extends (inflight ++ m ∷ []) r → Extends inflight r
      longer (return ms) (new, e) = (m ∷ new, e ∙ append_assoc inflight (m ∷ []) new)
      longer (raise e) h = tt
  extended room inflight rest (raise e) d = tt

  fill-Extends :
      (room : ℕ) (inflight : List Message) (c : Client amqp)
      → Extends inflight (fill amqp now strict round_robin room inflight c).0
  unfolding fill
  fill-Extends zero inflight c = ([], sym (append-nil inflight))
  fill-Extends (suc room) inflight c =
      let found = poll_one amqp now strict round_robin c in
      extended room inflight (fill-Extends room) found.0 found.1

  serviced :
      (inflight ms : List Message) (r : Result Unit) (c : Client amqp)
      → Extends inflight (return ms)
      → Extends inflight (and_then r (λ _. pure ms) c).0
  serviced inflight ms (return _) c h = h
  serviced inflight ms (raise e) c h = tt

  then_serviced :
      (inflight : List Message) (r : Result (List Message)) (c : Client amqp)
      → Extends inflight r
      → Extends inflight (and_then r (λ ms. service_events amqp >> pure ms) c).0
  then_serviced inflight (return ms) c h =
      serviced inflight ms (service_events amqp c).0 (service_events amqp c).1 h
  then_serviced inflight (raise e) c h = tt

  pub turn-Extends :
      (n : ℕ) (inflight : List Message) (c : Client amqp)
      → Extends inflight (turn amqp now strict round_robin n inflight c).0
  unfolding turn
  turn-Extends n inflight c =
      let filled = fill amqp now strict round_robin (n - length inflight) inflight c in
      then_serviced inflight filled.0 filled.1 (fill-Extends (n - length inflight) inflight c)
