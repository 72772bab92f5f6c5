-- ===== src/Worker/Drain.antt =====
-- src/worker/worker.py, _drain. The tasks in flight are the list of their messages. Which of them finish
-- in the wait of a turn, and whether a signal arrives then, is a schedule of rounds; a task runs when it
-- finishes.
pub mod Room
pub mod Accounts
pub mod Shutdown
use tiles_processor.Base.{
  ℕ, zero, suc, ◌-◌, Bool, true, false, not, List, [], ◌∷◌, ◌++◌, none, some, Text, length, drop,
  keep, if◌then◌else◌, Exec, return, pure, ◌>>=◌, ◌>>◌,
}
use tiles_processor.Worker.Site.{Site, Answers, on_client, interrupt}
use tiles_processor.Worker.Messages.{WorkerConfig, consume_tiers, process_message_async}
use tiles_processor.Rabbit.{Client, Message, poll_one, service_events}
use tiles_processor.Rabbit.Pika.{Amqp}

module _ (amqp : Amqp) (now : Text) (strict round_robin : List Text) where
  -- The inner `while`, by the room that is left.
  unfoldable pub fill : (room : ℕ) → (inflight : List Message) → Exec (Client amqp) (List Message)
  fill zero inflight = pure inflight
  fill (suc room) inflight = do
    found ← poll_one amqp now strict round_robin
    elim found [ none ↦ pure inflight | some m ↦ fill room (inflight ++ m ∷ []) ]

  -- Up to the wait for a task.
  unfoldable pub turn :
      (worker_concurrency : ℕ) → (inflight : List Message) → Exec (Client amqp) (List Message)
  turn worker_concurrency inflight = do
    filled ← fill (worker_concurrency - length inflight) inflight
    service_events amqp
    pure filled

pub record Round : Type 0 where
  pub done : Message → Bool
  pub signal : Bool

-- How far the loop has come: what it took in, what of that was settled, what is in flight, and
-- whether the loop is over.
pub record Progress : Type 0 where
  pub taken : List Message
  pub settled : List Message
  pub inflight : List Message
  pub over : Bool

abbrev pub nothing_yet : Progress
nothing_yet = record { taken = []; settled = []; inflight = []; over = false }

-- The turn that took `filled` in, after its wait.
abbrev pub after_wait : (done : Message → Bool) (filled : List Message) → Progress → Progress
after_wait done filled p = record {
  taken = p.taken ++ drop (length p.inflight) filled;
  settled = p.settled ++ keep done filled;
  inflight = keep (λ m. not (done m)) filled;
  over = false;
}

module _ (amqp : Amqp) (config : WorkerConfig) (worker_concurrency : ℕ) (now : Text)
    (answers : Message → Answers amqp) where
  -- An exception of a task is logged and goes no further.
  unfoldable pub settle : List Message → Site amqp → Site amqp
  settle [] s = s
  settle (m ∷ ms) s = settle ms (process_message_async amqp (answers m) m.0 m.1 m.2 s).1

  -- _drain_inflight
  unfoldable pub drain_inflight : Progress → Exec (Site amqp) Progress
  unfolding settle
  drain_inflight p s = (
    return (record p { settled = p.settled ++ p.inflight; inflight = []; over = true }),
    settle p.inflight s,
  )

  -- asyncio.wait, or the sleep where nothing is in flight.
  unfoldable pub wait : Round → (filled : List Message) → Progress → Exec (Site amqp) Progress
  unfolding settle
  wait r filled p s =
      (interrupt amqp r.signal >> pure (after_wait r.done filled p)) (settle (keep r.done filled) s)

  unfoldable pub drain : List Round → Progress → Exec (Site amqp) Progress
  unfolding consume_tiers turn wait drain_inflight
  drain [] p s = if s.running then (return p, s) else drain_inflight p s
  drain (r ∷ rounds) p s =
      let tiers = consume_tiers config in
      let on =
        (on_client amqp (turn amqp now tiers.0 tiers.1 worker_concurrency p.inflight) >>= λ filled.
        wait r filled p >>= λ q. drain rounds q)
          s in
      if s.running then on else drain_inflight p s
