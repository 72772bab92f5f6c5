-- ===== src/Rabbit/Polling.antt =====
-- Fetching a message: strict priority, then the light queues in turn.
use native.Mathlib.Nat.{mod-lt, mod-add-mod, mod-mod, add-zero}
use tiles_processor.Base.{
  Option-cases, inl, inr, All, sym, ap, ◌∙◌, map, pure, ◌>>=◌, ℕ, zero, suc, ◌+◌, ◌%◌, ◌<◌, ◌≡◌,
  refl, true, false, List, [], ◌∷◌, Option, none, some, Text, arith, Result, return, raise, Exec,
  length, get_elem?,
}
use tiles_processor.WorkUnit.{WorkUnit}
use tiles_processor.WorkUnit.Body.{Body, from_dict}
use tiles_processor.Rabbit.{
  Client, Message, channel_live, basic_get_one, poll_strict, poll_light, poll_one,
}
use tiles_processor.Rabbit.Pika.{Amqp, json}

module _ (amqp : Amqp) (now : Text) where
  -- What one look into a queue leaves: the cursor, and a tag more if it found a message.
  abbrev pub Counted : Client amqp → Result (Option Message) → Client amqp → Type 0
  Counted c (return none) d = d.outstanding_deliveries ≡ c.outstanding_deliveries
  Counted c (return (some m)) d = d.outstanding_deliveries ≡ c.outstanding_deliveries + 1
  Counted c (raise e) d = d.outstanding_deliveries ≡ c.outstanding_deliveries

  basic_get_one-rr : (q : Text) (c : Client amqp) → (basic_get_one amqp now q c).1.rr ≡ c.rr
  unfolding basic_get_one
  basic_get_one-rr q c = ground arith

  basic_get_one-Counted :
      (q : Text) (c : Client amqp)
      → Counted c (basic_get_one amqp now q c).0 (basic_get_one amqp now q c).1
  unfolding basic_get_one
  basic_get_one-Counted q c = ground arith

  -- A fetch hands out one more tag exactly if it returns a message.
  poll_strict-Counted :
      (qs : List Text) (c : Client amqp)
      → Counted c (poll_strict amqp now qs c).0 (poll_strict amqp now qs c).1
        × ((poll_strict amqp now qs c).1.rr ≡ c.rr)
  unfolding poll_strict
  poll_strict-Counted [] c = ground arith
  poll_strict-Counted (q ∷ qs) c = ground (
    arith,
    basic_get_one-Counted q c,
    basic_get_one-rr q c,
    poll_strict-Counted qs (basic_get_one amqp now q c).1,
  )

  poll_light-Counted :
      (qs : List Text) (left offset : ℕ) (c : Client amqp)
      → Counted c (poll_light amqp now qs left offset c).0 (poll_light amqp now qs left offset c).1
  unfolding poll_light
  poll_light-Counted qs zero offset c = ground arith
  poll_light-Counted qs (suc left) offset c =
      elim (Option-cases (get_elem? qs ((c.rr + offset) % length qs))) [
        | inl e ↦ ground arith
        | inr (q, e) ↦ ground (
          arith,
          basic_get_one-Counted q c,
          poll_light-Counted qs left (offset + 1) (basic_get_one amqp now q c).1,
        )
      ]

  -- A fetch counts one more outstanding delivery exactly if it returns a message.
  pub poll_one-Counted :
      (strict round_robin : List Text) (c : Client amqp)
      → Counted c
          (poll_one amqp now strict round_robin c).0
          (poll_one amqp now strict round_robin c).1
  unfolding poll_one
  poll_one-Counted strict round_robin c = ground (
    arith,
    poll_strict-Counted strict c,
    poll_light-Counted round_robin (length round_robin) 0 (poll_strict amqp now strict c).1,
  )

-- A queue that never runs dry: each fetch from it, over a live channel, yields a readable message.
pub record IsBusy (amqp : Amqp) (now : Text) (q : Text) : Type 0 where
  pub next : amqp.Wire → amqp.Wire
  pub tag : amqp.Wire → ℕ
  pub content : amqp.Wire → Body
  pub unit : amqp.Wire → WorkUnit
  pub answers :
      (w : amqp.Wire)
      → amqp.basic_get q w
        ≡ (return (some (record { delivery_tag = tag w; body = some (json (content w)) })), next w)
  pub readable : (w : amqp.Wire) → from_dict now (content w) ≡ some (unit w)
  pub stays : (w : amqp.Wire) → amqp.is_closed w ≡ false → amqp.is_closed (next w) ≡ false

get_elem?-All :
    {P : Text → Type 0} (qs : List Text) (i : ℕ)
    → i < length qs
    → All P qs
    → (q : Text) × (get_elem? qs i ≡ some q) × P q
get_elem?-All [] i h all = elim h [ ]
get_elem?-All (q ∷ qs) zero h all = (q, refl, all.0)
get_elem?-All (q ∷ qs) (suc i) h all = get_elem?-All qs i (omega arith) all.1

next_mod : (a b n : ℕ) → a % n ≡ b % n → (a + 1) % n ≡ (b + 1) % n
next_mod a b n h = sym (mod-add-mod a n 1) ∙ ap (λ (k : ℕ). (k + 1) % n) h ∙ mod-add-mod b n 1

module _ (amqp : Amqp) (now : Text) where
  -- The queues that so many polls in a row were served from.
  pub sources : List Text → ℕ → Exec (Client amqp) (List Text)
  sources qs zero = pure []
  sources qs (suc n) = do
    found ← poll_one amqp now [] qs
    rest ← sources qs n
    elim found [ none ↦ pure rest | some (u, tag, q) ↦ pure (q ∷ rest) ]

  -- The queues at `cursor`, `cursor + 1`, …, round and round.
  pub turns : List Text → ℕ → ℕ → List (Option Text)
  turns qs cursor zero = []
  turns qs cursor (suc n) = get_elem? qs (cursor % length qs) ∷ turns qs (cursor + 1) n

  served :
      (qs : List Text) (c : Client amqp) (q : Text)
      → IsBusy amqp now q
      → channel_live amqp c ≡ true
      → get_elem? qs ((c.rr + 0) % length qs) ≡ some q
      → (u : WorkUnit) × (tag : ℕ) × (d : Client amqp) × (poll_one amqp now [] qs c
          ≡ (return (some (u, tag, q)), d))
        × (d.rr ≡ ((c.rr + 0) % length qs + 1) % length qs)
        × (channel_live amqp d ≡ true)
  unfolding poll_one poll_strict poll_light basic_get_one
  served [] c q b live e = cc
  served (p ∷ qs) c q b live e = (
    b.unit c.wire,
    b.tag c.wire,
    record c {
      wire = b.next c.wire;
      outstanding_deliveries = c.outstanding_deliveries + 1;
      rr = ((c.rr + 0) % length (p ∷ qs) + 1) % length (p ∷ qs);
    },
    ground (arith, b.answers c.wire, b.readable c.wire),
    refl,
    ground (arith, b.stays c.wire),
  )

  turns-mod :
      (qs : List Text) (a b n : ℕ) → a % length qs ≡ b % length qs → turns qs a n ≡ turns qs b n
  unfolding turns
  turns-mod qs a b zero h = refl
  turns-mod qs a b (suc n) h = cc (h, turns-mod qs (a + 1) (b + 1) n (next_mod a b (length qs) h))

  -- No light queue starves another: while none of them runs dry, successive polls of a light worker
  -- are served from the queues in rotation, from the cursor on.
  pub sources-turns :
      (qs : List Text) (n : ℕ) (c : Client amqp)
      → 0 < length qs
      → All (IsBusy amqp now) qs
      → channel_live amqp c ≡ true
      → (ss : List Text) × ((sources qs n c).0 ≡ return ss) × (map some ss ≡ turns qs c.rr n)
  unfolding sources turns
  sources-turns qs zero c nonempty busy live = ([], refl, refl)
  sources-turns qs (suc n) c nonempty busy live =
      let (q, at, b) =
        get_elem?-All qs ((c.rr + 0) % length qs) (mod-lt (c.rr + 0) nonempty) busy in
      let (u, tag, d, polled, cursor, live') = served qs c q b live at in
      let (ss, more, same) = sources-turns qs n d nonempty busy live' in
      (
        q ∷ ss,
        ground arith,
        cc (at, same, turns-mod qs d.rr (c.rr + 1) n (caught_up cursor), add-zero c.rr),
      )
    where
      caught_up :
          {k : ℕ}
          → k ≡ ((c.rr + 0) % length qs + 1) % length qs
          → k % length qs ≡ (c.rr + 1) % length qs
      caught_up {k} e =
          ap (λ (j : ℕ). j % length qs) e
          ∙ mod-mod ((c.rr + 0) % length qs + 1) (length qs)
          ∙ mod-add-mod (c.rr + 0) (length qs) 1
          ∙ ap (λ (j : ℕ). (j + 1) % length qs) (add-zero c.rr)
