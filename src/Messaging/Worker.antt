-- ===== src/Messaging/Worker.antt =====
-- shared/platform/messaging/worker.go: publishOutboxBatch. The publisher and the clock are outside: a
-- state of type P, which a publication may change, and from which the time is read.
use seckill_mall.Base.{
  ℕ, ◌+◌, ◌*◌, String, Option, none, some, List, [], ◌∷◌, ℤ, pos, pos_part, leb, if◌then◌else◌,
  Result, ok, err, Action,
}
use seckill_mall.Contracts.Events.{EventEnvelope, Payload}
use seckill_mall.Messaging.Delays.{retry_delay, second}
use seckill_mall.Messaging.Outbox.{
  OutboxEvent, Outbox, claim_batch, mark_published, mark_retry, mark_failed, envelope,
}

pub record World (H P : Type 0) : Type 0 where
  pub outbox : Outbox H
  pub outside : P

-- The first error of a batch.
abbrev pub first_error : Option String → String → Option String
first_error none reason = some reason
first_error (some earlier) reason = some earlier

abbrev pub max_attempts : ℕ
max_attempts = 5

module _ {H P : Type 0} (embedded : Payload → Result String EventEnvelope)
    (publish : EventEnvelope → H → Action P String (Unit {0})) (clock : P → ℕ) where
  -- A call of the store, at the time of the clock, whose error is dropped.
  abbrev pub marking : (ℕ → Outbox H → Result String (Unit {0}) × Outbox H) → World H P → World H P
  marking m w = record w { outbox = (m (clock w.outside) w.outbox).1 }

  -- An event whose publication failed: it waits for another try, or has failed for good.
  unfoldable pub publish_failed : OutboxEvent H → String → World H P → World H P
  publish_failed e reason w =
      let next = clock w.outside + pos_part (retry_delay e.attempts (pos second)) in
      if leb max_attempts e.attempts
      then marking (mark_failed e.event_id reason) w
      else marking (mark_retry e.event_id next reason) w

  abbrev after_mark : Option String → Result String (Unit {0}) → Option String
  after_mark seen (ok _) = seen
  after_mark seen (err reason) = first_error seen reason

  unfoldable pub publish_done :
      OutboxEvent H → Option String → World H P → Option String × World H P
  publish_done e seen w =
      let (result, outbox') = mark_published e.event_id (clock w.outside) w.outbox in
      (after_mark seen result, record w { outbox = outbox' })

  -- The body of the loop: a claimed event, and the first error so far.
  unfoldable pub publish_one : OutboxEvent H → Option String → World H P → Option String × World H P
  publish_one e seen w = elim (envelope embedded e) [
    | err reason ↦ (first_error seen reason, marking (mark_failed e.event_id reason) w)
    | ok event ↦
        let (result, p) = publish event e.headers w.outside in
        elim result [
          | err reason ↦
              (first_error seen reason, publish_failed e reason (record w { outside = p }))
          | ok _ ↦ publish_done e seen (record w { outside = p })
        ]
  ]

  unfoldable pub publish_each :
      List (OutboxEvent H) → Option String → World H P → Option String × World H P
  publish_each [] seen w = (seen, w)
  publish_each (e ∷ rest) seen w =
      let (seen', w') = publish_one e seen w in publish_each rest seen' w'

  -- publishOutboxBatch
  unfoldable pub publish_outbox_batch : ℤ → World H P → Option String × World H P
  publish_outbox_batch batch_size w =
      let (events, outbox') = claim_batch (clock w.outside) batch_size (30 * second) w.outbox in
      publish_each events none (record w { outbox = outbox' })
