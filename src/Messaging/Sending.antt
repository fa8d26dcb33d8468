-- ===== src/Messaging/Sending.antt =====
-- shared/platform/messaging/worker.go: the loop of a batch, for one event that it publishes.
use seckill_mall.Base.{
  ℕ, ◌≡◌, ap, sym, subst, ◌∙◌, String, true, Option, List, [], ◌∷◌, Result, ok, Action, arith,
  Bool-cases, inl, inr, str_eq,
}
use seckill_mall.Base.Slices.{All}
use seckill_mall.Contracts.Events.{EventEnvelope, Payload}
use seckill_mall.Messaging.Outbox.{OutboxEvent, envelope}
use seckill_mall.Messaging.Worker.{World, publish_done, publish_one, publish_each}
use seckill_mall.Messaging.Publishing.{
  IsKnown, IsDone, Occurs, mark_published-IsDone, publish_one_other, publish_one_stays,
}

-- What stands under this id has this envelope and these headers.
abbrev pub IsReady :
    {H : Type 0}
    → (Payload → Result String EventEnvelope)
    → String
    → EventEnvelope
    → H
    → OutboxEvent H
    → Type 0
IsReady embedded key event headers e =
    str_eq e.event_id key ≡ true → (envelope embedded e ≡ ok event) × (e.headers ≡ headers)

-- The record of this id is published, and `Q` holds of the outside.
abbrev pub IsDelivered : {H P : Type 0} → String → (P → Type 0) → World H P → Type 0
IsDelivered key Q w = IsDone key w.outbox × Q w.outside

-- The event of the id `key` is `event`, with the headers `headers`; `Q` holds of the outside once it is published.
module _ {H P : Type 0} (embedded : Payload → Result String EventEnvelope)
    (publish : EventEnvelope → H → Action P String (Unit {0})) (clock : P → ℕ) (key : String)
    (event : EventEnvelope) (headers : H) (Q : P → Type 0)
    (accepts : (p : P) → (publish event headers p).0 ≡ ok tt)
    (done : (p : P) → Q (publish event headers p).1)
    (stays : (event : EventEnvelope) (headers : H) (p : P)
      → Q p
      → Q (publish event headers p).1) where
  abbrev Ready : OutboxEvent H → Type 0
  Ready = IsReady embedded key event headers

  abbrev Delivered : World H P → Type 0
  Delivered = IsDelivered key Q

  publish_one-IsDelivered :
      (e : OutboxEvent H) (seen : Option String) (w : World H P)
      → str_eq e.event_id key ≡ true
      → Ready e
      → IsKnown key w.outbox
      → Delivered (publish_one embedded publish clock e seen w).1
  unfolding publish_one publish_done
  publish_one-IsDelivered e seen w same ready known =
      let (good, own) = ready same in
      let sent : (publish event e.headers w.outside).0 ≡ ok tt =
        ap (λ h. (publish event h w.outside).0) own ∙ accepts w.outside in
      rw (good, sent, publish_one)
        (
          mark_published-IsDone e.event_id key (clock (publish event e.headers w.outside).1)
              w.outbox same known,
          subst (λ h. Q (publish event h w.outside).1) (sym own) (done w.outside),
        )

  publish_one-keeps :
      (e : OutboxEvent H) (seen : Option String) (w : World H P)
      → Ready e
      → Delivered w
      → Delivered (publish_one embedded publish clock e seen w).1
  publish_one-keeps e seen w ready ((f, found, marked), q) =
      elim (Bool-cases (str_eq e.event_id key)) [
        | inl same ↦ publish_one-IsDelivered e seen w same ready (f, found)
        | inr other ↦ (
          (f, publish_one_other embedded publish clock key e seen w other ∙ found, marked),
          publish_one_stays embedded publish clock Q e seen w stays q,
        )
      ]

  publish_each-keeps :
      (events : List (OutboxEvent H)) (seen : Option String) (w : World H P)
      → All Ready events
      → Delivered w
      → Delivered (publish_each embedded publish clock events seen w).1
  unfolding publish_each
  publish_each-keeps [] seen w all delivered = delivered
  publish_each-keeps (e ∷ rest) seen w all delivered =
      let after = publish_one embedded publish clock e seen w in
      publish_each-keeps rest after.0 after.1 all.1 (publish_one-keeps e seen w all.0 delivered)

  pub publish_each-IsDelivered :
      (events : List (OutboxEvent H)) (seen : Option String) (w : World H P)
      → All Ready events
      → IsKnown key w.outbox
      → Occurs key events
      → Delivered (publish_each embedded publish clock events seen w).1
  unfolding publish_each
  publish_each-IsDelivered [] seen w all known occurs = absurd occurs
  publish_each-IsDelivered (e ∷ rest) seen w all known occurs =
      let after = publish_one embedded publish clock e seen w in
      elim (Bool-cases (str_eq e.event_id key)) [
        | inl same ↦
            publish_each-keeps rest after.0 after.1 all.1
              (publish_one-IsDelivered e seen w same all.0 known)
        | inr other ↦
            publish_each-IsDelivered rest after.0 after.1 all.1
              (known.0, publish_one_other embedded publish clock key e seen w other ∙ known.1)
              (elim occurs [ inl same ↦ absurd (ground arith) | inr later ↦ later ])
      ]
