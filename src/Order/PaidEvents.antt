-- ===== src/Order/PaidEvents.antt =====
-- services/order/internal/app/events.go: a payment.succeeded.v1 event for a pending order.
use seckill_mall.Base.{
  String, ◌≡◌, inl, inr, Result, ok, Action, map_answer, arith, Result-cases, lookup, some,
  trim_space, ℕ,
}
use seckill_mall.Contracts.Events.{EventEnvelope}
use seckill_mall.Contracts.Payloads.{PaymentSucceededPayload}
use seckill_mall.Contracts.Decode.{decode_payment_succeeded}
use seckill_mall.Order.Model.{Error, Order, pending_payment, paid, confirm}
use seckill_mall.Order.World.{World, InventoryClient, call_of}
use seckill_mall.Order.Lifecycle.{confirm_payment}
use seckill_mall.Order.Effects.{All, confirm_payment-confirms}
use seckill_mall.Order.Handlers.{decode_payload, handle_with, payment_succeeded}

decode_payload-same :
    {A : Type 0} (decoded : Result String A) (event : EventEnvelope) (p q : A)
    → decoded ≡ ok p
    → decode_payload decoded event ≡ ok q
    → q ≡ p
unfolding decode_payload
decode_payload-same decoded event p q h k = ground arith

module _ {S I : Type 0} (append : EventEnvelope → Action S Error (Unit {0}))
    (client : InventoryClient I) (clock : I → ℕ) (Q : I → String → Type 0) where
  -- If payment.succeeded.v1 for a pending order is handled without an error, the order is paid in the
  -- store and every reservation of its items is confirmed, for any property that a successful
  -- confirmation establishes for its reservation and that no confirmation of another one takes away.
  pub payment_succeeded-confirms :
      ((id order_id : String) (i : I)
        → (call_of client confirm id order_id i).0 ≡ ok tt
        → Q (call_of client confirm id order_id i).1 id)
      → ((id other order_id : String) (i : I)
          → Q i id
          → Q (call_of client confirm other order_id i).1 id)
      → (event : EventEnvelope) (p : PaymentSucceededPayload) (w : World S I) (value : Order)
      → decode_payment_succeeded event.payload ≡ ok p
      → lookup (trim_space p.order_id) w.repository.orders ≡ some value
      → value.order_id ≡ trim_space p.order_id
      → value.status ≡ pending_payment
      → (payment_succeeded append client clock event w).0 ≡ ok tt
      → let after = (payment_succeeded append client clock event w).1 in
        All (Q after.outside) value.items
        × ((o : Order) × (o.status ≡ paid)
            × (lookup (trim_space p.order_id) after.repository.orders ≡ some o))
  unfolding payment_succeeded handle_with
  payment_succeeded-confirms done stays event p w value decoded found own pending =
      elim (Result-cases (decode_payload (decode_payment_succeeded event.payload) event)) [
        | inr (_, bad) ↦ rw (bad, handle_with) (λ h. cc)
        | inl (q, good) ↦
            rw
              (
                good,
                handle_with,
                decode_payload-same (decode_payment_succeeded event.payload) event p q decoded good,
              )
              (elim (Result-cases
                (confirm_payment append client clock p.user_id p.order_id p.payment_no
                  p.callback_ref w).0) [
                    | inr (_, failed) ↦ rw (failed, map_answer) (λ h. cc)
                    | inl ((o, again), answered) ↦ λ h.
                        let (all, st, held) =
                          confirm_payment-confirms append client clock Q done stays p.user_id
                            p.order_id p.payment_no p.callback_ref w value o again found own pending
                            answered in
                        (all, (o, st, held))
                  ])
      ]
