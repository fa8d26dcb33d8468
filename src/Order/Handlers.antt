-- ===== src/Order/Handlers.antt =====
-- services/order/internal/app/events.go: the handlers of payment.succeeded.v1, payment.refunded.v1,
-- shipment.created.v1 and shipment.delivered.v1. The other subscribed events are accepted and ignored.
use seckill_mall.Base.{String, Result, ok, err, Action, map_answer, ℕ}
use seckill_mall.Contracts.Events.{EventEnvelope}
use seckill_mall.Contracts.Payloads.{validate_event_payload}
use seckill_mall.Contracts.Decode.{
  decode_payment_succeeded, decode_payment_refunded, decode_shipment,
}
use seckill_mall.Order.Model.{Error, new_error, internal}
use seckill_mall.Order.World.{World, InventoryClient}
use seckill_mall.Order.Lifecycle.{
  confirm_payment, refund, apply_shipment_created, apply_shipment_delivered,
}

-- decodePayload; its errors are not of the service's own type.
unfoldable pub decode_payload : {A : Type 0} → Result String A → EventEnvelope → Result Error A
decode_payload decoded event = elim (validate_event_payload event) [
  | err reason ↦ err (new_error internal reason)
  | ok _ ↦ elim decoded [ err reason ↦ err (new_error internal reason) | ok payload ↦ ok payload ]
]

module _ {S I : Type 0} (append : EventEnvelope → Action S Error (Unit {0}))
    (client : InventoryClient I) (clock : I → ℕ) where
  -- A handler that decodes its event and makes one call.
  unfoldable pub handle_with :
      {A : Type 0}
      → Result Error A
      → (A → Action (World S I) Error (Unit {0}))
      → Action (World S I) Error (Unit {0})
  handle_with (err e) call w = (err e, w)
  handle_with (ok payload) call w = call payload w

  -- paymentSucceeded
  unfoldable pub payment_succeeded : EventEnvelope → Action (World S I) Error (Unit {0})
  payment_succeeded event =
      handle_with (decode_payload (decode_payment_succeeded event.payload) event) (λ p.
        map_answer (λ _. tt)
          (confirm_payment append client clock p.user_id p.order_id p.payment_no p.callback_ref))

  -- paymentRefunded
  unfoldable pub payment_refunded : EventEnvelope → Action (World S I) Error (Unit {0})
  payment_refunded event =
      handle_with (decode_payload (decode_payment_refunded event.payload) event) (λ p.
        map_answer (λ _. tt) (refund append client clock p.user_id p.order_id p.refund_no p.reason))

  -- shipmentCreated
  unfoldable pub shipment_created : EventEnvelope → Action (World S I) Error (Unit {0})
  shipment_created event =
      handle_with (decode_payload (decode_shipment event.payload) event)
        (λ p. apply_shipment_created append client clock p.order_id p.carrier p.tracking_no)

  -- shipmentDelivered
  unfoldable pub shipment_delivered : EventEnvelope → Action (World S I) Error (Unit {0})
  shipment_delivered event =
      handle_with (decode_payload (decode_shipment event.payload) event)
        (λ p. apply_shipment_delivered append client clock p.order_id)
