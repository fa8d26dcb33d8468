-- ===== src/Contracts/Produced.antt =====
-- The events that the services publish: each payload struct under its event type.
use seckill_mall.Base.{
  ℕ, ◌≡◌, refl, String, ℤ, pos, ok, arith, eq_iff, trim_space, subst₂, sym, ◌∙◌,
}
use seckill_mall.Contracts.Events.{
  Payload, EventEnvelope, validate, new_event_envelope, order_created, order_cancelled,
  payment_succeeded, payment_refunded, inventory_reserved, inventory_released, inventory_restocked,
  shipment_created, shipment_delivered,
}
use seckill_mall.Contracts.Payloads.{
  OrderCreatedPayload, OrderCancelledPayload, PaymentSucceededPayload, PaymentRefundedPayload,
  InventoryReservationPayload, ShipmentPayload, order_created_json, order_cancelled_json,
  payment_succeeded_json, payment_refunded_json, inventory_reservation_json, shipment_json,
  validate_event_payload, check_object, required_fields,
}

pub data Produced : Type 0 where
  created : OrderCreatedPayload → Produced
  cancelled : OrderCancelledPayload → Produced
  succeeded : PaymentSucceededPayload → Produced
  refunded : PaymentRefundedPayload → Produced
  reserved released restocked : InventoryReservationPayload → Produced
  shipped delivered : ShipmentPayload → Produced

abbrev pub type_of : Produced → String
type_of (created _) = order_created
type_of (cancelled _) = order_cancelled
type_of (succeeded _) = payment_succeeded
type_of (refunded _) = payment_refunded
type_of (reserved _) = inventory_reserved
type_of (released _) = inventory_released
type_of (restocked _) = inventory_restocked
type_of (shipped _) = shipment_created
type_of (delivered _) = shipment_delivered

abbrev pub json_of : Produced → Payload
json_of (created p) = order_created_json p
json_of (cancelled p) = order_cancelled_json p
json_of (succeeded p) = payment_succeeded_json p
json_of (refunded p) = payment_refunded_json p
json_of (reserved p) = inventory_reservation_json p
json_of (released p) = inventory_reservation_json p
json_of (restocked p) = inventory_reservation_json p
json_of (shipped p) = shipment_json p
json_of (delivered p) = shipment_json p

-- The payload of each kind has the fields that its event type requires.
has_required_fields :
    (p : Produced) → check_object (required_fields (type_of p)) (json_of p) ≡ ok tt
unfolding check_object required_fields order_created_json order_cancelled_json
    payment_succeeded_json payment_refunded_json inventory_reservation_json shipment_json
has_required_fields (created p) = refl
has_required_fields (cancelled p) = refl
has_required_fields (succeeded p) = refl
has_required_fields (refunded p) = refl
has_required_fields (reserved p) = refl
has_required_fields (released p) = refl
has_required_fields (restocked p) = refl
has_required_fields (shipped p) = ground (arith, eq_iff p.carrier "", eq_iff p.tracking_no "")
has_required_fields (delivered p) = ground (arith, eq_iff p.carrier "", eq_iff p.tracking_no "")

trim-type_of : (p : Produced) → trim_space (type_of p) ≡ type_of p
unfolding trim_space
trim-type_of (created _) = refl
trim-type_of (cancelled _) = refl
trim-type_of (succeeded _) = refl
trim-type_of (refunded _) = refl
trim-type_of (reserved _) = refl
trim-type_of (released _) = refl
trim-type_of (restocked _) = refl
trim-type_of (shipped _) = refl
trim-type_of (delivered _) = refl

-- What a built envelope holds.
new_event_envelope-fields :
    (event_id event_type aggregate aggregate_id : String) (version : ℤ) (payload : Payload)
    (now : ℕ) (e : EventEnvelope)
    → new_event_envelope event_id event_type aggregate aggregate_id version payload now ≡ ok e
    → (e.event_type ≡ trim_space event_type) × (e.payload ≡ payload) × (validate e ≡ ok tt)
unfolding new_event_envelope
new_event_envelope-fields event_id event_type aggregate aggregate_id version payload now e h =
    ground arith

-- An envelope passes if its transport check and the check of its required fields do.
payload_check :
    (e : EventEnvelope)
    → validate e ≡ ok tt
    → check_object (required_fields e.event_type) e.payload ≡ ok tt
    → validate_event_payload e ≡ ok tt
unfolding validate_event_payload
payload_check e valid fields = ground arith

-- Every envelope that is built for one of these payloads passes the payload check of the
-- subscribers and of the outbox.
pub produced_valid :
    (p : Produced) (event_id aggregate aggregate_id : String) (now : ℕ) (e : EventEnvelope)
    → new_event_envelope event_id (type_of p) aggregate aggregate_id (pos 1) (json_of p) now ≡ ok e
    → validate_event_payload e ≡ ok tt
produced_valid p event_id aggregate aggregate_id now e h =
    let (kind, payload, valid) =
      new_event_envelope-fields event_id (type_of p) aggregate aggregate_id (pos 1) (json_of p) now
        e h in
    payload_check e valid (
      subst₂ (λ t j. check_object (required_fields t) j ≡ ok tt) (sym (trim-type_of p) ∙ sym kind)
        (sym payload) (has_required_fields p))
