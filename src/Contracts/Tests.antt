-- ===== src/Contracts/Tests.antt =====
-- The contracts at inputs that meet the conditions of their theorems.
use seckill_mall.Base.{◌≡◌, refl, pos, ok, trim_space}
use seckill_mall.Contracts.Events.{EventEnvelope, validate, new_event_envelope, shipment_created}
use seckill_mall.Contracts.Payloads.{ShipmentPayload, shipment_json, validate_event_payload}
use seckill_mall.Contracts.Produced.{shipped, produced_valid}

abbrev parcel : ShipmentPayload
parcel = record { order_id = "ord_1"; carrier = "SF"; tracking_no = ""; status = "shipped" }

abbrev parcel_event : EventEnvelope
parcel_event = record {
  event_id = "ship_1";
  event_type = shipment_created;
  event_version = pos 1;
  aggregate_type = "order";
  aggregate_id = "ord_1";
  occurred_at = 4;
  trace_id = "";
  payload = shipment_json parcel;
}

produced_valid_example : validate_event_payload parcel_event ≡ ok tt
unfolding new_event_envelope validate trim_space shipment_json
produced_valid_example =
    produced_valid (shipped parcel) "ship_1" "order" "ord_1" 4 parcel_event refl
