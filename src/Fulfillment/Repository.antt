-- ===== src/Fulfillment/Repository.antt =====
-- services/fulfillment/internal/app/memory_repository.go and shipmentEvent of service.go. Each method
-- holds the mutex from its first read to its last write. The event sink is a state of type S and its
-- `append`; `none` is a sink that was not set.
use seckill_mall.Base.{
  ℕ, ◌+◌, ◌%◌, ◌^◌, String, ◌<>◌, Bool, true, false, ◌||◌, not, Option, none, some, [], pos, str_eq,
  if◌then◌else◌, Result, ok, err, Action, ◌>>◌, Table, lookup, insert,
}
use seckill_mall.Contracts.Events.{
  EventEnvelope, new_event_envelope, shipment_created, shipment_delivered,
}
use seckill_mall.Contracts.Payloads.{shipment_json}
use seckill_mall.Fulfillment.Model.{
  Status, shipped, received, status_text, Shipment, Error, not_found, conflict, failed,
}

pub record Repository (S : Type 0) : Type 0 where
  pub next_id : ℕ
  pub shipments : Table Shipment
  pub tracking : Table String
  pub sink : Option S

-- trackingKey
unfoldable pub tracking_key : String → String → String
tracking_key carrier number = carrier <> (":" <> number)

-- shipmentEvent
unfoldable pub shipment_event : String → String → Shipment → ℕ → Result String EventEnvelope
shipment_event event_id event_type value now =
    new_event_envelope event_id event_type "order" value.order_id (pos 1)
      (shipment_json (record {
        order_id = value.order_id;
        carrier = value.carrier;
        tracking_no = value.tracking_no;
        status = status_text value.status;
      }))
      now

-- The events of Create and of MarkReceived.
abbrev pub created_event : Shipment → Result String EventEnvelope
created_event value =
    shipment_event ("shipment.created:" <> value.order_id) shipment_created value value.created_at

abbrev pub delivered_event : Shipment → ℕ → Result String EventEnvelope
delivered_event value now =
    shipment_event ("shipment.delivered:" <> value.order_id) shipment_delivered value now

abbrev pub received_at : Shipment → ℕ → Shipment
received_at value now = record value { status = received; delivered_at = now; updated_at = now }

-- Another order has the carrier's number.
unfoldable pub is_taken : String → Option String → Bool
is_taken order_id none = false
is_taken order_id (some owner) = not (str_eq owner order_id)

abbrev pub differs : Shipment → String → String → Bool
differs existing carrier tracking_no =
    not (str_eq existing.carrier carrier) || not (str_eq existing.tracking_no tracking_no)

module _ {S : Type 0} where
  -- NewMemoryRepository and SetEventSink
  unfoldable pub new_memory_repository : Option S → Repository S
  new_memory_repository sink = record { next_id = 1; shipments = []; tracking = []; sink = sink }

  -- The writes of Create; the next id is a uint64.
  abbrev pub put_shipment : Shipment → Action (Repository S) Error (Shipment × Bool)
  put_shipment value r =
      let kept = record value { id = r.next_id } in
      (
        ok (kept, false),
        record r {
          next_id = (r.next_id + 1) % 2 ^ 64;
          shipments = insert value.order_id kept r.shipments;
          tracking =
              insert (tracking_key value.carrier value.tracking_no) value.order_id r.tracking;
        },
      )

  -- The writes of MarkReceived.
  abbrev pub put_received : String → Shipment → Action (Repository S) Error (Shipment × Bool)
  put_received order_id value r =
      (ok (value, false), record r { shipments = insert order_id value r.shipments })

  -- Get
  unfoldable pub get : String → Action (Repository S) Error Shipment
  get order_id r = elim (lookup order_id r.shipments) [
    | none ↦ (err not_found, r)
    | some value ↦ (ok value, r)
  ]

module _ {S : Type 0} (append : EventEnvelope → Action S Error (Unit {0})) where
  -- An event is built and appended where a sink is set.
  unfoldable pub publish :
      Result String EventEnvelope → Repository S → Result Error (Unit {0}) × Repository S
  publish event r = elim r.sink [
    | none ↦ (ok tt, r)
    | some s ↦ elim event [
      | err reason ↦ (err (failed reason), r)
      | ok e ↦ let (result, s') = append e s in (result, record r { sink = some s' })
    ]
  ]

  -- Create, after its tests
  unfoldable pub create_new : Shipment → Action (Repository S) Error (Shipment × Bool)
  create_new value = publish (created_event value) >> put_shipment value

  -- Create
  unfoldable pub create : Shipment → Action (Repository S) Error (Shipment × Bool)
  create value r = elim (lookup value.order_id r.shipments) [
    | some existing ↦
        if differs existing value.carrier value.tracking_no
        then (err conflict, r)
        else (ok (existing, true), r)
    | none ↦
        if is_taken value.order_id
          (lookup (tracking_key value.carrier value.tracking_no) r.tracking)
        then (err conflict, r)
        else create_new value r
  ]

  -- MarkReceived, for a shipment that is under way
  unfoldable pub receive : String → Shipment → ℕ → Action (Repository S) Error (Shipment × Bool)
  receive order_id value now =
      publish (delivered_event (received_at value now) now)
      >> put_received order_id (received_at value now)

  unfoldable pub receive_found :
      String → ℕ → Shipment → Status → Action (Repository S) Error (Shipment × Bool)
  receive_found order_id now value received r = (ok (value, true), r)
  receive_found order_id now value shipped r = receive order_id value now r

  -- MarkReceived
  unfoldable pub mark_received : String → ℕ → Action (Repository S) Error (Shipment × Bool)
  mark_received order_id now r = elim (lookup order_id r.shipments) [
    | none ↦ (err not_found, r)
    | some value ↦ receive_found order_id now value value.status r
  ]
