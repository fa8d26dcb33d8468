-- ===== src/Contracts/Events.antt =====
-- shared/contracts/events.go: event types, the envelope, its transport checks and the inbox key.
-- A time is a number of ticks, 0 for the zero time; a payload is the JSON value it encodes.
use seckill_mall.Base.{
  ℕ, String, ◌<>◌, Bool, true, false, ◌||◌, List, [], ◌∷◌, ℤ, pos, leb_ℤ, ◌==◌, str_eq,
  if◌then◌else◌, trim_space, Result, ok, err, Table,
}

-- An item of an order.created.v1 payload.
pub record OrderItemPayload : Type 0 where
  pub sku_id : ℕ
  pub quantity : ℤ
  pub reservation_id : String
  pub unit_price_cents : ℤ

-- The JSON values that stand in a payload's fields.
pub data Value : Type 0 where
  null : Value
  text : String → Value
  number : ℤ → Value
  texts : List String → Value
  items : List OrderItemPayload → Value

-- json.RawMessage: no bytes, the text `null`, an object, any other JSON value, or a text that is no JSON.
pub data Payload : Type 0 where
  empty null : Payload
  object : Table Value → Payload
  other invalid : Payload

pub record EventEnvelope : Type 0 where
  pub event_id : String
  pub event_type : String
  pub event_version : ℤ
  pub aggregate_type : String
  pub aggregate_id : String
  pub occurred_at : ℕ
  pub trace_id : String
  pub payload : Payload

abbrev pub seckill_accepted : String
seckill_accepted = "seckill.accepted.v1"

abbrev pub order_created : String
order_created = "order.created.v1"

abbrev pub order_cancelled : String
order_cancelled = "order.cancelled.v1"

abbrev pub payment_succeeded : String
payment_succeeded = "payment.succeeded.v1"

abbrev pub payment_refunded : String
payment_refunded = "payment.refunded.v1"

abbrev pub inventory_reserved : String
inventory_reserved = "inventory.reserved.v1"

abbrev pub inventory_released : String
inventory_released = "inventory.released.v1"

abbrev pub inventory_restocked : String
inventory_restocked = "inventory.restocked.v1"

abbrev pub shipment_created : String
shipment_created = "shipment.created.v1"

abbrev pub shipment_delivered : String
shipment_delivered = "shipment.delivered.v1"

abbrev pub known_event_types : List String
known_event_types =
    seckill_accepted ∷ order_created ∷ order_cancelled ∷ payment_succeeded ∷ payment_refunded
    ∷ inventory_reserved ∷ inventory_released ∷ inventory_restocked ∷ shipment_created
    ∷ shipment_delivered ∷ []

abbrev pub contains : String → List String → Bool
contains s [] = false
contains s (t ∷ ts) = str_eq t s || contains s ts

-- IsKnownEventType
unfoldable pub is_known_event_type : String → Bool
unfolding trim_space
is_known_event_type event_type = contains (trim_space event_type) known_event_types

abbrev is_missing : Payload → Bool
is_missing empty = true
is_missing Payload.null = true
is_missing _ = false

-- EventEnvelope.Validate
unfoldable pub validate : EventEnvelope → Result String (Unit {0})
validate e =
    if str_eq e.event_id ""
    then err "event_id is required"
    else if str_eq e.event_type ""
    then err "event_type is required"
    else if leb_ℤ e.event_version (pos 0)
    then err "event_version must be positive"
    else if str_eq e.aggregate_type ""
    then err "aggregate_type is required"
    else if str_eq e.aggregate_id ""
    then err "aggregate_id is required"
    else if e.occurred_at == 0
    then err "occurred_at is required"
    else if is_missing e.payload
    then err "payload is required"
    else ok tt

-- NewEventEnvelope; the payload is marshalled already, which cannot fail for the payload structs.
unfoldable pub new_event_envelope :
    String → String → String → String → ℤ → Payload → ℕ → Result String EventEnvelope
new_event_envelope event_id event_type aggregate_type aggregate_id version payload occurred_at =
    let envelope : EventEnvelope = record {
      event_id = trim_space event_id;
      event_type = trim_space event_type;
      event_version = version;
      aggregate_type = trim_space aggregate_type;
      aggregate_id = trim_space aggregate_id;
      occurred_at = occurred_at;
      trace_id = "";
      payload = payload;
    } in
    elim (validate envelope) [ ok _ ↦ ok envelope | err reason ↦ err reason ]

-- EventEnvelope.InboxKey
unfoldable pub inbox_key : EventEnvelope → String → Result String String
inbox_key e consumer = elim (validate e) [
  | err reason ↦ err reason
  | ok _ ↦
      if str_eq (trim_space consumer) ""
      then err "consumer is required"
      else ok (trim_space consumer <> (":" <> e.event_id))
]
