-- ===== src/Contracts/Payloads.antt =====
-- shared/contracts/payloads.go: the payload structs, the JSON objects they are marshalled to, and
-- the check of the required fields.
use seckill_mall.Base.{
  ℕ, String, ◌<>◌, ◌||◌, not, none, some, List, [], ◌∷◌, ℤ, pos, eqb_ℤ, str_eq, if◌then◌else◌,
  Result, ok, err, Table, lookup,
}
use seckill_mall.Contracts.Events.{
  OrderItemPayload, Value, text, number, texts, items, Payload, object, EventEnvelope, validate,
  is_known_event_type, seckill_accepted, order_created, order_cancelled, payment_succeeded,
  payment_refunded, inventory_reserved, inventory_released, inventory_restocked, shipment_created,
  shipment_delivered,
}

pub record SeckillAcceptedPayload : Type 0 where
  pub order_id : String
  pub reservation_id : String
  pub user_id : ℕ
  pub activity_id : ℕ
  pub sku_id : ℕ
  pub quantity : ℤ

pub record OrderCreatedPayload : Type 0 where
  pub order_id : String
  pub user_id : ℕ
  pub order_type : String
  pub total_amount_cents : ℤ
  pub items : List OrderItemPayload

pub record OrderCancelledPayload : Type 0 where
  pub order_id : String
  pub user_id : ℕ
  pub reason : String
  pub reservation_ids : List String

pub record PaymentSucceededPayload : Type 0 where
  pub payment_no : String
  pub order_id : String
  pub user_id : ℕ
  pub amount_cents : ℤ
  pub callback_ref : String

pub record PaymentRefundedPayload : Type 0 where
  pub refund_no : String
  pub payment_no : String
  pub order_id : String
  pub user_id : ℕ
  pub amount_cents : ℤ
  pub reason : String

pub record InventoryReservationPayload : Type 0 where
  pub reservation_id : String
  pub order_id : String
  pub user_id : ℕ
  pub sku_id : ℕ
  pub quantity : ℤ
  pub mode : String

pub record ShipmentPayload : Type 0 where
  pub order_id : String
  pub carrier : String
  pub tracking_no : String
  pub status : String

-- json.Marshal of each struct. The slices that the callers build are never nil.
unfoldable pub order_created_json : OrderCreatedPayload → Payload
order_created_json p = object (
    ("order_id", text p.order_id)
    ∷ ("user_id", number (pos p.user_id))
    ∷ ("order_type", text p.order_type)
    ∷ ("total_amount_cents", number p.total_amount_cents)
    ∷ ("items", items p.items)
    ∷ [])

unfoldable pub order_cancelled_json : OrderCancelledPayload → Payload
order_cancelled_json p = object (
    ("order_id", text p.order_id)
    ∷ ("user_id", number (pos p.user_id))
    ∷ ("reason", text p.reason)
    ∷ ("reservation_ids", texts p.reservation_ids)
    ∷ [])

unfoldable pub payment_succeeded_json : PaymentSucceededPayload → Payload
payment_succeeded_json p = object (
    ("payment_no", text p.payment_no)
    ∷ ("order_id", text p.order_id)
    ∷ ("user_id", number (pos p.user_id))
    ∷ ("amount_cents", number p.amount_cents)
    ∷ ("callback_ref", text p.callback_ref)
    ∷ [])

unfoldable pub payment_refunded_json : PaymentRefundedPayload → Payload
payment_refunded_json p = object (
    ("refund_no", text p.refund_no)
    ∷ ("payment_no", text p.payment_no)
    ∷ ("order_id", text p.order_id)
    ∷ ("user_id", number (pos p.user_id))
    ∷ ("amount_cents", number p.amount_cents)
    ∷ ("reason", text p.reason)
    ∷ [])

unfoldable pub inventory_reservation_json : InventoryReservationPayload → Payload
inventory_reservation_json p = object (
    ("reservation_id", text p.reservation_id)
    ∷ ("order_id", text p.order_id)
    ∷ ("user_id", number (pos p.user_id))
    ∷ ("sku_id", number (pos p.sku_id))
    ∷ ("quantity", number p.quantity)
    ∷ ("mode", text p.mode)
    ∷ [])

-- `omitempty`
abbrev unless_empty : String → String → Table Value → Table Value
unless_empty field s rest = if str_eq s "" then rest else (field, text s) ∷ rest

unfoldable pub shipment_json : ShipmentPayload → Payload
shipment_json p = object (
    ("order_id", text p.order_id)
    ∷ unless_empty "carrier" p.carrier
        (unless_empty "tracking_no" p.tracking_no (("status", text p.status) ∷ [])))

-- The table of required fields of ValidateEventPayload.
unfoldable pub required_fields : String → List String
required_fields t =
    if str_eq t seckill_accepted
    then "order_id" ∷ "reservation_id" ∷ "user_id" ∷ "sku_id" ∷ "quantity" ∷ []
    else if str_eq t order_created
    then "order_id" ∷ "user_id" ∷ "total_amount_cents" ∷ "items" ∷ []
    else if str_eq t order_cancelled
    then "order_id" ∷ "user_id" ∷ "reason" ∷ "reservation_ids" ∷ []
    else if str_eq t payment_succeeded
    then "payment_no" ∷ "order_id" ∷ "user_id" ∷ "amount_cents" ∷ "callback_ref" ∷ []
    else if str_eq t payment_refunded
    then "refund_no" ∷ "payment_no" ∷ "order_id" ∷ "user_id" ∷ "amount_cents" ∷ "reason" ∷ []
    else if str_eq t inventory_reserved
        || str_eq t inventory_released
        || str_eq t inventory_restocked
    then "reservation_id" ∷ "order_id" ∷ "user_id" ∷ "sku_id" ∷ "quantity" ∷ []
    else if str_eq t shipment_created || str_eq t shipment_delivered
    then "order_id" ∷ "status" ∷ []
    else []

unfoldable pub check_fields : List String → Table Value → Result String (Unit {0})
unfolding lookup
check_fields [] raw = ok tt
check_fields (field ∷ fields) raw = elim (lookup field raw) [
  | none ↦ err ("event payload field is required: " <> field)
  | some Value.null ↦ err ("event payload field is required: " <> field)
  | some _ ↦ check_fields fields raw
]

unfoldable pub check_object : List String → Payload → Result String (Unit {0})
unfolding check_fields
check_object fields (object raw) = check_fields fields raw
check_object fields _ = err "event payload must be a JSON object"

-- ValidateEventPayload
unfoldable pub validate_event_payload : EventEnvelope → Result String (Unit {0})
unfolding is_known_event_type
validate_event_payload e = elim (validate e) [
  | err reason ↦ err reason
  | ok _ ↦
      if not (eqb_ℤ e.event_version (pos 1)) || not (is_known_event_type e.event_type)
      then ok tt
      else check_object (required_fields e.event_type) e.payload
]
