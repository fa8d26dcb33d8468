-- ===== src/Contracts/Decode.antt =====
-- json.Unmarshal of the payload structs: a missing or null field leaves the zero value, a value of
-- another type or out of range is an error. Field names are matched exactly.
use seckill_mall.Base.{
  ℕ, ◌<◌, ◌≡◌, String, ◌<>◌, Option, none, some, List, [], ℤ, pos, negsuc, ltb, if◌then◌else◌,
  Result, ok, err, Action, pure, ◌>>=◌, Table, lookup, int64_limit, int64_mod, arith,
}
use seckill_mall.Contracts.Events.{Value, text, number, texts, Payload, object}
use seckill_mall.Contracts.Payloads.{
  OrderCancelledPayload, PaymentSucceededPayload, PaymentRefundedPayload, ShipmentPayload,
  order_cancelled_json, payment_succeeded_json,
}

bad_type : String → String
bad_type field = "json: cannot unmarshal field " <> field

-- A decoder reads the fields of an object, which it leaves as it is.
abbrev Decoder : Type 0 → Type 0
Decoder A = Action (Table Value) String A

text_of : String → Option Value → Result String String
unfolding bad_type
text_of field none = ok ""
text_of field (some Value.null) = ok ""
text_of field (some (text s)) = ok s
text_of field (some _) = err (bad_type field)

uint_of : String → Option Value → Result String ℕ
unfolding bad_type
uint_of field none = ok 0
uint_of field (some Value.null) = ok 0
uint_of field (some (number (pos n))) = if ltb n int64_mod then ok n else err (bad_type field)
uint_of field (some _) = err (bad_type field)

int_of : String → Option Value → Result String ℤ
unfolding bad_type
int_of field none = ok (pos 0)
int_of field (some Value.null) = ok (pos 0)
int_of field (some (number (pos n))) =
    if ltb n int64_limit then ok (pos n) else err (bad_type field)
int_of field (some (number (negsuc n))) =
    if ltb n int64_limit then ok (negsuc n) else err (bad_type field)
int_of field (some _) = err (bad_type field)

texts_of : String → Option Value → Result String (List String)
unfolding bad_type
texts_of field none = ok []
texts_of field (some Value.null) = ok []
texts_of field (some (texts ss)) = ok ss
texts_of field (some _) = err (bad_type field)

text_field : String → Decoder String
unfolding text_of lookup
text_field field t = (text_of field (lookup field t), t)

uint_field : String → Decoder ℕ
unfolding uint_of lookup
uint_field field t = (uint_of field (lookup field t), t)

int_field : String → Decoder ℤ
unfolding int_of lookup
int_field field t = (int_of field (lookup field t), t)

texts_field : String → Decoder (List String)
unfolding texts_of lookup
texts_field field t = (texts_of field (lookup field t), t)

-- `null` is decoded as an object with no field; bytes that are no object are an error.
decode : {A : Type 0} → Decoder A → Payload → Result String A
decode d (object t) = (d t).0
decode d Payload.null = (d []).0
decode d _ = err "json: not an object"

unfoldable pub decode_order_cancelled : Payload → Result String OrderCancelledPayload
unfolding decode text_field uint_field texts_field
decode_order_cancelled = decode (do
  order ← text_field "order_id"
  user ← uint_field "user_id"
  why ← text_field "reason"
  ids ← texts_field "reservation_ids"
  pure (record { order_id = order; user_id = user; reason = why; reservation_ids = ids }))

unfoldable pub decode_payment_succeeded : Payload → Result String PaymentSucceededPayload
unfolding decode text_field uint_field int_field
decode_payment_succeeded = decode (do
  payment ← text_field "payment_no"
  order ← text_field "order_id"
  user ← uint_field "user_id"
  amount ← int_field "amount_cents"
  callback ← text_field "callback_ref"
  pure (record {
    payment_no = payment;
    order_id = order;
    user_id = user;
    amount_cents = amount;
    callback_ref = callback;
  }))

unfoldable pub decode_payment_refunded : Payload → Result String PaymentRefundedPayload
unfolding decode text_field uint_field int_field
decode_payment_refunded = decode (do
  refund ← text_field "refund_no"
  payment ← text_field "payment_no"
  order ← text_field "order_id"
  user ← uint_field "user_id"
  amount ← int_field "amount_cents"
  why ← text_field "reason"
  pure (record {
    refund_no = refund;
    payment_no = payment;
    order_id = order;
    user_id = user;
    amount_cents = amount;
    reason = why;
  }))

unfoldable pub decode_shipment : Payload → Result String ShipmentPayload
unfolding decode text_field
decode_shipment = decode (do
  order ← text_field "order_id"
  by ← text_field "carrier"
  number_of ← text_field "tracking_no"
  state ← text_field "status"
  pure (record { order_id = order; carrier = by; tracking_no = number_of; status = state }))

-- The int64 numbers.
abbrev pub IsInt64 : ℤ → Type 0
IsInt64 (pos n) = n < int64_limit
IsInt64 (negsuc n) = n < int64_limit

-- order.cancelled.v1
pub decode-order_cancelled_json :
    (p : OrderCancelledPayload)
    → p.user_id < int64_mod
    → decode_order_cancelled (order_cancelled_json p) ≡ ok p
unfolding decode_order_cancelled order_cancelled_json
decode-order_cancelled_json p h = ground arith

-- payment.succeeded.v1
pub decode-payment_succeeded_json :
    (p : PaymentSucceededPayload)
    → p.user_id < int64_mod
    → IsInt64 p.amount_cents
    → decode_payment_succeeded (payment_succeeded_json p) ≡ ok p
unfolding decode_payment_succeeded payment_succeeded_json
decode-payment_succeeded_json p h k = ground arith
