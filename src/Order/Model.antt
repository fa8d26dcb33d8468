-- ===== src/Order/Model.antt =====
-- services/order/internal/app/model.go: orders, operations, intents, the checks on a new order, the
-- transitions between states, and the arithmetic of amounts. Times count nanoseconds.
use seckill_mall.Base.{
  ℕ, ◌-◌, ◌^◌, ◌*◌, ◌/◌, ◌+◌, String, ◌<>◌, byte_len, Bool, true, false, ◌&&◌, ◌||◌, not, Option,
  none, some, List, [], ◌∷◌, ℤ, pos, pos_part, leb_ℤ, ltb_ℤ, add64, mul64, int64_limit, ltb, ◌==◌,
  str_eq, if◌then◌else◌, trim_space, Result, ok, err,
}

abbrev pub order_type_normal : String
order_type_normal = "normal"

abbrev pub order_type_seckill : String
order_type_seckill = "seckill"

pub data Status : Type 0 where
  pending_payment paid shipped completed canceled refund_pending refunded : Status

-- `internal` is the code that ErrorCode gives to an error of another type.
pub data Code : Type 0 where
  validation not_found conflict forbidden out_of_stock invalid_transition unavailable internal :
      Code

-- Error, with the text of its cause
pub record Error : Type 0 where
  pub code : Code
  pub message : String
  pub cause : Option String

-- NewError without a cause
abbrev pub new_error : Code → String → Error
new_error code message = record { code = code; message = message; cause = none }

-- Error.Error
unfoldable pub error_text : Error → String
error_text e = elim e.cause [ none ↦ e.message | some text ↦ e.message <> (": " <> text) ]

pub record Sku : Type 0 where
  pub id : ℕ
  pub code : String
  pub name : String
  pub price_cents : ℤ
  pub active : Bool

pub record Address : Type 0 where
  pub id : ℕ
  pub user_id : ℕ
  pub recipient : String
  pub phone : String
  pub province : String
  pub city : String
  pub district : String
  pub detail : String

pub record Item : Type 0 where
  pub sku_id : ℕ
  pub sku_code : String
  pub sku_name : String
  pub unit_price_cents : ℤ
  pub quantity : ℤ
  pub subtotal_cents : ℤ
  pub reservation_id : String

-- `from_status` is none for the empty text.
pub record StatusHistory : Type 0 where
  pub from_status : Option Status
  pub to_status : Status
  pub reason : String
  pub actor_type : String
  pub actor_id : ℕ
  pub created_at : ℕ

pub record Order : Type 0 where
  pub order_id : String
  pub user_id : ℕ
  pub address_id : ℕ
  pub order_type : String
  pub status : Status
  pub total_amount_cents : ℤ
  pub idempotency_key : String
  pub request_digest : String
  pub address_snapshot : Address
  pub items : List Item
  pub status_history : List StatusHistory
  pub expires_at : ℕ
  pub created_at : ℕ
  pub updated_at : ℕ

pub record CreateItem : Type 0 where
  pub sku_id : ℕ
  pub quantity : ℤ

pub record CreateCommand : Type 0 where
  pub user_id : ℕ
  pub address_id : ℕ
  pub order_type : String
  pub activity_id : ℕ
  pub idempotency_key : String
  pub items : List CreateItem

pub record Reservation : Type 0 where
  pub reservation_id : String
  pub order_id : String
  pub sku_id : ℕ
  pub quantity : ℤ
  pub status : String

pub record ReserveCommand : Type 0 where
  pub reservation_id : String
  pub order_id : String
  pub user_id : ℕ
  pub activity_id : ℕ
  pub sku_id : ℕ
  pub quantity : ℤ
  pub mode : String

pub data Kind : Type 0 where
  release confirm restock : Kind
  unsupported : String → Kind

pub data OperationStatus : Type 0 where
  pending_retry done failed : OperationStatus

pub record Operation : Type 0 where
  pub id : String
  pub order_id : String
  pub kind : Kind
  pub reservation_id : String
  pub status : OperationStatus
  pub attempts : ℕ
  pub last_error : String
  pub next_retry_at : ℕ
  pub created_at : ℕ
  pub updated_at : ℕ

pub data IntentStatus : Type 0 where
  started done failed : IntentStatus

-- `payload` is what the stored bytes decode to, none if they do not decode.
pub record CreateIntent : Type 0 where
  pub intent_id : String
  pub user_id : ℕ
  pub idempotency_key : String
  pub request_digest : String
  pub order_id : String
  pub status : IntentStatus
  pub attempts : ℕ
  pub payload : Option CreateCommand
  pub last_error : String
  pub next_retry_at : ℕ
  pub created_at : ℕ
  pub updated_at : ℕ

abbrev pub max_operation_attempts : ℕ
max_operation_attempts = 8

abbrev pub max_create_intent_attempts : ℕ
max_create_intent_attempts = 8

abbrev seen_before : ℕ → List ℕ → Bool
seen_before x [] = false
seen_before x (y ∷ ys) = y == x || seen_before x ys

-- The loop of validateCreate over the items.
unfoldable pub check_items : List ℕ → List CreateItem → Result Error (Unit {0})
check_items seen [] = ok tt
check_items seen (item ∷ rest) =
    let checked = check_items (item.sku_id ∷ seen) rest in
    if item.sku_id == 0 || (leb_ℤ item.quantity (pos 0) || ltb_ℤ (pos 99) item.quantity)
    then err (new_error validation "SKU 或数量无效")
    else if seen_before item.sku_id seen
    then err (new_error validation "同一 SKU 不能重复提交")
    else checked

abbrev count {ℓ} : {A : Type ℓ} → List A → ℕ
count [] = 0
count (_ ∷ xs) = count xs + 1

-- The tests of validateCreate after its loop.
abbrev check_single : Bool → List CreateItem → Result Error (Unit {0}) → Result Error (Unit {0})
check_single seckill items (err e) = err e
check_single seckill items (ok _) =
    if seckill && not (count items == 1) then err (new_error validation "秒杀订单只能包含一个 SKU") else ok tt

-- validateCreate
unfoldable pub validate_create : CreateCommand → Result Error (Unit {0})
unfolding byte_len
validate_create c =
    let order_type = trim_space c.order_type in
    let seckill = str_eq order_type order_type_seckill in
    if c.user_id == 0 || c.address_id == 0
    then err (new_error validation "用户和地址不能为空")
    else if not (str_eq order_type order_type_normal) && not seckill
    then err (new_error validation "订单类型无效")
    else if str_eq (trim_space c.idempotency_key) "" || ltb 128 (byte_len c.idempotency_key)
    then err (new_error validation "Idempotency-Key 不能为空且长度不能超过 128")
    else if count c.items == 0
    then err (new_error validation "订单至少需要一个 SKU")
    else if seckill && c.activity_id == 0
    then err (new_error validation "秒杀活动不能为空")
    else check_single seckill c.items (check_items [] c.items)

-- canTransition
unfoldable pub can_transition : Status → Status → Bool
can_transition pending_payment paid = true
can_transition pending_payment canceled = true
can_transition paid shipped = true
can_transition paid refund_pending = true
can_transition shipped completed = true
can_transition shipped refund_pending = true
can_transition refund_pending refunded = true
can_transition _ _ = false

abbrev pub same_status : Status → Status → Bool
same_status pending_payment pending_payment = true
same_status paid paid = true
same_status shipped shipped = true
same_status completed completed = true
same_status canceled canceled = true
same_status refund_pending refund_pending = true
same_status refunded refunded = true
same_status _ _ = false

-- The greatest int64.
abbrev max_int64 : ℕ
max_int64 = int64_limit - 1

-- subtotal. Its division is of a positive number by a positive one.
unfoldable pub subtotal : ℤ → ℤ → Result Error ℤ
subtotal price quantity =
    if ltb_ℤ price (pos 0)
      || (leb_ℤ quantity (pos 0) || ltb_ℤ (pos (max_int64 / pos_part quantity)) price)
    then err (new_error validation "金额或数量无效")
    else ok (mul64 price quantity)

-- addAmount
unfoldable pub add_amount : ℤ → ℤ → Result Error ℤ
add_amount left right =
    if ltb_ℤ left (pos 0) || (ltb_ℤ right (pos 0) || ltb_ℤ (pos (max_int64 - pos_part right)) left)
    then err (new_error validation "订单金额超出范围")
    else ok (add64 left right)

abbrev pub kind_text : Kind → String
kind_text release = "release"
kind_text confirm = "confirm"
kind_text restock = "restock"
kind_text (unsupported text) = text

-- operationID
unfoldable pub operation_id : Kind → String → String → String
operation_id kind order_id reservation_id =
    kind_text kind <> (":" <> (order_id <> (":" <> reservation_id)))

abbrev pub second : ℕ
second = 1000000000

-- retryDelay
unfoldable pub retry_delay : ℕ → ℕ
retry_delay attempt =
    let clamped = if ltb attempt 1 then 1 else if ltb 6 attempt then 6 else attempt in
    2 ^ (clamped - 1) * second
