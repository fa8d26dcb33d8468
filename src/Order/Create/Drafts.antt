-- ===== src/Order/Create/Drafts.antt =====
-- services/order/internal/app/service.go: the parts of Create that call nothing: the sorted items, the
-- digest, the prices, the new order and the intent.
use seckill_mall.Base.{
  take_bytes, ℕ, ◌+◌, String, ◌<>◌, Bool, true, not, Option, none, some, List, [], ◌∷◌, ◌++◌, ℤ,
  leb, ◌==◌, str_eq, if◌then◌else◌, trim_space, Result, ok, err,
}
use seckill_mall.Base.Decimal.{show_uint}
use seckill_mall.Base.Parsing.{show_int}
use seckill_mall.Order.Model.{
  pending_payment, Error, new_error, not_found, Sku, Address, Item, Order, CreateItem,
  CreateCommand, Reservation, ReserveCommand, CreateIntent, IntentStatus, error_text, subtotal,
  add_amount, retry_delay,
}

-- sort.Slice by SKU. The SKUs of a valid command are distinct.
abbrev insert_item : CreateItem → List CreateItem → List CreateItem
insert_item x [] = x ∷ []
insert_item x (y ∷ ys) =
    let rest = insert_item x ys in if leb x.sku_id y.sku_id then x ∷ y ∷ ys else y ∷ rest

unfoldable pub sort_items : List CreateItem → List CreateItem
sort_items [] = []
sort_items (x ∷ xs) = insert_item x (sort_items xs)

-- compactError
unfoldable pub compact_error : Error → String
compact_error e = take_bytes 255 (error_text e)

unfoldable pub digest_items : List CreateItem → String
digest_items [] = ""
digest_items (item ∷ rest) =
    show_uint item.sku_id <> (":" <> (show_int item.quantity <> (";" <> digest_items rest)))

-- The text that requestDigest hashes.
unfoldable pub digest_text : CreateCommand → String
digest_text c =
    show_uint c.user_id
    <> ("|"
        <> (show_uint c.address_id
            <> ("|"
                <> (c.order_type
                    <> ("|"
                        <> (show_uint c.activity_id
                            <> ("|" <> digest_items (sort_items c.items))))))))

-- A map from the ids of the SKUs, which the last of a repeated id fills.
unfoldable pub find_sku : ℕ → List Sku → Option Sku
find_sku id [] = none
find_sku id (sku ∷ rest) = elim (find_sku id rest) [
  | some later ↦ some later
  | none ↦ if sku.id == id then some sku else none
]

-- What the loop over the items has gathered.
pub record Draft : Type 0 where
  pub total : ℤ
  pub reservations : List Reservation
  pub items : List Item

-- The price of a line and the total with it.
unfoldable pub price_line : CreateItem → Option Sku → ℤ → Result Error (Sku × ℤ × ℤ)
price_line requested none total = err (new_error not_found "SKU 不存在或未上架")
price_line requested (some sku) total =
    if not sku.active
    then err (new_error not_found "SKU 不存在或未上架")
    else elim (subtotal sku.price_cents requested.quantity) [
      | err e ↦ err e
      | ok line ↦ elim (add_amount total line) [ err e ↦ err e | ok sum ↦ ok (sku, line, sum) ]
    ]

abbrev pub command_of : String → CreateCommand → CreateItem → ReserveCommand
command_of order_id c requested = record {
  reservation_id = "res_" <> (order_id <> ("_" <> show_uint requested.sku_id));
  order_id = order_id;
  user_id = c.user_id;
  activity_id = c.activity_id;
  sku_id = requested.sku_id;
  quantity = requested.quantity;
  mode = c.order_type;
}

abbrev pub line_of : CreateItem → Sku → ℤ → Reservation → Item
line_of requested sku line reservation = record {
  sku_id = sku.id;
  sku_code = sku.code;
  sku_name = sku.name;
  unit_price_cents = sku.price_cents;
  quantity = requested.quantity;
  subtotal_cents = line;
  reservation_id = reservation.reservation_id;
}

abbrev pub add_line : Draft → CreateItem → Sku → ℤ → ℤ → Reservation → Draft
add_line draft requested sku line sum reservation = record {
  total = sum;
  reservations = draft.reservations ++ reservation ∷ [];
  items = draft.items ++ line_of requested sku line reservation ∷ [];
}

unfoldable pub new_order : CreateCommand → String → String → ℕ → ℕ → Address → Draft → Order
new_order c digest order_id now ttl address draft = record {
  order_id = order_id;
  user_id = c.user_id;
  address_id = c.address_id;
  order_type = c.order_type;
  status = pending_payment;
  total_amount_cents = draft.total;
  idempotency_key = c.idempotency_key;
  request_digest = digest;
  address_snapshot = address;
  items = draft.items;
  status_history =
      record {
        from_status = none;
        to_status = pending_payment;
        reason = "创建订单";
        actor_type = "user";
        actor_id = c.user_id;
        created_at = now;
      }
      ∷ [];
  expires_at = now + ttl;
  created_at = now;
  updated_at = now;
}

-- The intent at the end of Create.
unfoldable pub settled_intent : CreateIntent → Result Error (Order × Bool) → ℕ → CreateIntent
settled_intent intent (ok _) now = record intent {
  updated_at = now;
  status = IntentStatus.done;
  last_error = "";
}
settled_intent intent (err e) now = record intent {
  updated_at = now;
  status = IntentStatus.failed;
  attempts = intent.attempts + 1;
  last_error = compact_error e;
  next_retry_at = now + retry_delay 1;
}

abbrev pub same_digest : String → Option CreateIntent → Bool
same_digest digest none = true
same_digest digest (some intent) = str_eq intent.request_digest digest

abbrev pub attempts_of : Option CreateIntent → ℕ
attempts_of none = 0
attempts_of (some intent) = intent.attempts

abbrev pub done_intent : CreateIntent → ℕ → CreateIntent
done_intent intent now = record intent {
  status = IntentStatus.done;
  last_error = "";
  updated_at = now;
}

-- The command with its key trimmed.
abbrev pub trimmed_key : CreateCommand → CreateCommand
trimmed_key c = record c { idempotency_key = trim_space c.idempotency_key }
