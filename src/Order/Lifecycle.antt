-- ===== src/Order/Lifecycle.antt =====
-- services/order/internal/app/service.go: cancellation, payment, shipping, receipt and refund.
use seckill_mall.Base.{
  ℕ, ◌+◌, String, ◌<>◌, Bool, true, false, ◌||◌, List, [], ◌∷◌, ltb, ◌==◌, str_eq, if◌then◌else◌,
  trim_space, Result, ok, err, map_answer, Action, pure, fail, gets, fail_if, ◌>>=◌, ◌>>◌,
}
use seckill_mall.Contracts.Events.{EventEnvelope}
use seckill_mall.Order.Model.{
  Status, pending_payment, paid, shipped, completed, canceled, refund_pending, refunded, Error,
  new_error, validation, invalid_transition, Item, Order, Operation, OperationStatus, pending_retry,
  Kind, release, confirm, restock, operation_id, error_text, same_status, second,
}
use seckill_mall.Order.Repository.{get, transition, save_operation, list_expired}
use seckill_mall.Order.World.{World, InventoryClient, stored, call_of}

-- The operation that keeps a failed remote call for a later attempt.
unfoldable pub pending_operation : Kind → String → String → Error → ℕ → Operation
pending_operation kind order_id reservation_id e now = record {
  id = operation_id kind order_id reservation_id;
  order_id = order_id;
  kind = kind;
  reservation_id = reservation_id;
  status = pending_retry;
  attempts = 1;
  last_error = error_text e;
  next_retry_at = now + second;
  created_at = now;
  updated_at = now;
}

-- The operation that restockItems keeps of a call that succeeded.
unfoldable pub done_operation : Kind → String → String → ℕ → Operation
done_operation kind order_id reservation_id now = record {
  id = operation_id kind order_id reservation_id;
  order_id = order_id;
  kind = kind;
  reservation_id = reservation_id;
  status = OperationStatus.done;
  attempts = 1;
  last_error = "";
  next_retry_at = 0;
  created_at = now;
  updated_at = now;
}

abbrev pub blank : String → Bool
blank s = str_eq (trim_space s) ""

-- The limit of Expire, RetryOperations and RecoverCreateIntents, where the caller's is 0, negative
-- (read as 0 here) or above 1000.
abbrev pub batch_limit : ℕ → ℕ
batch_limit limit = if limit == 0 || ltb 1000 limit then 100 else limit

module _ {S I : Type 0} (append : EventEnvelope → Action S Error (Unit {0}))
    (client : InventoryClient I) (clock : I → ℕ) where
  -- s.now()
  abbrev time : Action (World S I) Error ℕ
  time = gets (λ w. clock w.outside)

  -- saveOperation: an error of the repository is dropped.
  unfoldable pub keep_operation : Operation → Action (World S I) Error (Unit {0})
  keep_operation operation w =
      (ok tt, record w { repository = (save_operation operation w.repository).1 })

  -- A call that fails is kept as a pending operation, and its error is returned.
  unfoldable pub called :
      Kind → String → String → Result Error (Unit {0}) → Action (World S I) Error (Unit {0})
  called kind order_id id (ok _) = pure tt
  called kind order_id id (err e) = do
    now ← time
    keep_operation (pending_operation kind order_id id e now)
    fail e

  -- The loops over the items of an order: each item's reservation is confirmed or released.
  unfoldable pub call_items : Kind → String → List Item → Action (World S I) Error (Unit {0})
  call_items kind order_id [] w = (ok tt, w)
  call_items kind order_id (item ∷ rest) w =
      let (result, outside') = call_of client kind item.reservation_id order_id w.outside in
      let (kept, w') =
        called kind order_id item.reservation_id result (record w { outside = outside' }) in
      elim kept [ err e ↦ (err e, w') | ok _ ↦ call_items kind order_id rest w' ]

  -- restockItems: a call that succeeds is kept as a finished operation.
  unfoldable pub restock_items : String → List Item → Action (World S I) Error (Unit {0})
  restock_items order_id [] w = (ok tt, w)
  restock_items order_id (item ∷ rest) w =
      let (result, outside') = call_of client restock item.reservation_id order_id w.outside in
      let (kept, w') =
        called restock order_id item.reservation_id result (record w { outside = outside' }) in
      let finished = done_operation restock order_id item.reservation_id (clock w'.outside) in
      elim kept [
        | err e ↦ (err e, w')
        | ok _ ↦ restock_items order_id rest (keep_operation finished w').1
      ]

  -- The end of the operations: one transition at the present time.
  unfoldable pub transit :
      String → ℕ → Status → String → String → ℕ → Action (World S I) Error Order
  transit order_id user_id target reason actor_type actor_id = do
    now ← time
    stored (transition append order_id user_id target reason actor_type actor_id now)

  unfoldable pub cancel_found :
      ℕ → String → String → ℕ → Bool → Order → Action (World S I) Error Order
  cancel_found user_id reason actor_type actor_id true order = pure order
  cancel_found user_id reason actor_type actor_id false order = do
    call_items release order.order_id order.items
    transit order.order_id user_id canceled (if str_eq reason "" then "用户取消" else reason) actor_type
        actor_id

  -- cancel
  unfoldable pub cancel_order : ℕ → String → String → String → ℕ → Action (World S I) Error Order
  cancel_order user_id order_id reason actor_type actor_id = do
    fail_if (str_eq order_id "") (new_error validation "订单号不能为空")
    order ← stored (get user_id order_id)
    cancel_found user_id reason actor_type actor_id (same_status order.status canceled) order

  -- Cancel
  unfoldable pub cancel : ℕ → String → String → Action (World S I) Error Order
  cancel user_id order_id reason = do
    fail_if (user_id == 0) (new_error validation "用户不能为空")
    cancel_order user_id (trim_space order_id) (trim_space reason) "user" user_id

  -- The loop of Expire, which answers the number of orders that it has cancelled and the error at
  -- which it stopped, if it did.
  unfoldable pub expire_each : List Order → ℕ → Action (World S I) (ℕ × Error) ℕ
  expire_each [] count w = (ok count, w)
  expire_each (value ∷ rest) count w =
      let (result, w') = cancel_order 0 value.order_id "支付超时" "system" 0 w in
      elim result [ err e ↦ (err (count, e), w') | ok _ ↦ expire_each rest (count + 1) w' ]

  -- Expire
  unfoldable pub expire : ℕ → Action (World S I) (ℕ × Error) ℕ
  expire limit w = expire_each (list_expired (clock w.outside) (batch_limit limit) w.repository) 0 w

  unfoldable pub pay_found : ℕ → String → Status → Order → Action (World S I) Error (Order × Bool)
  pay_found user_id payment_no paid order = pure (order, true)
  pay_found user_id payment_no pending_payment order = do
    call_items confirm order.order_id order.items
    map_answer (λ value. (value, false))
        (transit order.order_id user_id paid ("支付成功: " <> trim_space payment_no) "payment" 0)
  pay_found user_id payment_no _ order = fail (new_error invalid_transition "当前订单不能完成支付")

  -- ConfirmPayment
  unfoldable pub confirm_payment :
      ℕ → String → String → String → Action (World S I) Error (Order × Bool)
  confirm_payment user_id order_id payment_no callback_ref = do
    fail_if (user_id == 0 || (blank order_id || (blank payment_no || blank callback_ref)))
        (new_error validation "支付确认参数不能为空")
    order ← stored (get user_id (trim_space order_id))
    pay_found user_id payment_no order.status order

  unfoldable pub ship_found : ℕ → String → String → Bool → Order → Action (World S I) Error Order
  ship_found actor_id carrier tracking_no true value = pure value
  ship_found actor_id carrier tracking_no false value =
      transit value.order_id 0 shipped
        ("订单已发货: " <> (trim_space carrier <> ("/" <> trim_space tracking_no))) "admin" actor_id

  -- Ship
  unfoldable pub ship : ℕ → String → String → String → Action (World S I) Error Order
  ship actor_id order_id carrier tracking_no = do
    fail_if (actor_id == 0 || (blank order_id || (blank carrier || blank tracking_no)))
        (new_error validation "发货参数无效")
    value ← stored (get 0 (trim_space order_id))
    ship_found actor_id carrier tracking_no (same_status value.status shipped) value

  -- ConfirmReceipt
  unfoldable pub confirm_receipt : ℕ → String → Action (World S I) Error Order
  confirm_receipt user_id order_id = do
    fail_if (user_id == 0 || blank order_id) (new_error validation "收货参数无效")
    transit (trim_space order_id) user_id completed "用户确认收货" "user" user_id

  unfoldable pub shipment_found :
      String → String → Status → Order → Action (World S I) Error (Unit {0})
  shipment_found carrier tracking_no shipped value = pure tt
  shipment_found carrier tracking_no completed value = pure tt
  shipment_found carrier tracking_no paid value =
      map_answer (λ _. tt)
        (transit value.order_id 0 shipped
          ("履约发货 " <> (trim_space carrier <> ("/" <> trim_space tracking_no))) "fulfillment" 0)
  shipment_found carrier tracking_no _ value = fail (new_error invalid_transition "订单尚未支付，不能应用发货事实")

  -- ApplyShipmentCreated
  unfoldable pub apply_shipment_created :
      String → String → String → Action (World S I) Error (Unit {0})
  apply_shipment_created order_id carrier tracking_no = do
    value ← stored (get 0 (trim_space order_id))
    shipment_found carrier tracking_no value.status value

  unfoldable pub delivery_found : Status → Order → Action (World S I) Error (Unit {0})
  delivery_found completed value = pure tt
  delivery_found shipped value =
      map_answer (λ _. tt) (transit value.order_id 0 completed "履约已收货" "fulfillment" 0)
  delivery_found _ value = fail (new_error invalid_transition "订单尚未发货，不能应用收货事实")

  -- ApplyShipmentDelivered
  unfoldable pub apply_shipment_delivered : String → Action (World S I) Error (Unit {0})
  apply_shipment_delivered order_id = do
    value ← stored (get 0 (trim_space order_id))
    delivery_found value.status value

  -- The end of Refund: the goods go back to the stock before the order is refunded.
  unfoldable pub refund_pending_order : ℕ → String → Order → Action (World S I) Error Order
  refund_pending_order user_id refund_no value = do
    restock_items value.order_id value.items
    transit value.order_id user_id refunded ("退款完成: " <> trim_space refund_no) "payment" 0

  unfoldable pub apply_refund : ℕ → String → String → Order → Action (World S I) Error Order
  apply_refund user_id refund_no reason value = do
    transit value.order_id user_id refund_pending ("申请退款: " <> trim_space reason) "user" user_id
    refund_pending_order user_id refund_no value

  unfoldable pub refund_found :
      ℕ → String → String → Status → Order → Action (World S I) Error Order
  refund_found user_id refund_no reason refunded value = pure value
  refund_found user_id refund_no reason paid value = apply_refund user_id refund_no reason value
  refund_found user_id refund_no reason shipped value = apply_refund user_id refund_no reason value
  refund_found user_id refund_no reason refund_pending value =
      refund_pending_order user_id refund_no value
  refund_found user_id refund_no reason _ value = fail (new_error invalid_transition "当前订单不能退款")

  -- Refund
  unfoldable pub refund : ℕ → String → String → String → Action (World S I) Error Order
  refund user_id order_id refund_no reason = do
    fail_if (user_id == 0 || (blank order_id || (blank refund_no || blank reason)))
        (new_error validation "退款参数无效")
    value ← stored (get user_id (trim_space order_id))
    refund_found user_id refund_no reason value.status value
