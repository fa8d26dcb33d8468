-- ===== src/Order/Retry.antt =====
-- services/order/internal/app/service.go: RetryOperations, which repeats the kept remote calls, and
-- the finishing of the orders that waited for them.
use seckill_mall.Base.{
  ℕ, ◌+◌, String, Bool, true, false, List, [], ◌∷◌, leb, if◌then◌else◌, Result, ok, err, map_answer,
  Action, pure, fail, ◌>>=◌, ◌>>◌,
}
use seckill_mall.Contracts.Events.{EventEnvelope}
use seckill_mall.Order.Model.{
  Status, pending_payment, paid, canceled, refund_pending, refunded, Error, not_found, Item, Order,
  Operation, OperationStatus, Kind, release, confirm, restock, unsupported, error_text, retry_delay,
  max_operation_attempts,
}
use seckill_mall.Order.Repository.{get, update_operation, list_pending_operations}
use seckill_mall.Order.World.{World, InventoryClient, stored, remote, call_of}
use seckill_mall.Order.Lifecycle.{batch_limit, call_items, restock_items, transit}

abbrev pub is_not_found : Error → Bool
is_not_found e = elim e.code [ not_found ↦ true | _ ↦ false ]

-- The operation after a repeated call, at its time `now`.
unfoldable pub repeated_operation : Operation → ℕ → Result Error (Unit {0}) → Operation
repeated_operation operation now (ok _) = record operation {
  attempts = operation.attempts + 1;
  updated_at = now;
  status = OperationStatus.done;
  last_error = "";
}
repeated_operation operation now (err e) = record operation {
  attempts = operation.attempts + 1;
  updated_at = now;
  last_error = error_text e;
  next_retry_at = now + retry_delay (operation.attempts + 1);
}

-- An operation that was tried too often.
unfoldable pub exhausted_operation : Operation → ℕ → Operation
exhausted_operation operation now = record operation {
  status = OperationStatus.failed;
  last_error = "超过最大重试次数";
  updated_at = now;
}

unfoldable pub unsupported_operation : Operation → ℕ → Operation
unsupported_operation operation now = record operation {
  attempts = operation.attempts + 1;
  last_error = "unsupported operation kind";
  next_retry_at = now + retry_delay (operation.attempts + 1);
  updated_at = now;
}

-- The outcome of the loop: go on with a count, or stop with a count and an error.
abbrev pub Progress : Type 0 → Type 0
Progress W = Result (ℕ × Error) ℕ × W

module _ {S I : Type 0} (append : EventEnvelope → Action S Error (Unit {0}))
    (client : InventoryClient I) (clock : I → ℕ) where
  -- The loop of finalizePendingPayment, which keeps no operation of a call that fails.
  unfoldable pub confirm_each : String → List Item → Action I Error (Unit {0})
  confirm_each order_id [] i = (ok tt, i)
  confirm_each order_id (item ∷ rest) i =
      let (result, i') = call_of client confirm item.reservation_id order_id i in
      elim result [ err e ↦ (err e, i') | ok _ ↦ confirm_each order_id rest i' ]

  unfoldable pub finalize_payment_found : Status → Order → Action (World S I) Error (Unit {0})
  finalize_payment_found pending_payment value = do
    remote (confirm_each value.order_id value.items)
    map_answer (λ _. tt) (transit append client clock value.order_id 0 paid "支付成功补偿完成" "payment" 0)
  finalize_payment_found _ value = pure tt

  -- finalizePendingPayment
  unfoldable pub finalize_pending_payment : String → Action (World S I) Error (Unit {0})
  finalize_pending_payment order_id = do
    value ← stored (get 0 order_id)
    finalize_payment_found value.status value

  unfoldable pub finalize_cancellation_found : Status → Order → Action (World S I) Error (Unit {0})
  finalize_cancellation_found pending_payment value = do
    call_items append client clock release value.order_id value.items
    map_answer (λ _. tt)
        (transit append client clock value.order_id 0 canceled "库存释放补偿完成" "system" 0)
  finalize_cancellation_found _ value = pure tt

  -- An order that is not there has nothing to be finished.
  unfoldable pub finalize_cancellation_got :
      Result Error Order → Action (World S I) Error (Unit {0})
  finalize_cancellation_got (err e) = if is_not_found e then pure tt else fail e
  finalize_cancellation_got (ok value) = finalize_cancellation_found value.status value

  -- finalizePendingCancellation
  unfoldable pub finalize_pending_cancellation : String → Action (World S I) Error (Unit {0})
  finalize_pending_cancellation order_id w =
      finalize_cancellation_got (get 0 order_id w.repository).0 w

  unfoldable pub finalize_refund_found : Status → Order → Action (World S I) Error (Unit {0})
  finalize_refund_found refund_pending value = do
    restock_items append client clock value.order_id value.items
    map_answer (λ _. tt)
        (transit append client clock value.order_id 0 refunded "退款补偿完成" "payment" 0)
  finalize_refund_found _ value = pure tt

  -- finalizePendingRefund
  unfoldable pub finalize_pending_refund : String → Action (World S I) Error (Unit {0})
  finalize_pending_refund order_id = do
    value ← stored (get 0 order_id)
    finalize_refund_found value.status value

  unfoldable pub finalize : Kind → String → Action (World S I) Error (Unit {0})
  finalize confirm order_id = finalize_pending_payment order_id
  finalize release order_id = finalize_pending_cancellation order_id
  finalize restock order_id = finalize_pending_refund order_id
  finalize (unsupported _) order_id = pure tt

  -- What the loop does with the operation after its call was repeated: it is written back, and the
  -- order that waited for a call that succeeded is finished. `count` is of the calls that succeeded.
  unfoldable pub repeated :
      Operation → ℕ → ℕ → Result Error (Unit {0}) → World S I → Progress (World S I)
  repeated operation now count (err e) w =
      (ok count, (stored (update_operation (repeated_operation operation now (err e))) w).1)
  repeated operation now count (ok u) w =
      let w' = (stored (update_operation (repeated_operation operation now (ok u))) w).1 in
      let (result, w'') = finalize operation.kind operation.order_id w' in
      elim result [ err e ↦ (err (count + 1, e), w'') | ok _ ↦ (ok (count + 1), w'') ]

  unfoldable pub retry_known : Operation → ℕ → ℕ → World S I → Progress (World S I)
  retry_known operation now count w =
      let (result, outside') =
        call_of client operation.kind operation.reservation_id operation.order_id w.outside in
      repeated operation now count result (record w { outside = outside' })

  unfoldable pub retry_kind : Kind → Operation → ℕ → ℕ → World S I → Progress (World S I)
  retry_kind (unsupported _) operation now count w =
      (ok count, (stored (update_operation (unsupported_operation operation now)) w).1)
  retry_kind _ operation now count w = retry_known operation now count w

  -- One pass of the loop of RetryOperations.
  unfoldable pub retry_one : Operation → ℕ → ℕ → World S I → Progress (World S I)
  retry_one operation now count w =
      if leb max_operation_attempts operation.attempts
      then (ok count, (stored (update_operation (exhausted_operation operation now)) w).1)
      else retry_kind operation.kind operation now count w

  unfoldable pub retry_each : ℕ → List Operation → ℕ → World S I → Progress (World S I)
  retry_each now [] count w = (ok count, w)
  retry_each now (operation ∷ rest) count w =
      let (result, w') = retry_one operation now count w in
      elim result [ err stop ↦ (err stop, w') | ok count' ↦ retry_each now rest count' w' ]

  -- RetryOperations
  unfoldable pub retry_operations : ℕ → World S I → Progress (World S I)
  retry_operations limit w =
      let now = clock w.outside in
      retry_each now (list_pending_operations now (batch_limit limit) w.repository) 0 w
