-- ===== src/Order/RetryServing.antt =====
-- The repeated operations of the Order Service, and what holds of the repository after them.
use seckill_mall.Base.{
  ℕ, refl, inl, inr, String, List, [], ◌∷◌, Result, ok, err, map_answer, Bool-cases, Result-cases,
  Action, leb,
}
use seckill_mall.Contracts.Events.{EventEnvelope}
use seckill_mall.Order.Model.{
  Status, pending_payment, paid, canceled, refund_pending, refunded, Error, Order, Operation, Kind,
  release, confirm, restock, unsupported, max_operation_attempts,
}
use seckill_mall.Order.Repository.{Repository, get, update_operation}
use seckill_mall.Order.Steps.{Step, keeps}
use seckill_mall.Order.World.{World, InventoryClient, stored, remote}
use seckill_mall.Order.Lifecycle.{transit, call_items, restock_items}
use seckill_mall.Order.Retry.{
  confirm_each, finalize_payment_found, finalize_pending_payment, finalize_cancellation_found,
  finalize_cancellation_got, finalize_pending_cancellation, finalize_refund_found,
  finalize_pending_refund, finalize, repeated, retry_known, retry_kind, retry_one, retry_each,
  repeated_operation, is_not_found,
}
use seckill_mall.Order.Keeping.{
  got-Keeps, then-Keeps, call_items-Keeps, restock_items-Keeps, transit-Keeps,
}

module _ {S I : Type 0} (append : EventEnvelope → Action S Error (Unit {0}))
    (client : InventoryClient I) (clock : I → ℕ) (P : Repository S → Type 0)
    (preserved : (r u : Repository S) → Step r u → P r → P u) where
  abbrev Kept : {A : Type 0} → (World S I → A × World S I) → Type 0
  Kept m = (w : World S I) → P w.repository → P (m w).1.repository

  finalize_payment_found-Keeps :
      (status : Status) (value : Order)
      → Kept (finalize_payment_found append client clock status value)
  unfolding finalize_payment_found
  finalize_payment_found-Keeps pending_payment value w h =
      then-Keeps append client clock P preserved
        (remote (confirm_each append client clock value.order_id value.items))
        (λ _.
          map_answer (λ _. tt)
            (transit append client clock value.order_id 0 paid "支付成功补偿完成" "payment" 0))
        (λ _ k. k)
        (λ _.
          transit-Keeps append client clock P preserved value.order_id 0 paid "支付成功补偿完成" "payment"
            0)
        w h
  finalize_payment_found-Keeps _ value w h = h

  finalize_cancellation_found-Keeps :
      (status : Status) (value : Order)
      → Kept (finalize_cancellation_found append client clock status value)
  unfolding finalize_cancellation_found
  finalize_cancellation_found-Keeps pending_payment value w h =
      then-Keeps append client clock P preserved
        (call_items append client clock release value.order_id value.items)
        (λ _.
          map_answer (λ _. tt)
            (transit append client clock value.order_id 0 canceled "库存释放补偿完成" "system" 0))
        (call_items-Keeps append client clock P preserved release value.order_id value.items)
        (λ _.
          transit-Keeps append client clock P preserved value.order_id 0 canceled "库存释放补偿完成"
            "system" 0)
        w h
  finalize_cancellation_found-Keeps _ value w h = h

  finalize_refund_found-Keeps :
      (status : Status) (value : Order)
      → Kept (finalize_refund_found append client clock status value)
  unfolding finalize_refund_found
  finalize_refund_found-Keeps refund_pending value w h =
      then-Keeps append client clock P preserved
        (restock_items append client clock value.order_id value.items)
        (λ _.
          map_answer (λ _. tt)
            (transit append client clock value.order_id 0 refunded "退款补偿完成" "payment" 0))
        (restock_items-Keeps append client clock P preserved value.order_id value.items)
        (λ _.
          transit-Keeps append client clock P preserved value.order_id 0 refunded "退款补偿完成" "payment"
            0)
        w h
  finalize_refund_found-Keeps _ value w h = h

  finalize_cancellation_got-Keeps :
      (found : Result Error Order) → Kept (finalize_cancellation_got append client clock found)
  unfolding finalize_cancellation_got
  finalize_cancellation_got-Keeps (ok value) w h =
      finalize_cancellation_found-Keeps value.status value w h
  finalize_cancellation_got-Keeps (err e) w h = elim (Bool-cases (is_not_found e)) [
    | inl absent ↦ rw absent h
    | inr other ↦ rw other h
  ]

  finalize-Keeps :
      (kind : Kind) (order_id : String) → Kept (finalize append client clock kind order_id)
  unfolding finalize finalize_pending_payment finalize_pending_cancellation finalize_pending_refund
  finalize-Keeps confirm order_id w h =
      got-Keeps append client clock P preserved 0 order_id
        (λ value. finalize_payment_found append client clock value.status value)
        (λ value. finalize_payment_found-Keeps value.status value) w h
  finalize-Keeps release order_id w h =
      finalize_cancellation_got-Keeps (get 0 order_id w.repository).0 w h
  finalize-Keeps restock order_id w h =
      got-Keeps append client clock P preserved 0 order_id
        (λ value. finalize_refund_found append client clock value.status value)
        (λ value. finalize_refund_found-Keeps value.status value) w h
  finalize-Keeps (unsupported _) order_id w h = h

  update_operation-Keeps : (operation : Operation) → Kept (stored (update_operation operation))
  unfolding update_operation
  update_operation-Keeps operation w h = preserved _ _ (keeps refl refl) h

  repeated-Keeps :
      (operation : Operation) (now count : ℕ) (result : Result Error (Unit {0}))
      → Kept (repeated append client clock operation now count result)
  unfolding repeated
  repeated-Keeps operation now count (err e) w h = update_operation-Keeps _ w h
  repeated-Keeps operation now count (ok u) w h =
      let before = (stored (update_operation (repeated_operation operation now (ok u))) w).1 in
      let kept : P
          (finalize append client clock operation.kind operation.order_id before).1.repository =
        finalize-Keeps operation.kind operation.order_id before (update_operation-Keeps _ w h) in
      elim (Result-cases
        (finalize append client clock operation.kind operation.order_id before).0) [
          | inr (_, bad) ↦ rw (bad, repeated) kept
          | inl (_, good) ↦ rw (good, repeated) kept
        ]

  retry_kind-Keeps :
      (kind : Kind) (operation : Operation) (now count : ℕ)
      → Kept (retry_kind append client clock kind operation now count)
  unfolding retry_kind retry_known
  retry_kind-Keeps (unsupported _) operation now count w h = update_operation-Keeps _ w h
  retry_kind-Keeps _ operation now count w h = repeated-Keeps operation now count _ _ h

  retry_one-Keeps :
      (operation : Operation) (now count : ℕ)
      → Kept (retry_one append client clock operation now count)
  unfolding retry_one
  retry_one-Keeps operation now count w h =
      elim (Bool-cases (leb max_operation_attempts operation.attempts)) [
        | inl over ↦ rw over (update_operation-Keeps _ w h)
        | inr within ↦ rw within (retry_kind-Keeps operation.kind operation now count w h)
      ]

  pub retry_each-Keeps :
      (now : ℕ) (operations : List Operation) (count : ℕ)
      → Kept (retry_each append client clock now operations count)
  unfolding retry_each
  retry_each-Keeps now [] count w h = h
  retry_each-Keeps now (operation ∷ rest) count w h =
      let step = retry_one append client clock operation now count w in
      let kept : P step.1.repository = retry_one-Keeps operation now count w h in
      elim (Result-cases step.0) [
        | inr (_, bad) ↦ rw (bad, retry_each) kept
        | inl (count', good) ↦ rw (good, retry_each) (retry_each-Keeps now rest count' step.1 kept)
      ]
