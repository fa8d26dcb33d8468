-- ===== src/Order/Serving.antt =====
-- The requests that the Order Service serves, and what holds of the repository after any sequence of
-- them. Requests that run at the same time meet in the repository, whose methods hold its mutex.
use seckill_mall.Base.{
  ℕ, ◌+◌, trim_space, str_eq, ◌==◌, ◌||◌, inl, inr, String, List, [], ◌∷◌, Bool-cases, Result-cases,
  Action,
}
use seckill_mall.Contracts.Events.{EventEnvelope}
use seckill_mall.Order.Model.{
  shipped, completed, canceled, Error, new_error, validation, Order, same_status,
}
use seckill_mall.Order.Repository.{Repository}
use seckill_mall.Order.Steps.{Step}
use seckill_mall.Order.World.{World, InventoryClient}
use seckill_mall.Order.Lifecycle.{
  blank, cancel_found, cancel_order, cancel, expire_each, pay_found, confirm_payment, ship_found,
  ship, confirm_receipt, shipment_found, apply_shipment_created, delivery_found,
  apply_shipment_delivered, refund_found, refund,
}
use seckill_mall.Order.Keeping.{
  request-Keeps, got-Keeps, transit-Keeps, cancel_found-Keeps, pay_found-Keeps, ship_found-Keeps,
  shipment_found-Keeps, delivery_found-Keeps, refund_found-Keeps,
}

module _ {S I : Type 0} (append : EventEnvelope → Action S Error (Unit {0}))
    (client : InventoryClient I) (clock : I → ℕ) (P : Repository S → Type 0)
    (preserved : (r u : Repository S) → Step r u → P r → P u) where
  abbrev Kept : {A : Type 0} → (World S I → A × World S I) → Type 0
  Kept m = (w : World S I) → P w.repository → P (m w).1.repository

  cancel_order-Keeps :
      (user_id : ℕ) (order_id reason actor_type : String) (actor_id : ℕ)
      → Kept (cancel_order append client clock user_id order_id reason actor_type actor_id)
  unfolding cancel_order
  cancel_order-Keeps user_id order_id reason actor_type actor_id =
      request-Keeps append client clock P preserved (str_eq order_id "")
        (new_error validation "订单号不能为空") user_id order_id
        (λ order.
          cancel_found append client clock user_id reason actor_type actor_id
            (same_status order.status canceled) order)
        (λ order.
          cancel_found-Keeps append client clock P preserved user_id reason actor_type actor_id _
            order)

  pub cancel-Keeps :
      (user_id : ℕ) (order_id reason : String)
      → Kept (cancel append client clock user_id order_id reason)
  unfolding cancel
  cancel-Keeps user_id order_id reason w h = elim (Bool-cases (user_id == 0)) [
    | inl absent ↦ rw absent h
    | inr present ↦
        rw present
          (cancel_order-Keeps user_id (trim_space order_id) (trim_space reason) "user" user_id w h)
  ]

  pub expire_each-Keeps :
      (orders : List Order) (count : ℕ) → Kept (expire_each append client clock orders count)
  unfolding expire_each
  expire_each-Keeps [] count w h = h
  expire_each-Keeps (value ∷ rest) count w h =
      let step = cancel_order append client clock 0 value.order_id "支付超时" "system" 0 w in
      let kept : P step.1.repository = cancel_order-Keeps 0 value.order_id "支付超时" "system" 0 w h in
      elim (Result-cases step.0) [
        | inr (_, bad) ↦ rw (bad, expire_each) kept
        | inl (_, good) ↦ rw (good, expire_each) (expire_each-Keeps rest (count + 1) step.1 kept)
      ]

  pub confirm_payment-Keeps :
      (user_id : ℕ) (order_id payment_no callback_ref : String)
      → Kept (confirm_payment append client clock user_id order_id payment_no callback_ref)
  unfolding confirm_payment
  confirm_payment-Keeps user_id order_id payment_no callback_ref =
      request-Keeps append client clock P preserved
        (user_id == 0 || (blank order_id || (blank payment_no || blank callback_ref)))
        (new_error validation "支付确认参数不能为空") user_id (trim_space order_id)
        (λ order. pay_found append client clock user_id payment_no order.status order)
        (λ order.
          pay_found-Keeps append client clock P preserved user_id payment_no order.status order)

  pub ship-Keeps :
      (actor_id : ℕ) (order_id carrier tracking_no : String)
      → Kept (ship append client clock actor_id order_id carrier tracking_no)
  unfolding ship
  ship-Keeps actor_id order_id carrier tracking_no =
      request-Keeps append client clock P preserved
        (actor_id == 0 || (blank order_id || (blank carrier || blank tracking_no)))
        (new_error validation "发货参数无效") 0 (trim_space order_id)
        (λ value.
          ship_found append client clock actor_id carrier tracking_no
            (same_status value.status shipped) value)
        (λ value.
          ship_found-Keeps append client clock P preserved actor_id carrier tracking_no _ value)

  pub confirm_receipt-Keeps :
      (user_id : ℕ) (order_id : String)
      → Kept (confirm_receipt append client clock user_id order_id)
  unfolding confirm_receipt
  confirm_receipt-Keeps user_id order_id w h = elim (Bool-cases (user_id == 0 || blank order_id)) [
    | inl bad ↦ rw bad h
    | inr good ↦ rw good (
        transit-Keeps append client clock P preserved (trim_space order_id) user_id completed
          "用户确认收货" "user" user_id w h)
  ]

  pub apply_shipment_created-Keeps :
      (order_id carrier tracking_no : String)
      → Kept (apply_shipment_created append client clock order_id carrier tracking_no)
  unfolding apply_shipment_created
  apply_shipment_created-Keeps order_id carrier tracking_no =
      got-Keeps append client clock P preserved 0 (trim_space order_id)
        (λ value. shipment_found append client clock carrier tracking_no value.status value)
        (λ value.
          shipment_found-Keeps append client clock P preserved carrier tracking_no value.status
            value)

  pub apply_shipment_delivered-Keeps :
      (order_id : String) → Kept (apply_shipment_delivered append client clock order_id)
  unfolding apply_shipment_delivered
  apply_shipment_delivered-Keeps order_id =
      got-Keeps append client clock P preserved 0 (trim_space order_id)
        (λ value. delivery_found append client clock value.status value)
        (λ value. delivery_found-Keeps append client clock P preserved value.status value)

  pub refund-Keeps :
      (user_id : ℕ) (order_id refund_no reason : String)
      → Kept (refund append client clock user_id order_id refund_no reason)
  unfolding refund
  refund-Keeps user_id order_id refund_no reason =
      request-Keeps append client clock P preserved
        (user_id == 0 || (blank order_id || (blank refund_no || blank reason)))
        (new_error validation "退款参数无效") user_id (trim_space order_id)
        (λ value. refund_found append client clock user_id refund_no reason value.status value)
        (λ value.
          refund_found-Keeps append client clock P preserved user_id refund_no reason value.status
            value)
