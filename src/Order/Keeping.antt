-- ===== src/Order/Keeping.antt =====
-- services/order/internal/app/service.go: the parts of the operations in Lifecycle, by the steps
-- of the repository.
use seckill_mall.Base.{
  ℕ, ◌<>◌, trim_space, str_eq, if◌then◌else◌, ◌≡◌, refl, inl, inr, String, Bool, true, false, List,
  [], ◌∷◌, Result, ok, err, map_answer, arith, lookup, after_bind, fail_if, ◌>>=◌, ◌>>◌,
  Option-cases, Bool-cases, Result-cases, Action,
}
use seckill_mall.Contracts.Events.{EventEnvelope}
use seckill_mall.Order.Model.{
  Status, pending_payment, paid, shipped, canceled, refund_pending, refunded, Error, Order, Item,
  Operation, Kind, release, confirm, restock,
}
use seckill_mall.Order.Repository.{Repository, get, save_operation, not_owned}
use seckill_mall.Order.Steps.{Step, keeps, transition-Step}
use seckill_mall.Order.World.{World, InventoryClient, stored, call_of}
use seckill_mall.Order.Lifecycle.{
  keep_operation, called, call_items, restock_items, transit, cancel_found, pay_found, ship_found,
  shipment_found, delivery_found, refund_pending_order, apply_refund, refund_found,
}

module _ {S I : Type 0} (append : EventEnvelope → Action S Error (Unit {0}))
    (client : InventoryClient I) (clock : I → ℕ) (P : Repository S → Type 0)
    (preserved : (r u : Repository S) → Step r u → P r → P u) where
  -- What the operations are shown to keep.
  abbrev pub Keeps : {A : Type 0} → (World S I → A × World S I) → Type 0
  Keeps m = (w : World S I) → P w.repository → P (m w).1.repository

  pub get-state :
      (user_id : ℕ) (order_id : String) (r : Repository S) → (get user_id order_id r).1 ≡ r
  unfolding get
  get-state user_id order_id r = elim (Option-cases (lookup order_id r.orders)) [
    | inl absent ↦ rw (absent, get) refl
    | inr (value, found) ↦
        rw (found, get)
          (elim (Bool-cases (not_owned user_id value)) [
            | inl other ↦ rw other refl
            | inr own ↦ rw own refl
          ])
  ]

  -- An operation that looks an order up first.
  pub got-Keeps :
      {A : Type 0} (user_id : ℕ) (order_id : String)
      (f : Order → World S I → Result Error A × World S I)
      → ((value : Order) → Keeps (f value))
      → Keeps (stored (get user_id order_id) >>= f)
  got-Keeps user_id order_id f next w h =
      after_bind (λ v. P v.repository) (stored (get user_id order_id)) f w
        (λ _ _. rw (get-state user_id order_id w.repository) h)
        (λ value _. next value _ (rw (get-state user_id order_id w.repository) h))

  pub request-Keeps :
      {A : Type 0} (test : Bool) (e : Error) (user_id : ℕ) (order_id : String)
      (f : Order → World S I → Result Error A × World S I)
      → ((value : Order) → Keeps (f value))
      → Keeps (fail_if test e >> (stored (get user_id order_id) >>= f))
  request-Keeps true e user_id order_id f next w h = h
  request-Keeps false e user_id order_id f next w h = got-Keeps user_id order_id f next w h

  pub then-Keeps :
      {A B : Type 0} (m : World S I → Result Error A × World S I)
      (f : A → World S I → Result Error B × World S I)
      → Keeps m
      → ((a : A) → Keeps (f a))
      → Keeps (m >>= f)
  then-Keeps m f first next w h =
      after_bind (λ v. P v.repository) m f w (λ _ _. first w h) (λ a _. next a _ (first w h))

  save_operation-orders :
      (operation : Operation) (r : Repository S)
      → ((save_operation operation r).1.orders ≡ r.orders)
        × ((save_operation operation r).1.idempotency ≡ r.idempotency)
  unfolding save_operation
  save_operation-orders operation r = ground arith

  pub keep_operation-Keeps :
      (operation : Operation) → Keeps (keep_operation append client clock operation)
  unfolding keep_operation
  keep_operation-Keeps operation w h =
      let (orders, keys) = save_operation-orders operation w.repository in
      preserved _ _ (keeps orders keys) h

  called-Keeps :
      (kind : Kind) (order_id id : String) (result : Result Error (Unit {0}))
      → Keeps (called append client clock kind order_id id result)
  unfolding called keep_operation
  called-Keeps kind order_id id (ok _) w h = h
  called-Keeps kind order_id id (err e) w h = keep_operation-Keeps _ w h

  pub call_items-Keeps :
      (kind : Kind) (order_id : String) (items : List Item)
      → Keeps (call_items append client clock kind order_id items)
  unfolding call_items
  call_items-Keeps kind order_id [] w h = h
  call_items-Keeps kind order_id (item ∷ rest) w h =
      let result = call_of client kind item.reservation_id order_id w.outside in
      let step =
        called append client clock kind order_id item.reservation_id result.0
          (record w { outside = result.1 }) in
      let kept : P step.1.repository =
        called-Keeps kind order_id item.reservation_id result.0 (record w { outside = result.1 })
          h in
      elim (Result-cases step.0) [
        | inr (_, bad) ↦ rw (bad, call_items) kept
        | inl (_, good) ↦ rw (good, call_items) (call_items-Keeps kind order_id rest step.1 kept)
      ]

  pub restock_items-Keeps :
      (order_id : String) (items : List Item)
      → Keeps (restock_items append client clock order_id items)
  unfolding restock_items
  restock_items-Keeps order_id [] w h = h
  restock_items-Keeps order_id (item ∷ rest) w h =
      let result = call_of client restock item.reservation_id order_id w.outside in
      let step =
        called append client clock restock order_id item.reservation_id result.0
          (record w { outside = result.1 }) in
      let kept : P step.1.repository =
        called-Keeps restock order_id item.reservation_id result.0 (record w { outside = result.1 })
          h in
      elim (Result-cases step.0) [
        | inr (_, bad) ↦ rw (bad, restock_items) kept
        | inl (_, good) ↦
            rw (good, restock_items)
              (restock_items-Keeps order_id rest _ (keep_operation-Keeps _ step.1 kept))
      ]

  pub transit-Keeps :
      (order_id : String) (user_id : ℕ) (target : Status) (reason actor_type : String)
      (actor_id : ℕ)
      → Keeps (transit append client clock order_id user_id target reason actor_type actor_id)
  unfolding transit
  transit-Keeps order_id user_id target reason actor_type actor_id w h =
      preserved _ _
        (transition-Step append order_id user_id target reason actor_type actor_id (clock w.outside)
          w.repository)
        h

  -- The operations after the order was looked up.
  pub cancel_found-Keeps :
      (user_id : ℕ) (reason actor_type : String) (actor_id : ℕ) (already : Bool) (order : Order)
      → Keeps (cancel_found append client clock user_id reason actor_type actor_id already order)
  unfolding cancel_found
  cancel_found-Keeps user_id reason actor_type actor_id true order w h = h
  cancel_found-Keeps user_id reason actor_type actor_id false order w h =
      let told = if str_eq reason "" then "用户取消" else reason in
      then-Keeps (call_items append client clock release order.order_id order.items)
        (λ _. transit append client clock order.order_id user_id canceled told actor_type actor_id)
        (call_items-Keeps release order.order_id order.items)
        (λ _. transit-Keeps order.order_id user_id canceled told actor_type actor_id) w h

  pub pay_found-Keeps :
      (user_id : ℕ) (payment_no : String) (status : Status) (order : Order)
      → Keeps (pay_found append client clock user_id payment_no status order)
  unfolding pay_found
  pay_found-Keeps user_id payment_no paid order w h = h
  pay_found-Keeps user_id payment_no pending_payment order w h =
      let told = "支付成功: " <> trim_space payment_no in
      then-Keeps (call_items append client clock confirm order.order_id order.items)
        (λ _.
          map_answer (λ value. (value, false))
            (transit append client clock order.order_id user_id paid told "payment" 0))
        (call_items-Keeps confirm order.order_id order.items)
        (λ _. transit-Keeps order.order_id user_id paid told "payment" 0) w h
  pay_found-Keeps user_id payment_no _ order w h = h

  pub ship_found-Keeps :
      (actor_id : ℕ) (carrier tracking_no : String) (already : Bool) (value : Order)
      → Keeps (ship_found append client clock actor_id carrier tracking_no already value)
  unfolding ship_found
  ship_found-Keeps actor_id carrier tracking_no true value w h = h
  ship_found-Keeps actor_id carrier tracking_no false value w h = transit-Keeps _ _ _ _ _ _ w h

  pub shipment_found-Keeps :
      (carrier tracking_no : String) (status : Status) (value : Order)
      → Keeps (shipment_found append client clock carrier tracking_no status value)
  unfolding shipment_found
  shipment_found-Keeps carrier tracking_no paid value w h = transit-Keeps _ _ _ _ _ _ w h
  shipment_found-Keeps carrier tracking_no _ value w h = h

  pub delivery_found-Keeps :
      (status : Status) (value : Order) → Keeps (delivery_found append client clock status value)
  unfolding delivery_found
  delivery_found-Keeps shipped value w h = transit-Keeps _ _ _ _ _ _ w h
  delivery_found-Keeps _ value w h = h

  refund_pending_order-Keeps :
      (user_id : ℕ) (refund_no : String) (value : Order)
      → Keeps (refund_pending_order append client clock user_id refund_no value)
  unfolding refund_pending_order
  refund_pending_order-Keeps user_id refund_no value w h =
      let told = "退款完成: " <> trim_space refund_no in
      then-Keeps (restock_items append client clock value.order_id value.items)
        (λ _. transit append client clock value.order_id user_id refunded told "payment" 0)
        (restock_items-Keeps value.order_id value.items)
        (λ _. transit-Keeps value.order_id user_id refunded told "payment" 0) w h

  apply_refund-Keeps :
      (user_id : ℕ) (refund_no reason : String) (value : Order)
      → Keeps (apply_refund append client clock user_id refund_no reason value)
  unfolding apply_refund
  apply_refund-Keeps user_id refund_no reason value w h =
      let told = "申请退款: " <> trim_space reason in
      then-Keeps
        (transit append client clock value.order_id user_id refund_pending told "user" user_id)
        (λ _. refund_pending_order append client clock user_id refund_no value)
        (transit-Keeps value.order_id user_id refund_pending told "user" user_id)
        (λ _. refund_pending_order-Keeps user_id refund_no value) w h

  pub refund_found-Keeps :
      (user_id : ℕ) (refund_no reason : String) (status : Status) (value : Order)
      → Keeps (refund_found append client clock user_id refund_no reason status value)
  unfolding refund_found
  refund_found-Keeps user_id refund_no reason paid value w h =
      apply_refund-Keeps user_id refund_no reason value w h
  refund_found-Keeps user_id refund_no reason shipped value w h =
      apply_refund-Keeps user_id refund_no reason value w h
  refund_found-Keeps user_id refund_no reason refund_pending value w h =
      refund_pending_order-Keeps user_id refund_no value w h
  refund_found-Keeps user_id refund_no reason _ value w h = h
