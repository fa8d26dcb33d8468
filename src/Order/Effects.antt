-- ===== src/Order/Effects.antt =====
-- services/order/internal/app/service.go: cancellations, payments and refunds that succeed, the
-- order and the remote calls of its items.
pub mod Transitions
pub mod Loops
mod Lookups
unfoldable pub use Transitions.{Reached}
unfoldable pub use Loops.{All}
use seckill_mall.Base.{
  ℕ, ◌<>◌, trim_space, ◌≡◌, refl, inl, inr, ◌⊎◌, sym, subst, ap, String, Bool, true, false, some,
  List, [], ◌∷◌, if◌then◌else◌, str_eq, eq_refl, ◌||◌, ◌==◌, arith, lookup, lookup-insert, Result,
  ok, err, Action, ◌>>=◌, ◌>>◌, fail_if, map_answer, Option-cases, Bool-cases, Result-cases,
  ok_bind, ok_inj, bind_ok,
}
use seckill_mall.Contracts.Events.{EventEnvelope}
use seckill_mall.Order.Model.{
  Status, pending_payment, paid, shipped, completed, canceled, refund_pending, refunded, Error,
  new_error, validation, Order, Item, Kind, release, confirm, can_transition, same_status,
}
use seckill_mall.Order.Repository.{
  Repository, moved_order, announce, move, transition_found, transition, not_owned, get,
}
use seckill_mall.Order.World.{World, InventoryClient, stored, call_of}
use seckill_mall.Order.Lifecycle.{
  blank, keep_operation, called, call_items, transit, cancel_found, cancel_order, pay_found,
  confirm_payment,
}
use Transitions.{transition-Reached}
use Loops.{call_items-All, calls_then_transit}
use Lookups.{map_answer_ok, request_ok}

module _ {S I : Type 0} (append : EventEnvelope → Action S Error (Unit {0}))
    (client : InventoryClient I) (clock : I → ℕ) (Q : I → String → Type 0) where
  -- What a successful operation on an order has done.
  abbrev Settled : String → Order → Status → Order → World S I → Type 0
  Settled order_id value target o w =
      All (Q w.outside) value.items
      × (o.status ≡ target)
      × (lookup order_id w.repository.orders ≡ some o)

  cancel_found-releases :
      ((id order_id : String) (i : I)
        → (call_of client release id order_id i).0 ≡ ok tt
        → Q (call_of client release id order_id i).1 id)
      → ((id other order_id : String) (i : I)
          → Q i id
          → Q (call_of client release other order_id i).1 id)
      → (user_id : ℕ) (order_id reason actor_type : String) (actor_id : ℕ) (w : World S I)
        (value : Order)
      → value.order_id ≡ order_id
      → (o : Order)
      → (cancel_found append client clock user_id reason actor_type actor_id false value w).0 ≡ ok o
      → Settled order_id value canceled o
          (cancel_found append client clock user_id reason actor_type actor_id false value w).1
  unfolding cancel_found
  cancel_found-releases done stays user_id order_id reason actor_type actor_id w value own o h =
      let told = if str_eq reason "" then "用户取消" else reason in
      let (all, reached) =
        calls_then_transit append client clock release Q done stays value.order_id value.items
          user_id canceled told actor_type actor_id w o h in
      (
        all,
        reached.0,
        subst
            (λ k.
              lookup k
                (cancel_found append client clock user_id reason actor_type actor_id false value
                  w).1.repository.orders
              ≡ some o)
            own reached.1,
      )

  -- If the cancellation of an order that is not yet cancelled succeeds, the order is cancelled in the
  -- store, and every reservation of its items is released, for any property that a successful release
  -- establishes for its reservation and that no release of another one takes away.
  pub cancel_order-releases :
      ((id order_id : String) (i : I)
        → (call_of client release id order_id i).0 ≡ ok tt
        → Q (call_of client release id order_id i).1 id)
      → ((id other order_id : String) (i : I)
          → Q i id
          → Q (call_of client release other order_id i).1 id)
      → (user_id : ℕ) (order_id reason actor_type : String) (actor_id : ℕ) (w : World S I)
        (value o : Order)
      → lookup order_id w.repository.orders ≡ some value
      → value.order_id ≡ order_id
      → same_status value.status canceled ≡ false
      → (cancel_order append client clock user_id order_id reason actor_type actor_id w).0 ≡ ok o
      → let after =
          (cancel_order append client clock user_id order_id reason actor_type actor_id w).1 in
        All (Q after.outside) value.items
        × (o.status ≡ canceled)
        × (lookup order_id after.repository.orders ≡ some o)
  unfolding cancel_order
  cancel_order-releases done stays user_id order_id reason actor_type actor_id w value o found own
        live =
      request_ok (λ o w'. Settled order_id value canceled o w') (str_eq order_id "")
        (new_error validation "订单号不能为空") user_id order_id
        (λ order.
          cancel_found append client clock user_id reason actor_type actor_id
            (same_status order.status canceled) order)
        w value found
        (subst
          (λ b.
            (o : Order)
            → (cancel_found append client clock user_id reason actor_type actor_id b value w).0
              ≡ ok o
            → Settled order_id value canceled o
                (cancel_found append client clock user_id reason actor_type actor_id b value w).1)
          (sym live)
          (cancel_found-releases done stays user_id order_id reason actor_type actor_id w value
            own))
        o

  pay_found-confirms :
      ((id order_id : String) (i : I)
        → (call_of client confirm id order_id i).0 ≡ ok tt
        → Q (call_of client confirm id order_id i).1 id)
      → ((id other order_id : String) (i : I)
          → Q i id
          → Q (call_of client confirm other order_id i).1 id)
      → (user_id : ℕ) (order_id payment_no : String) (w : World S I) (value : Order)
      → value.order_id ≡ order_id
      → (x : Order × Bool)
      → (pay_found append client clock user_id payment_no pending_payment value w).0 ≡ ok x
      → Settled order_id value paid x.0
          (pay_found append client clock user_id payment_no pending_payment value w).1
  unfolding pay_found transit
  pay_found-confirms done stays user_id order_id payment_no w value own =
      let told = "支付成功: " <> trim_space payment_no in
      ok_bind (λ x w'. Settled order_id value paid x.0 w')
        (call_items append client clock confirm value.order_id value.items)
        (λ _.
          map_answer (λ o. (o, false))
            (transit append client clock value.order_id user_id paid told "payment" 0))
        w
        (λ _ called x h.
          let w' = (call_items append client clock confirm value.order_id value.items w).1 in
          let reached =
            transition-Reached append value.order_id user_id paid told "payment" 0
              (clock w'.outside) w'.repository x.0
              (map_answer_ok
                (transit append client clock value.order_id user_id paid told "payment" 0) w' x
                h) in
          (
            call_items-All append client clock confirm Q done stays value.order_id value.items w
                called,
            reached.0,
            subst
                (λ k.
                  lookup k
                    (transition append value.order_id user_id paid told "payment" 0
                      (clock w'.outside) w'.repository).1.orders
                  ≡ some x.0)
                own reached.1,
          ))

  -- If the payment of a pending order succeeds, the order is paid in the store, and every reservation
  -- of its items is confirmed, for any property that a successful confirmation establishes for its
  -- reservation and that no confirmation of another one takes away.
  pub confirm_payment-confirms :
      ((id order_id : String) (i : I)
        → (call_of client confirm id order_id i).0 ≡ ok tt
        → Q (call_of client confirm id order_id i).1 id)
      → ((id other order_id : String) (i : I)
          → Q i id
          → Q (call_of client confirm other order_id i).1 id)
      → (user_id : ℕ) (order_id payment_no callback_ref : String) (w : World S I) (value o : Order)
        (again : Bool)
      → lookup (trim_space order_id) w.repository.orders ≡ some value
      → value.order_id ≡ trim_space order_id
      → value.status ≡ pending_payment
      → (confirm_payment append client clock user_id order_id payment_no callback_ref w).0
        ≡ ok (o, again)
      → let after =
          (confirm_payment append client clock user_id order_id payment_no callback_ref w).1 in
        All (Q after.outside) value.items
        × (o.status ≡ paid)
        × (lookup (trim_space order_id) after.repository.orders ≡ some o)
  unfolding confirm_payment
  confirm_payment-confirms done stays user_id order_id payment_no callback_ref w value o again found
        own pending =
      request_ok (λ (x : Order × Bool) w'. Settled (trim_space order_id) value paid x.0 w')
        (user_id == 0 || (blank order_id || (blank payment_no || blank callback_ref)))
        (new_error validation "支付确认参数不能为空") user_id (trim_space order_id)
        (λ order. pay_found append client clock user_id payment_no order.status order) w value found
        (subst
          (λ st.
            (x : Order × Bool)
            → (pay_found append client clock user_id payment_no st value w).0 ≡ ok x
            → Settled (trim_space order_id) value paid x.0
                (pay_found append client clock user_id payment_no st value w).1)
          (sym pending)
          (pay_found-confirms done stays user_id (trim_space order_id) payment_no w value own))
        (o, again)
