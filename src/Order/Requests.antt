-- ===== src/Order/Requests.antt =====
-- The requests that the Order Service serves, and histories of them. The jobs of the service (expiry
-- and retries) are requests too. Each request runs to its end before the next one.
use seckill_mall.Base.{ℕ, String, List, [], ◌∷◌, Action}
use seckill_mall.Contracts.Events.{EventEnvelope}
use seckill_mall.Order.Model.{Error, Sku, Address, CreateCommand}
use seckill_mall.Order.Repository.{Repository, list_expired, list_pending_operations}
use seckill_mall.Order.Steps.{Step}
use seckill_mall.Order.World.{World, InventoryClient}
use seckill_mall.Order.Create.{create_order}
use seckill_mall.Order.Lifecycle.{
  batch_limit, cancel, expire, confirm_payment, ship, confirm_receipt, apply_shipment_created,
  apply_shipment_delivered, refund,
}
use seckill_mall.Order.Retry.{retry_operations}
use seckill_mall.Order.Creating.{create_order-Keeps}
use seckill_mall.Order.Serving.{
  cancel-Keeps, expire_each-Keeps, confirm_payment-Keeps, ship-Keeps, confirm_receipt-Keeps,
  apply_shipment_created-Keeps, apply_shipment_delivered-Keeps, refund-Keeps,
}
use seckill_mall.Order.RetryServing.{retry_each-Keeps}

pub data Request : Type 0 where
  creates : CreateCommand → Request
  cancels : ℕ → String → String → Request
  expires : ℕ → Request
  pays : ℕ → String → String → String → Request
  ships : ℕ → String → String → String → Request
  receives : ℕ → String → Request
  shipment_created : String → String → String → Request
  shipment_delivered : String → Request
  refunds : ℕ → String → String → String → Request
  retries : ℕ → Request

module _ {S I : Type 0} (append : EventEnvelope → Action S Error (Unit {0}))
    (client : InventoryClient I) (clock : I → ℕ) (catalog : List ℕ → Action I Error (List Sku))
    (identity : ℕ → ℕ → Action I Error Address) (hash : String → String) (ttl : ℕ) where
  -- The world after a request, whatever it answers.
  unfoldable pub serve : Request → World S I → World S I
  serve (creates c) w = (create_order append client clock catalog identity hash ttl c w).1
  serve (cancels user_id order_id reason) w =
      (cancel append client clock user_id order_id reason w).1
  serve (expires limit) w = (expire append client clock limit w).1
  serve (pays user_id order_id payment_no callback_ref) w =
      (confirm_payment append client clock user_id order_id payment_no callback_ref w).1
  serve (ships actor_id order_id carrier tracking_no) w =
      (ship append client clock actor_id order_id carrier tracking_no w).1
  serve (receives user_id order_id) w = (confirm_receipt append client clock user_id order_id w).1
  serve (shipment_created order_id carrier tracking_no) w =
      (apply_shipment_created append client clock order_id carrier tracking_no w).1
  serve (shipment_delivered order_id) w =
      (apply_shipment_delivered append client clock order_id w).1
  serve (refunds user_id order_id refund_no reason) w =
      (refund append client clock user_id order_id refund_no reason w).1
  serve (retries limit) w = (retry_operations append client clock limit w).1

  unfoldable pub serve_all : List Request → World S I → World S I
  serve_all [] w = w
  serve_all (q ∷ qs) w = serve_all qs (serve q w)

  module _ (P : Repository S → Type 0)
      (preserved : (r u : Repository S) → Step r u → P r → P u) where
    serve_invariant : (q : Request) (w : World S I) → P w.repository → P (serve q w).repository
    unfolding serve expire retry_operations
    serve_invariant (creates c) w h =
        create_order-Keeps append client clock catalog identity hash ttl P preserved c w h
    serve_invariant (cancels user_id order_id reason) w h =
        cancel-Keeps append client clock P preserved user_id order_id reason w h
    serve_invariant (expires limit) w h =
        expire_each-Keeps append client clock P preserved
          (list_expired (clock w.outside) (batch_limit limit) w.repository) 0 w h
    serve_invariant (pays user_id order_id payment_no callback_ref) w h =
        confirm_payment-Keeps append client clock P preserved user_id order_id payment_no
          callback_ref w h
    serve_invariant (ships actor_id order_id carrier tracking_no) w h =
        ship-Keeps append client clock P preserved actor_id order_id carrier tracking_no w h
    serve_invariant (receives user_id order_id) w h =
        confirm_receipt-Keeps append client clock P preserved user_id order_id w h
    serve_invariant (shipment_created order_id carrier tracking_no) w h =
        apply_shipment_created-Keeps append client clock P preserved order_id carrier tracking_no w
          h
    serve_invariant (shipment_delivered order_id) w h =
        apply_shipment_delivered-Keeps append client clock P preserved order_id w h
    serve_invariant (refunds user_id order_id refund_no reason) w h =
        refund-Keeps append client clock P preserved user_id order_id refund_no reason w h
    serve_invariant (retries limit) w h =
        retry_each-Keeps append client clock P preserved (clock w.outside)
          (list_pending_operations (clock w.outside) (batch_limit limit) w.repository) 0 w h

    -- What every step of the repository keeps holds after any history.
    pub serve_all_invariant :
        (qs : List Request) (w : World S I) → P w.repository → P (serve_all qs w).repository
    unfolding serve_all
    serve_all_invariant [] w h = h
    serve_all_invariant (q ∷ qs) w h = serve_all_invariant qs (serve q w) (serve_invariant q w h)
