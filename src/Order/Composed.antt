-- ===== src/Order/Composed.antt =====
-- The Order Service on the Inventory Service: what a cancellation leaves in both.
use seckill_mall.Base.{
  ℕ, ◌≡◌, inl, inr, String, false, some, [], ◌∷◌, ok, Action, lookup, Result-cases,
}
use seckill_mall.Contracts.Events.{EventEnvelope}
use seckill_mall.Inventory.Model.{Reservation as StockReservation}
use seckill_mall.Inventory.Store.{release as release_stock}
use seckill_mall.Inventory.Calls.{Call, run, perform}
use seckill_mall.Inventory.Lifecycle.{run_follows}
use seckill_mall.Inventory.Replay.{release-Answers, IsOver}
use seckill_mall.Inventory.Cancellation.{IsOver-stays}
use seckill_mall.Inventory.Server.{GrpcError}
use seckill_mall.Order.Model.{Error, Order, canceled, release, same_status}
use seckill_mall.Order.World.{World, call_of}
use seckill_mall.Order.Lifecycle.{cancel_order}
use seckill_mall.Order.Clients.{Remote, inventory_client, serve_call, answer_of}
use seckill_mall.Order.Effects.{All, cancel_order-releases}

-- The inventory has the reservation, and it is released (or was found expired).
abbrev pub Over : {T : Type 0} → Remote T → String → Type 0
Over i id = (r : StockReservation) × (lookup id i.store.reservations ≡ some r) × IsOver r.status

module _ {T : Type 0} (stream_append : EventEnvelope → Action T String (Unit {0}))
    (grpc_text : GrpcError → String) (later : ℕ → ℕ) where
  release_done :
      (id order_id : String) (i : Remote T)
      → (call_of (inventory_client stream_append grpc_text later) release id order_id i).0 ≡ ok tt
      → Over (call_of (inventory_client stream_append grpc_text later) release id order_id i).1 id
  unfolding call_of inventory_client serve_call answer_of
  release_done id order_id i =
      elim (Result-cases (release_stock stream_append id order_id i.time i.store).0) [
        | inr (e, bad) ↦ rw (bad, answer_of) (λ h. cc)
        | inl (r, good) ↦ λ h.
            let (findable, over) =
              release-Answers stream_append id order_id i.time i.store r good in
            (r, findable.1, over)
      ]

  release_stays :
      (id other order_id : String) (i : Remote T)
      → Over i id
      → Over
          (call_of (inventory_client stream_append grpc_text later) release other order_id i).1
          id
  unfolding call_of inventory_client serve_call run perform
  release_stays id other order_id i (r, found, over) =
      let (q, held, _, path) =
        run_follows stream_append id r ((i.time, Call.releases other order_id) ∷ []) i.store
          found in
      (q, held, IsOver-stays path over)

  -- If the cancellation of an order that is not yet cancelled succeeds, then the order is cancelled,
  -- and the inventory holds every reservation of its items as released (or found it expired).
  pub cancel_order-Over :
      {S : Type 0} (append : EventEnvelope → Action S Error (Unit {0})) (user_id : ℕ)
      (order_id reason actor_type : String) (actor_id : ℕ) (w : World S (Remote T))
      (value o : Order)
      → lookup order_id w.repository.orders ≡ some value
      → value.order_id ≡ order_id
      → same_status value.status canceled ≡ false
      → (cancel_order append
          (inventory_client stream_append grpc_text later)
          (λ i. i.time)
          user_id
          order_id
          reason
          actor_type
          actor_id
          w).0
        ≡ ok o
      → let after =
          (cancel_order append
            (inventory_client stream_append grpc_text later)
            (λ i. i.time)
            user_id
            order_id
            reason
            actor_type
            actor_id
            w).1 in
        All (Over after.outside) value.items
        × (o.status ≡ canceled)
        × (lookup order_id after.repository.orders ≡ some o)
  cancel_order-Over append user_id order_id reason actor_type actor_id w value o found own live h =
      cancel_order-releases append (inventory_client stream_append grpc_text later) (λ i. i.time)
        Over release_done release_stays user_id order_id reason actor_type actor_id w value o found
        own live h
