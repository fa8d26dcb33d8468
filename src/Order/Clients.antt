-- ===== src/Order/Clients.antt =====
-- services/order/internal/app/clients.go: the inventory client of the Order Service, connected to the
-- server of the Inventory Service over its memory store. gRPC carries requests and answers: the text
-- of one of its errors is `grpc_text`. A call that starts at a time ends at a time `later`.
use seckill_mall.Base.{ℕ, String, some, Result, ok, err, Action}
use seckill_mall.Contracts.Events.{EventEnvelope}
use seckill_mall.Inventory.Model.{
  Reservation as StockReservation, Error as StockError, Status as StockStatus, reserved, confirmed,
  released, restocked, expired,
}
use seckill_mall.Inventory.Store.{MemoryStore, reserve, confirm, release, restock, admit_seckill}
use seckill_mall.Inventory.Server.{
  invalid_argument, missing, resource_exhausted, already_exists, aborted, GrpcError, map_error,
}
use seckill_mall.Order.Model.{
  Error, validation, not_found, out_of_stock, conflict, unavailable, Reservation, ReserveCommand,
}
use seckill_mall.Order.World.{InventoryClient}

-- The inventory store, and the time.
pub record Remote (S : Type 0) : Type 0 where
  pub store : MemoryStore S
  pub time : ℕ

abbrev pub status_text : StockStatus → String
status_text reserved = "reserved"
status_text confirmed = "confirmed"
status_text released = "released"
status_text restocked = "restocked"
status_text expired = "expired"

module _ {S : Type 0} (append : EventEnvelope → Action S String (Unit {0}))
    (grpc_text : GrpcError → String) (later : ℕ → ℕ) where
  -- mapDependencyError, with the fallback of the inventory
  unfoldable pub map_dependency_error : GrpcError → Error
  map_dependency_error e = elim e.code [
    | invalid_argument ↦ record {
      code = validation;
      message = "下游请求参数无效";
      cause = some (grpc_text e);
    }
    | missing ↦ record { code = not_found; message = "下游资源不存在"; cause = some (grpc_text e) }
    | resource_exhausted ↦ record {
      code = out_of_stock;
      message = "库存不足";
      cause = some (grpc_text e);
    }
    | already_exists ↦ record { code = conflict; message = "下游操作冲突"; cause = some (grpc_text e) }
    | aborted ↦ record { code = conflict; message = "下游操作冲突"; cause = some (grpc_text e) }
    | _ ↦ record { code = unavailable; message = "库存服务暂时不可用"; cause = some (grpc_text e) }
  ]

  -- What the client makes of the answer of the server.
  unfoldable pub answer_of :
      {A : Type 0} → (StockReservation → A) → Result StockError StockReservation → Result Error A
  answer_of f (ok r) = ok (f r)
  answer_of f (err e) = err (map_dependency_error (map_error e))

  -- A call of the server.
  unfoldable pub serve_call :
      {A : Type 0}
      → (StockReservation → A)
      → (ℕ → Action (MemoryStore S) StockError StockReservation)
      → Remote S
      → Result Error A × Remote S
  serve_call f call i =
      let (result, store') = call i.time i.store in
      (answer_of f result, record { store = store'; time = later i.time })

  abbrev reservation_of : ReserveCommand → StockReservation → Reservation
  reservation_of c r = record {
    reservation_id = r.reservation_id;
    order_id = c.order_id;
    sku_id = c.sku_id;
    quantity = c.quantity;
    status = status_text r.status;
  }

  -- GRPCInventoryClient
  unfoldable pub inventory_client : InventoryClient (Remote S)
  inventory_client = record {
    reserve = λ c. serve_call (reservation_of c) (
        reserve append (record {
          reservation_id = c.reservation_id;
          order_id = c.order_id;
          user_id = c.user_id;
          sku_id = c.sku_id;
          quantity = c.quantity;
          mode = c.mode;
        }));
    admit_seckill = λ c. serve_call (reservation_of c) (
        admit_seckill append (record {
          request_id = c.reservation_id;
          activity_id = c.activity_id;
          user_id = c.user_id;
          sku_id = c.sku_id;
          quantity = c.quantity;
          order_id = c.order_id;
        }));
    confirm_call = λ id order_id. serve_call (λ _. tt) (confirm append id order_id);
    release_call = λ id order_id. serve_call (λ _. tt) (release append id order_id);
    restock_call = λ id order_id. serve_call (λ _. tt) (restock append id order_id);
  }
