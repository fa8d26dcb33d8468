-- ===== src/Order/Edges.antt =====
-- Two edges of Create: an order type with spaces around it, and a line that cannot be priced after
-- earlier lines were reserved.
use seckill_mall.Base.{
  ℕ, ◌≡◌, refl, String, false, List, [], ◌∷◌, ℤ, str_eq, trim_space, ok, err, Action,
}
use seckill_mall.Contracts.Events.{EventEnvelope}
use seckill_mall.Order.Model.{
  Error, Sku, Address, Reservation, ReserveCommand, CreateItem, CreateCommand, order_type_seckill,
  validate_create,
}
use seckill_mall.Order.World.{World, InventoryClient}
use seckill_mall.Inventory.Model.{ReserveCommand as StockCommand}
use seckill_mall.Inventory.Limits.{limited, reserve-IsUnlimited}
use seckill_mall.Inventory.Server.{GrpcError}
use seckill_mall.Order.Clients.{Remote, inventory_client, serve_call, answer_of}
use seckill_mall.Order.Create.{Draft, price_line, find_sku, reserve_line, reserve_each, command_of}

-- The command that the server of the Inventory Service makes of a request.
abbrev stock_command : ReserveCommand → StockCommand
stock_command c = record {
  reservation_id = c.reservation_id;
  order_id = c.order_id;
  user_id = c.user_id;
  sku_id = c.sku_id;
  quantity = c.quantity;
  mode = c.mode;
}

trimmed_seckill : trim_space order_type_seckill ≡ order_type_seckill
unfolding trim_space
trimmed_seckill = refl

module _ {S T : Type 0} (append : EventEnvelope → Action S Error (Unit {0}))
    (append_stock : EventEnvelope → Action T String (Unit {0})) (grpc_text : GrpcError → String)
    (later : ℕ → ℕ) (clock : Remote T → ℕ) (catalog : List ℕ → Action (Remote T) Error (List Sku))
    (identity : ℕ → ℕ → Action (Remote T) Error Address) (hash : String → String) (ttl : ℕ) where
  -- The reservation of a line at the memory store of the Inventory Service.
  abbrev pub line_at : String → CreateCommand → CreateItem → Action (Remote T) Error Reservation
  line_at =
      reserve_line append (inventory_client append_stock grpc_text later) clock catalog identity
        hash ttl

  -- A command whose order type is "seckill" with spaces around it is validated like one whose type
  -- is "seckill", but with the inventory client at the memory store each of its lines leaves every
  -- counter of seckill purchases as it was, and is answered alike whatever the store's purchase limit.
  pub spaced_seckill :
      (c : CreateCommand) (order_id : String) (requested : CreateItem) (i : Remote T) (limit : ℤ)
      → trim_space c.order_type ≡ order_type_seckill
      → str_eq c.order_type order_type_seckill ≡ false
      → (validate_create c ≡ validate_create (record c { order_type = order_type_seckill }))
        × ((line_at order_id c requested i).1.store.purchased ≡ i.store.purchased)
        × ((line_at order_id c requested (record i { store = limited limit i.store })).0
            ≡ (line_at order_id c requested i).0)
  unfolding reserve_line validate_create inventory_client serve_call answer_of
  spaced_seckill c order_id requested i limit trimmed spaced =
      let (counters, answer) =
        reserve-IsUnlimited append_stock (stock_command (command_of order_id c requested)) i.time
          limit i.store in
      (rw (trimmed, trimmed_seckill) refl, rw spaced counters, rw (spaced, answer, answer_of) refl)

module _ {S I : Type 0} (append : EventEnvelope → Action S Error (Unit {0}))
    (client : InventoryClient I) (clock : I → ℕ) (catalog : List ℕ → Action I Error (List Sku))
    (identity : ℕ → ℕ → Action I Error Address) (hash : String → String) (ttl : ℕ) where
  -- If the first of two lines is reserved and the second one cannot be priced (its SKU is not listed,
  -- say), then the loop fails with the world just as the reservation left it: the first line stays
  -- reserved, nothing is released, and no operation is kept that would release it.
  pub unpriced_line_leaks :
      (order_id : String) (c : CreateCommand) (skus : List Sku) (first second : CreateItem)
      (draft : Draft) (w : World S I) (sku : Sku) (line sum : ℤ) (reservation : Reservation)
      (e : Error)
      → price_line first (find_sku first.sku_id skus) draft.total ≡ ok (sku, line, sum)
      → (reserve_line append client clock catalog identity hash ttl order_id c first w.outside).0
        ≡ ok reservation
      → price_line second (find_sku second.sku_id skus) sum ≡ err e
      → reserve_each append client clock catalog identity hash ttl order_id c skus
          (first ∷ second ∷ [])
          draft
          w
        ≡ (
          err e,
          record w {
            outside =
                (reserve_line append client clock catalog identity hash ttl order_id c first
                  w.outside).1;
          },
        )
  unfolding reserve_each
  unpriced_line_leaks order_id c skus first second draft w sku line sum reservation e priced made
        bad =
      rw (priced, made, bad, reserve_each) refl
