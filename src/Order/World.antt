-- ===== src/Order/World.antt =====
-- services/order/internal/app/clients.go and service.go: what an operation of the Order Service works
-- on. The inventory client and the clock are outside: a state of type I, which every remote call may
-- change, and from which the time is read.
use seckill_mall.Base.{String, Result, Action}
use seckill_mall.Order.Model.{Error, ReserveCommand, Reservation, Kind, release, confirm}
use seckill_mall.Order.Repository.{Repository}

-- InventoryClient
pub record InventoryClient (I : Type 0) : Type 0 where
  pub reserve : ReserveCommand → Action I Error Reservation
  pub admit_seckill : ReserveCommand → Action I Error Reservation
  pub confirm_call : String → String → Action I Error (Unit {0})
  pub release_call : String → String → Action I Error (Unit {0})
  pub restock_call : String → String → Action I Error (Unit {0})

pub record World (S I : Type 0) : Type 0 where
  pub repository : Repository S
  pub outside : I

module _ {S I : Type 0} where
  -- A call of the repository, and a remote call.
  abbrev pub stored :
      {A : Type 0}
      → (Repository S → Result Error A × Repository S)
      → World S I
      → Result Error A × World S I
  stored m w = let (r, s) = m w.repository in (r, record w { repository = s })

  abbrev pub remote :
      {A : Type 0} → (I → Result Error A × I) → World S I → Result Error A × World S I
  remote m w = let (r, i) = m w.outside in (r, record w { outside = i })

module _ {I : Type 0} where
  -- The remote call that an item of an order takes, or that an operation repeats.
  unfoldable pub call_of : InventoryClient I → Kind → String → String → Action I Error (Unit {0})
  call_of client confirm id order_id = client.confirm_call id order_id
  call_of client release id order_id = client.release_call id order_id
  call_of client _ id order_id = client.restock_call id order_id
