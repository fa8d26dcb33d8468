-- ===== src/Order/Samples.antt =====
-- A small Order Service: two pens, a customer, clients that count their calls, and an order.
use seckill_mall.Base.{ℕ, suc, ◌≡◌, String, none, List, [], ◌∷◌, pos, true, Result, ok, err, Action}
use seckill_mall.Contracts.Events.{EventEnvelope}
use seckill_mall.Order.Model.{
  pending_payment, Error, new_error, unavailable, Sku, Address, Order, StatusHistory, CreateCommand,
  Reservation, ReserveCommand,
}
use seckill_mall.Order.Repository.{new_memory_repository}
use seckill_mall.Order.World.{World, InventoryClient}

abbrev pub no_events : EventEnvelope → Action ℕ Error (Unit {0})
no_events event n = (ok tt, suc n)

-- The outside counts the calls, and their number is the time.
abbrev pub call_made : ℕ → Result Error (Unit {0}) × ℕ
call_made n = (ok tt, suc n)

abbrev pub made : ReserveCommand → ℕ → Result Error Reservation × ℕ
made c n = (
  ok (record {
    reservation_id = c.reservation_id;
    order_id = c.order_id;
    sku_id = c.sku_id;
    quantity = c.quantity;
    status = "reserved";
  }),
  suc n,
)

abbrev pub counting : InventoryClient ℕ
counting = record {
  reserve = made;
  admit_seckill = made;
  confirm_call = λ id order_id. call_made;
  release_call = λ id order_id. call_made;
  restock_call = λ id order_id n. (err (new_error unavailable "down"), suc n);
}

abbrev pub clock : ℕ → ℕ
clock n = n

abbrev pub home : Address
home = record {
  id = 4;
  user_id = 9;
  recipient = "Li";
  phone = "1";
  province = "";
  city = "";
  district = "";
  detail = "";
}

abbrev pub pen : Sku
pen = record { id = 7; code = "pen"; name = "Pen"; price_cents = pos 250; active = true }

abbrev pub catalog : List ℕ → Action ℕ Error (List Sku)
catalog ids n = (ok (pen ∷ []), suc n)

abbrev pub identity : ℕ → ℕ → Action ℕ Error Address
identity user_id address_id n = (ok home, suc n)

abbrev pub hash : String → String
hash text = "h"

abbrev pub two_pens : CreateCommand
two_pens = record {
  user_id = 9;
  address_id = 4;
  order_type = "normal";
  activity_id = 0;
  idempotency_key = "k1";
  items = record { sku_id = 7; quantity = pos 2 } ∷ [];
}

abbrev pub first_entry : StatusHistory
first_entry = record {
  from_status = none;
  to_status = pending_payment;
  reason = "创建订单";
  actor_type = "user";
  actor_id = 9;
  created_at = 1;
}

abbrev pub bought : Order
bought = record {
  order_id = "ord_h";
  user_id = 9;
  address_id = 4;
  order_type = "normal";
  status = pending_payment;
  total_amount_cents = pos 500;
  idempotency_key = "k1";
  request_digest = "h";
  address_snapshot = home;
  items =
      record {
        sku_id = 7;
        sku_code = "pen";
        sku_name = "Pen";
        unit_price_cents = pos 250;
        quantity = pos 2;
        subtotal_cents = pos 500;
        reservation_id = "res_ord_h_7";
      }
      ∷ [];
  status_history = first_entry ∷ [];
  expires_at = 901;
  created_at = 1;
  updated_at = 1;
}

-- The order in the store.
abbrev pub shop : World ℕ ℕ
shop = record {
  repository = record (new_memory_repository none) {
    orders = ("ord_h", bought) ∷ [];
    idempotency = ("9:k1", "ord_h") ∷ [];
  };
  outside = 5;
}

-- Some call was made.
abbrev pub Called : ℕ → String → Type 0
Called n id = (m : ℕ) × (n ≡ suc m)
