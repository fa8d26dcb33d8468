-- ===== src/Inventory/Ledger.antt =====
-- services/inventory/internal/app/memory_store.go: the maps of the store and the groups of writes
-- that its operations make.
use seckill_mall.Base.{
  ℕ, String, ◌<>◌, ◌&&◌, not, [], ℤ, pos, leb_ℤ, add32, sub32, ◌==◌, str_eq, if◌then◌else◌, Table,
  insert,
}
use seckill_mall.Inventory.Model.{
  Status, reserved, confirmed, Reservation, ReserveCommand, SeckillAdmissionCommand, purchase_key,
}

-- The fields of MemoryStore but for the event stream. A missing key of `stock` or `purchased` reads
-- 0, so those maps are functions.
pub record Ledger : Type 0 where
  pub stock : ℕ → ℤ
  pub reservations : Table Reservation
  pub purchased : String → ℤ
  pub limit : ℤ

abbrev pub update : (ℕ → ℤ) → ℕ → ℤ → ℕ → ℤ
update f k v j = if k == j then v else f j

abbrev pub update_key : (String → ℤ) → String → ℤ → String → ℤ
update_key f k v j = if str_eq k j then v else f j

-- NewMemoryStore
unfoldable pub new_ledger : (ℕ → ℤ) → ℤ → Ledger
new_ledger stock limit = record {
  stock = stock;
  reservations = [];
  purchased = λ key. pos 0;
  limit = if leb_ℤ limit (pos 0) then pos 1 else limit;
}

unfoldable pub new_reservation : ReserveCommand → ℕ → Reservation
new_reservation c now = record {
  reservation_id = c.reservation_id;
  order_id = c.order_id;
  user_id = c.user_id;
  activity_id = 0;
  sku_id = c.sku_id;
  quantity = c.quantity;
  status = reserved;
  mode = c.mode;
  created_at = now;
  updated_at = now;
}

unfoldable pub new_admission : SeckillAdmissionCommand → ℕ → Reservation
new_admission c now = record {
  reservation_id = "admit_" <> c.request_id;
  order_id = c.order_id;
  user_id = c.user_id;
  activity_id = c.activity_id;
  sku_id = c.sku_id;
  quantity = c.quantity;
  status = reserved;
  mode = "seckill";
  created_at = now;
  updated_at = now;
}

-- The order that Confirm writes into a reservation that has none.
confirm_order : Reservation → String → String
confirm_order r order_id =
    if str_eq r.order_id "" && not (str_eq order_id "") then order_id else r.order_id

unfoldable pub confirmed_reservation : Reservation → String → ℕ → Reservation
unfolding confirm_order
confirmed_reservation r order_id now = record r {
  order_id = confirm_order r order_id;
  status = confirmed;
  updated_at = now;
}

unfoldable pub closed_reservation : Reservation → Status → ℕ → Reservation
closed_reservation r status now = record r { status = status; updated_at = now }

unfoldable pub key_of : Reservation → String
key_of r = purchase_key r.activity_id r.user_id r.sku_id

-- The writes of a new reservation: stock down, record kept.
unfoldable pub hold : Reservation → Ledger → Ledger
hold r l = record l {
  stock = update l.stock r.sku_id (sub32 (l.stock r.sku_id) r.quantity);
  reservations = insert r.reservation_id r l.reservations;
}

-- `s.purchased[purchaseKey] += command.Quantity`
unfoldable pub count_purchase : Reservation → Ledger → Ledger
count_purchase r l = record l {
  purchased = update_key l.purchased (key_of r) (add32 (l.purchased (key_of r)) r.quantity);
}

-- The counter after a return; one that is not positive is deleted.
abbrev pub reduced : ℤ → ℤ → ℤ
reduced old quantity = let left = sub32 old quantity in if leb_ℤ left (pos 0) then pos 0 else left

-- The writes that Release and Restock share: stock up, the purchase counter of a seckill down, the
-- record replaced.
unfoldable pub give_back : String → Reservation → Ledger → Ledger
give_back id r l = record l {
  stock = update l.stock r.sku_id (add32 (l.stock r.sku_id) r.quantity);
  purchased =
      if str_eq r.mode "seckill"
      then update_key l.purchased (key_of r) (reduced (l.purchased (key_of r)) r.quantity)
      else l.purchased;
  reservations = insert id r l.reservations;
}

unfoldable pub put : String → Reservation → Ledger → Ledger
put id r l = record l { reservations = insert id r l.reservations }
