-- ===== src/Cart/Model.antt =====
-- services/cart/internal/app/model.go and repository.go.
use seckill_mall.Base.{ℕ, String, Bool, false, List, ℤ, pos}

pub record Sku : Type 0 where
  pub id : ℕ
  pub code : String
  pub name : String
  pub price_cents : ℤ
  pub active : Bool
  pub available_stock : ℤ

pub record Item : Type 0 where
  pub user_id : ℕ
  pub sku_id : ℕ
  pub quantity : ℤ
  pub sku : Sku
  pub subtotal_cents : ℤ

pub record Preview : Type 0 where
  pub items : List Item
  pub total_amount_cents : ℤ
  pub available : Bool

-- ErrUnavailable is always wrapped with the text of its cause.
pub data Error : Type 0 where
  invalid_request not_found : Error
  unavailable : String → Error

abbrev pub zero_sku : Sku
zero_sku = record {
  id = 0;
  code = "";
  name = "";
  price_cents = pos 0;
  active = false;
  available_stock = pos 0;
}

-- Item{UserID: …, SKUID: …, Quantity: …}
abbrev pub new_item : ℕ → ℕ → ℤ → Item
new_item user_id sku_id quantity = record {
  user_id = user_id;
  sku_id = sku_id;
  quantity = quantity;
  sku = zero_sku;
  subtotal_cents = pos 0;
}
