-- ===== src/Catalog/Model.antt =====
-- services/catalog/internal/app/model.go and repository.go. Times count nanoseconds.
use seckill_mall.Base.{ℕ, String, Bool, List, ℤ}

pub record Sku : Type 0 where
  pub id : ℕ
  pub spu_id : ℕ
  pub code : String
  pub name : String
  pub price_cents : ℤ
  pub available_stock : ℤ
  pub reserved_stock : ℤ
  pub active : Bool
  pub created_at : ℕ
  pub updated_at : ℕ

pub record Product : Type 0 where
  pub spu_id : ℕ
  pub category_id : ℕ
  pub name : String
  pub description : String
  pub active : Bool
  pub skus : List Sku
  pub images : List String

pub record ProductPage : Type 0 where
  pub items : List Product
  pub total : ℕ
  pub offset : ℤ
  pub limit : ℤ

-- The errors of repository.go, and a slice that is out of range.
pub data Error : Type 0 where
  invalid_request not_found out_of_range : Error
