-- ===== src/Cart/Repository.antt =====
-- services/cart/internal/app/memory_repository.go: one map for the carts of all users.
use seckill_mall.Base.{
  ℕ, String, ◌<>◌, Bool, none, some, List, [], ◌∷◌, ℤ, ltb, ◌==◌, if◌then◌else◌, ok, err, Action,
  Table, lookup, insert, erase,
}
use seckill_mall.Base.Decimal.{show_uint}
use seckill_mall.Base.Sorting.{sort_by}
use seckill_mall.Cart.Model.{Item, Error, not_found, new_item}

-- cartKey
unfoldable pub cart_key : ℕ → ℕ → String
cart_key user_id sku_id = show_uint user_id <> (":" <> show_uint sku_id)

-- Set
unfoldable pub set : ℕ → ℕ → ℤ → Action (Table Item) Error (Unit {0})
set user_id sku_id quantity items =
    (ok tt, insert (cart_key user_id sku_id) (new_item user_id sku_id quantity) items)

-- Delete
unfoldable pub delete : ℕ → ℕ → Action (Table Item) Error (Unit {0})
delete user_id sku_id items = elim (lookup (cart_key user_id sku_id) items) [
  | none ↦ (err not_found, items)
  | some _ ↦ (ok tt, erase (cart_key user_id sku_id) items)
]

-- The loop of List.
unfoldable pub items_of : ℕ → Table Item → List Item
items_of user_id [] = []
items_of user_id ((_, item) ∷ rest) =
    let others = items_of user_id rest in if item.user_id == user_id then item ∷ others else others

abbrev pub by_sku : Item → Item → Bool
by_sku a b = ltb a.sku_id b.sku_id

-- List
unfoldable pub list : ℕ → Table Item → List Item
list user_id items = sort_by by_sku (items_of user_id items)
