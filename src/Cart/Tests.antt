-- ===== src/Cart/Tests.antt =====
-- The cart service on small inputs, and its theorems at inputs that meet their conditions.
use seckill_mall.Base.{
  ℕ, ◌+◌, ◌<◌, String, ◌≡◌, refl, true, Bool, ◌&&◌, ◌==◌, some, List, [], ◌∷◌, map, pos, ok, err,
  Action, int64_limit, lookup, insert, mul64, add64, if◌then◌else◌, ◌/◌,
}
use seckill_mall.Base.Sorting.{sort_by}
use seckill_mall.Cart.Model.{Sku, Item, Preview, new_item, invalid_request}
use seckill_mall.Cart.Repository.{cart_key, set, list, items_of}
use seckill_mall.Cart.Service.{
  World, item_with_sku, set_item, sku_by_id, fill_item, fill_items, fill_answer, add_items,
  preview_of, set_cart, list_items, list_cart, preview,
}
use seckill_mall.Cart.Amounts.{cost, none_lacking, wanted}
use seckill_mall.Cart.Keeping.{Request, put, IsCart, serve, serve_all, serve_all-IsCart}
use seckill_mall.Cart.Previews.{preview-exact}
use seckill_mall.Cart.Writes.{set_cart_writes}

abbrev phone : Sku
phone = record {
  id = 1;
  code = "p";
  name = "phone";
  price_cents = pos 500;
  active = true;
  available_stock = pos 3;
}

-- A catalog of one SKU, which counts its calls.
abbrev catalog : List ℕ → Bool → Action ℕ String (List Sku)
catalog ids include_inactive n = (ok (phone ∷ []), n + 1)

abbrev empty_world : World ℕ
empty_world = record { items = []; outside = 0 }

abbrev requests : List Request
requests = put 7 1 (pos 2) ∷ []

serve_all-IsCart_example : IsCart (serve_all catalog requests empty_world).items
serve_all-IsCart_example = serve_all-IsCart catalog requests empty_world tt

abbrev phones : Item
phones = record (new_item 7 1 (pos 2)) { sku = phone; subtotal_cents = pos 1000 }

abbrev shown : Preview
shown = record { items = phones ∷ []; total_amount_cents = pos 1000; available = true }

preview-exact_example :
    let w = serve_all catalog requests empty_world in
    (map wanted shown.items ≡ map wanted (list 7 w.items))
    × (shown.total_amount_cents ≡ pos (cost shown.items))
    × (cost shown.items < int64_limit)
    × (shown.available ≡ none_lacking shown.items)
unfolding serve_all serve set_cart set_item set item_with_sku preview list_cart list_items list
    items_of fill_answer fill_items fill_item sku_by_id preview_of add_items sort_by insert mul64
    add64
preview-exact_example = preview-exact catalog requests 0 7 shown refl

set_cart_writes_example :
    lookup (cart_key 7 2) (set_cart catalog 7 1 (pos 2) empty_world).1.items ≡ (
      if (7 == 7) && (1 == 2)
      then some (new_item 7 1 (pos 2))
      else lookup (cart_key 7 2) empty_world.items)
unfolding set_cart set_item item_with_sku set mul64
set_cart_writes_example = set_cart_writes catalog 7 1 (pos 2) empty_world phones refl 7 2

-- A price and a quantity whose product passes 2^63 are refused.
overflowing :
    item_with_sku (new_item 7 1 (pos 2)) (record phone { price_cents = pos (int64_limit / 2) })
    ≡ err invalid_request
unfolding item_with_sku
overflowing = refl
