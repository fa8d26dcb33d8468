-- ===== src/Catalog/Repository.antt =====
-- services/catalog/internal/app/memory_repository.go. A map keyed by numbers is a list of its entries,
-- in the order in which `range` visits them.
use seckill_mall.Base.{
  ℕ, Bool, true, ◌||◌, ◌&&◌, not, Option, none, some, List, [], ◌∷◌, map, ℤ, pos, pos_part, leb_ℤ,
  ltb_ℤ, ltb, ◌==◌, if◌then◌else◌, Result, ok, err,
}
use seckill_mall.Base.Slices.{length, filter, page}
use seckill_mall.Base.Sorting.{sort_by}
use seckill_mall.Catalog.Model.{
  Sku, Product, ProductPage, Error, invalid_request, not_found, out_of_range,
}

abbrev pub Entries : Type 0 → Type 0
Entries V = List (ℕ × V)

unfoldable pub find : {V : Type 0} → ℕ → Entries V → Option V
find id [] = none
find id ((key, value) ∷ rest) = if key == id then some value else find id rest

pub record Repository : Type 0 where
  pub products : Entries Product
  pub skus : Entries Sku

-- A new repository holds one product with one SKU.
abbrev demo_sku : ℕ → Sku
demo_sku now = record {
  id = 1;
  spu_id = 1;
  code = "IPHONE15-128-BLACK";
  name = "iPhone 15 128GB 黑色";
  price_cents = pos 699900;
  available_stock = pos 100;
  reserved_stock = pos 0;
  active = true;
  created_at = now;
  updated_at = now;
}

abbrev demo_product : ℕ → Product
demo_product now = record {
  spu_id = 1;
  category_id = 1;
  name = "iPhone 15";
  description = "演示商品";
  active = true;
  skus = demo_sku now ∷ [];
  images = [];
}

-- NewMemoryRepository
unfoldable pub new_memory_repository : ℕ → Repository
new_memory_repository now = record {
  products = (1, demo_product now) ∷ [];
  skus = (1, demo_sku now) ∷ [];
}

-- cloneProduct
unfoldable pub clone_product : Bool → Product → Product
clone_product include_inactive p = record p {
  skus = filter (λ (s : Sku). include_inactive || s.active) p.skus;
}

-- The loop over the products of ListProducts.
unfoldable pub visible_ids : Bool → Entries Product → List ℕ
visible_ids include_inactive [] = []
visible_ids include_inactive ((id, p) ∷ rest) =
    let others = visible_ids include_inactive rest in
    if include_inactive || p.active then id ∷ others else others

-- sort.Slice by the ids
unfoldable pub sorted_ids : Bool → Repository → List ℕ
sorted_ids include_inactive r = sort_by ltb (visible_ids include_inactive r.products)

-- The zero value of Product, which r.products[id] reads where the key is missing.
abbrev pub zero_product : Product
zero_product = record {
  spu_id = 0;
  category_id = 0;
  name = "";
  description = "";
  active = Bool.false;
  skus = [];
  images = [];
}

-- An item of a page.
unfoldable pub shown : Bool → Repository → ℕ → Product
shown include_inactive r id = elim (find id r.products) [
  | none ↦ clone_product include_inactive zero_product
  | some p ↦ clone_product include_inactive p
]

-- ListProducts
unfoldable pub list_products : ℤ → ℤ → Bool → Repository → Result Error ProductPage
list_products offset limit include_inactive r =
    let ids = sorted_ids include_inactive r in
    let start : ℤ = if ltb (length ids) (pos_part offset) then pos (length ids) else offset in
    if ltb_ℤ offset (pos 0) || leb_ℤ limit (pos 0)
    then err invalid_request
    else elim (page (pos_part offset) limit ids) [
      | none ↦ err out_of_range
      | some chosen ↦ ok (record {
        items = map (shown include_inactive r) chosen;
        total = length ids;
        offset = start;
        limit = limit;
      })
    ]

-- GetProduct
unfoldable pub get_product : ℕ → Bool → Repository → Result Error Product
get_product spu_id include_inactive r =
    if spu_id == 0 then err invalid_request else elim (find spu_id r.products) [
      | none ↦ err not_found
      | some p ↦
          if not include_inactive && not p.active
          then err not_found
          else ok (clone_product include_inactive p)
    ]

-- The loop of GetSKUSnapshot.
unfoldable pub each_sku : List ℕ → Bool → Entries Sku → Result Error (List Sku)
each_sku [] include_inactive skus = ok []
each_sku (id ∷ rest) include_inactive skus =
    if id == 0 then err invalid_request else elim (find id skus) [
      | none ↦ err not_found
      | some sku ↦
          if not include_inactive && not sku.active
          then err not_found
          else elim (each_sku rest include_inactive skus) [
            | err e ↦ err e
            | ok others ↦ ok (sku ∷ others)
          ]
    ]

-- GetSKUSnapshot
unfoldable pub get_sku_snapshot : List ℕ → Bool → Repository → Result Error (List Sku)
get_sku_snapshot [] include_inactive r = err invalid_request
get_sku_snapshot ids include_inactive r = each_sku ids include_inactive r.skus
