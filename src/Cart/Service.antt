-- ===== src/Cart/Service.antt =====
-- services/cart/internal/app/service.go and the interface of clients.go. The catalog client is
-- outside: a state of type I, which its calls may change.
use seckill_mall.Base.{
  ℕ, ◌/◌, String, ◌<>◌, Bool, true, false, ◌||◌, ◌&&◌, not, Option, none, some, List, [], ◌∷◌, map,
  ℤ, pos, pos_part, leb_ℤ, ltb_ℤ, eqb_ℤ, ◌-ℤ◌, add64, mul64, int64_limit, ◌-◌, ltb, ◌==◌,
  if◌then◌else◌, Result, ok, err, Action, pure, fail_if, lift, gets, ◌>>=◌, ◌>>◌, Table,
}
use seckill_mall.Cart.Model.{
  Sku, Item, Preview, Error, invalid_request, not_found, unavailable, new_item,
}
use seckill_mall.Cart.Repository.{set, delete, list}

pub record World (I : Type 0) : Type 0 where
  pub items : Table Item
  pub outside : I

module _ {I : Type 0} where
  abbrev pub stored :
      {A : Type 0} → (Table Item → Result Error A × Table Item) → World I → Result Error A × World I
  stored m w = let (r, s) = m w.items in (r, record w { items = s })

  -- A call of the catalog, whose errors are texts.
  abbrev pub asked :
      {A : Type 0} → (I → Result String A × I) → World I → Result Error (Result String A) × World I
  asked m w = let (r, i) = m w.outside in (ok r, record w { outside = i })

abbrev pub max_int64 : ℕ
max_int64 = int64_limit - 1

-- itemWithSKU
unfoldable pub item_with_sku : Item → Sku → Result Error Item
item_with_sku item sku =
    if ltb_ℤ sku.price_cents (pos 0) || leb_ℤ item.quantity (pos 0)
    then err invalid_request
    else if not (eqb_ℤ sku.price_cents (pos 0))
        && ltb (max_int64 / pos_part sku.price_cents) (pos_part item.quantity)
    then err invalid_request
    else ok (record item { sku = sku; subtotal_cents = mul64 sku.price_cents item.quantity })

-- mapCatalogError, and what the client makes of an error of the catalog: ErrUnavailable with its text.
unfoldable pub map_catalog_error : Option String → Error
map_catalog_error none = not_found
map_catalog_error (some text) = unavailable ("cart dependency unavailable: " <> text)

-- What Set makes of the catalog's answer: its one SKU, which is the one that was asked for, and is
-- active.
unfoldable pub set_item : ℕ → ℕ → ℤ → Result String (List Sku) → Result Error Item
set_item user_id sku_id quantity (err text) = err (map_catalog_error (some text))
set_item user_id sku_id quantity (ok (sku ∷ [])) =
    if not (sku.id == sku_id) || not sku.active
    then err not_found
    else item_with_sku (new_item user_id sku_id quantity) sku
set_item user_id sku_id quantity (ok _) = err (map_catalog_error none)

-- byID: the last SKU of an id.
unfoldable pub sku_by_id : ℕ → List Sku → Option Sku
sku_by_id id [] = none
sku_by_id id (sku ∷ rest) = elim (sku_by_id id rest) [
  | some later ↦ some later
  | none ↦ if sku.id == id then some sku else none
]

unfoldable pub fill_item : Item → Option Sku → Result Error Item
fill_item item none = ok (record item { sku = record item.sku { active = false } })
fill_item item (some sku) = item_with_sku item sku

-- The loop of List over the items.
unfoldable pub fill_items : List Item → List Sku → Result Error (List Item)
fill_items [] skus = ok []
fill_items (item ∷ rest) skus = elim (fill_item item (sku_by_id item.sku_id skus)) [
  | err e ↦ err e
  | ok filled ↦ elim (fill_items rest skus) [ err e ↦ err e | ok others ↦ ok (filled ∷ others) ]
]

unfoldable pub fill_answer : List Item → Result String (List Sku) → Result Error (List Item)
fill_answer items (err text) = err (map_catalog_error (some text))
fill_answer items (ok skus) = fill_items items skus

abbrev pub is_lacking : Item → Bool
is_lacking item =
    not item.sku.active
    || (leb_ℤ item.quantity (pos 0) || ltb_ℤ item.sku.available_stock item.quantity)

abbrev pub overflows : ℤ → Item → Bool
overflows total item =
    ltb_ℤ item.subtotal_cents (pos 0) || ltb_ℤ (pos max_int64 -ℤ item.subtotal_cents) total

-- The loop of Preview: the total so far, and whether all is available so far.
unfoldable pub add_items : List Item → ℤ → Bool → Result Error (ℤ × Bool)
add_items [] total available = ok (total, available)
add_items (item ∷ rest) total available =
    let others =
      add_items rest (add64 total item.subtotal_cents)
        (if is_lacking item then false else available) in
    if overflows total item then err invalid_request else others

-- Preview, of the items that List answers
unfoldable pub preview_of : List Item → Result Error Preview
preview_of items = elim (add_items items (pos 0) true) [
  | err e ↦ err e
  | ok (total, available) ↦
      ok (record { items = items; total_amount_cents = total; available = available })
]

module _ {I : Type 0} (snapshot : List ℕ → Bool → Action I String (List Sku)) where
  -- Set
  unfoldable pub set_cart : ℕ → ℕ → ℤ → Action (World I) Error Item
  set_cart user_id sku_id quantity = do
    fail_if (user_id == 0 || (sku_id == 0 || (leb_ℤ quantity (pos 0) || ltb_ℤ (pos 99) quantity)))
        invalid_request
    skus ← asked (snapshot (sku_id ∷ []) false)
    item ← lift (set_item user_id sku_id quantity skus)
    stored (set user_id sku_id quantity)
    pure item

  -- Delete
  unfoldable pub delete_cart : ℕ → ℕ → Action (World I) Error (Unit {0})
  delete_cart user_id sku_id = do
    fail_if (user_id == 0 || sku_id == 0) invalid_request
    stored (delete user_id sku_id)

  unfoldable pub list_items : List Item → Action (World I) Error (List Item)
  list_items [] = pure []
  list_items (item ∷ rest) = do
    skus ← asked (snapshot (map (λ (i : Item). i.sku_id) (item ∷ rest)) true)
    lift (fill_answer (item ∷ rest) skus)

  -- List
  unfoldable pub list_cart : ℕ → Action (World I) Error (List Item)
  list_cart user_id = do
    fail_if (user_id == 0) invalid_request
    items ← gets (λ w. list user_id w.items)
    list_items items

  -- Preview
  unfoldable pub preview : ℕ → Action (World I) Error Preview
  preview user_id = do items ← list_cart user_id; lift (preview_of items)
