-- ===== src/Cart/Keeping.antt =====
-- services/cart/internal/app: what every request keeps of the carts, and what a cart then costs.
use seckill_mall.Base.{
  ℕ, ◌≤◌, ◌<◌, ◌≡◌, refl, sym, String, Bool, false, ◌||◌, List, [], ◌∷◌, ℤ, pos, negsuc, pos_part,
  neg_part, leb_ℤ, ltb_ℤ, ◌==◌, Action, pure, lift, ◌>>◌, after_bind, arith, subst, Bool-cases,
  Option-cases, inl, inr, Table, lookup, EachEntry, EachEntry-insert, EachEntry-erase,
}
use seckill_mall.Base.Sorting.{All-sort_by}
use seckill_mall.Cart.Model.{Sku, Item, new_item}
use seckill_mall.Cart.Repository.{cart_key, set, delete, items_of, by_sku, list}
use seckill_mall.Cart.Service.{
  World, stored, asked, set_item, set_cart, delete_cart, list_items, list_cart, preview_of, preview,
}
use seckill_mall.Cart.Amounts.{IsBare, AllBare}

-- A line stands under the key of its user and its SKU, has no SKU of the catalog, and asks for one to
-- ninety-nine pieces.
pub record IsLine (key : String) (item : Item) : Type 0 where
  pub keyed : key ≡ cart_key item.user_id item.sku_id
  pub bare : IsBare item
  pub user : 0 < item.user_id
  pub sku : 0 < item.sku_id
  pub positive : (neg_part item.quantity ≡ 0) × (0 < pos_part item.quantity)
  pub bounded : pos_part item.quantity ≤ 99

abbrev pub IsCart : Table Item → Type 0
IsCart = EachEntry IsLine

pub data Request : Type 0 where
  put : ℕ → ℕ → ℤ → Request
  remove : ℕ → ℕ → Request
  show total : ℕ → Request

module _ {I : Type 0} (snapshot : List ℕ → Bool → Action I String (List Sku)) where
  -- What a request leaves behind.
  unfoldable pub serve : Request → World I → World I
  serve (put user_id sku_id quantity) w = (set_cart snapshot user_id sku_id quantity w).1
  serve (remove user_id sku_id) w = (delete_cart snapshot user_id sku_id w).1
  serve (show user_id) w = (list_cart snapshot user_id w).1
  serve (total user_id) w = (preview snapshot user_id w).1

  unfoldable pub serve_all : List Request → World I → World I
  serve_all [] w = w
  serve_all (request ∷ rest) w = serve_all rest (serve request w)

abbrev pub refuses : ℕ → ℕ → ℤ → Bool
refuses user_id sku_id quantity =
    user_id == 0 || (sku_id == 0 || (leb_ℤ quantity (pos 0) || ltb_ℤ (pos 99) quantity))

new_item-IsLine :
    (user_id sku_id : ℕ) (quantity : ℤ)
    → refuses user_id sku_id quantity ≡ false
    → IsLine (cart_key user_id sku_id) (new_item user_id sku_id quantity)
new_item-IsLine user_id sku_id (pos q) h = record {
  keyed = refl;
  bare = (refl, refl);
  user = ground arith;
  sku = ground arith;
  positive = ground arith;
  bounded = ground arith;
}
new_item-IsLine user_id sku_id (negsuc q) h = absurd (ground arith)

delete-IsCart :
    (user_id sku_id : ℕ) (items : Table Item)
    → IsCart items
    → IsCart (delete user_id sku_id items).1
unfolding delete
delete-IsCart user_id sku_id items c =
    elim (Option-cases (lookup (cart_key user_id sku_id) items)) [
      | inl missing ↦ rw (missing, delete) c
      | inr (_, found) ↦
          rw (found, delete) (EachEntry-erase IsLine (cart_key user_id sku_id) items c)
    ]

module _ {I : Type 0} (snapshot : List ℕ → Bool → Action I String (List Sku)) where
  set_cart-IsCart :
      (user_id sku_id : ℕ) (quantity : ℤ) (w : World I)
      → IsCart w.items
      → IsCart (set_cart snapshot user_id sku_id quantity w).1.items
  unfolding set_cart set
  set_cart-IsCart user_id sku_id quantity w c =
      elim (Bool-cases (refuses user_id sku_id quantity)) [
        | inl bad ↦ rw bad c
        | inr good ↦
            let written =
              EachEntry-insert IsLine (cart_key user_id sku_id) (new_item user_id sku_id quantity)
                w.items (new_item-IsLine user_id sku_id quantity good) c in
            let ask = asked (snapshot (sku_id ∷ []) false) in
            let write =
              λ (item : Item). stored {I = I} (set user_id sku_id quantity) >> pure item in
            rw good (
              after_bind (λ v. IsCart v.items)
                (lift (set_item user_id sku_id quantity (snapshot (sku_id ∷ []) false w.outside).0))
                write (ask w).1 (λ _ _. c) (λ _ _. written))
      ]

  delete_cart-IsCart :
      (user_id sku_id : ℕ) (w : World I)
      → IsCart w.items
      → IsCart (delete_cart snapshot user_id sku_id w).1.items
  unfolding delete_cart
  delete_cart-IsCart user_id sku_id w c = elim (Bool-cases (user_id == 0 || sku_id == 0)) [
    | inl bad ↦ rw bad c
    | inr good ↦ rw good (delete-IsCart user_id sku_id w.items c)
  ]

  -- The requests that read leave the carts as they are.
  list_items_same :
      (items : List Item) (w : World I) → (list_items snapshot items w).1.items ≡ w.items
  unfolding list_items
  list_items_same [] w = refl
  list_items_same (item ∷ rest) w = refl

  list_cart_same : (user_id : ℕ) (w : World I) → (list_cart snapshot user_id w).1.items ≡ w.items
  unfolding list_cart
  list_cart_same user_id w = elim (Bool-cases (user_id == 0)) [
    | inl bad ↦ rw bad refl
    | inr good ↦ rw good (list_items_same (list user_id w.items) w)
  ]

  preview_same : (user_id : ℕ) (w : World I) → (preview snapshot user_id w).1.items ≡ w.items
  unfolding preview
  preview_same user_id w =
      after_bind (λ v. v.items ≡ w.items) (list_cart snapshot user_id)
        (λ items. lift (preview_of items)) w (λ _ _. list_cart_same user_id w)
        (λ _ _. list_cart_same user_id w)

  serve-IsCart :
      (request : Request) (w : World I) → IsCart w.items → IsCart (serve snapshot request w).items
  unfolding serve
  serve-IsCart (put user_id sku_id quantity) w c = set_cart-IsCart user_id sku_id quantity w c
  serve-IsCart (remove user_id sku_id) w c = delete_cart-IsCart user_id sku_id w c
  serve-IsCart (show user_id) w c = subst IsCart (sym (list_cart_same user_id w)) c
  serve-IsCart (total user_id) w c = subst IsCart (sym (preview_same user_id w)) c

  -- After any requests, every stored line still stands under the key of its user and its SKU, with no
  -- SKU of the catalog in it, and asks for one to ninety-nine pieces.
  pub serve_all-IsCart :
      (requests : List Request) (w : World I)
      → IsCart w.items
      → IsCart (serve_all snapshot requests w).items
  unfolding serve_all
  serve_all-IsCart [] w c = c
  serve_all-IsCart (request ∷ rest) w c =
      serve_all-IsCart rest (serve snapshot request w) (serve-IsCart request w c)

  items_of-AllBare :
      (user_id : ℕ) (items : Table Item) → IsCart items → AllBare (items_of user_id items)
  unfolding items_of
  items_of-AllBare user_id [] c = tt
  items_of-AllBare user_id ((key, item) ∷ rest) c = elim (Bool-cases (item.user_id == user_id)) [
    | inl own ↦ rw own (c.0.bare, items_of-AllBare user_id rest c.1)
    | inr other ↦ rw other (items_of-AllBare user_id rest c.1)
  ]

  pub list-AllBare :
      (user_id : ℕ) (items : Table Item) → IsCart items → AllBare (list user_id items)
  unfolding list
  list-AllBare user_id items c =
      All-sort_by by_sku IsBare (items_of user_id items) (items_of-AllBare user_id items c)
