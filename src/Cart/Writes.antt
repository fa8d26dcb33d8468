-- ===== src/Cart/Writes.antt =====
-- services/cart/internal/app: SetCart, and the cart that is read after it.
use seckill_mall.Base.{
  ℕ, ◌≡◌, ap, ◌∙◌, String, ◌<>◌, Bool, false, ◌||◌, ◌&&◌, none, some, List, [], ◌∷◌, ℤ, ◌==◌,
  str_eq, ok, Action, pure, lift, ◌>>=◌, ◌>>◌, ok_bind, ok_guard, arith, Table, lookup, erase,
  lookup-insert, lookup-erase, eq_iff, if◌then◌else◌,
}
use seckill_mall.Base.Decimal.{show_uint, show_uint-colon_inj}
use seckill_mall.Cart.Model.{Sku, Item, invalid_request, new_item}
use seckill_mall.Cart.Repository.{cart_key, set, delete}
use seckill_mall.Cart.Service.{World, stored, asked, set_item, set_cart, delete_cart}
use seckill_mall.Cart.Keeping.{refuses}

show_uint_inj : (m n : ℕ) → show_uint m ≡ show_uint n → m ≡ n
show_uint_inj m n e = (show_uint-colon_inj m n "" "" (ap (λ s. s <> (":" <> "")) e)).0

cart_key_inj : (u s v t : ℕ) → cart_key u s ≡ cart_key v t → (u ≡ v) × (s ≡ t)
unfolding cart_key
cart_key_inj u s v t e =
    let (users, skus) = show_uint-colon_inj u v (show_uint s) (show_uint t) e in
    (users, show_uint_inj s t skus)

cart_key_test : (u s v t : ℕ) → str_eq (cart_key u s) (cart_key v t) ≡ ((u == v) && (s == t))
cart_key_test u s v t =
    ground (arith, eq_iff (cart_key u s) (cart_key v t), cart_key_inj u s v t, same_key u s v t)
  where
    same_key : (u s v t : ℕ) → u ≡ v → s ≡ t → cart_key u s ≡ cart_key v t
    same_key u s v t p q = cc

delete_erases :
    (user_id sku_id : ℕ) (items : Table Item) {u : Unit {0}}
    → (delete user_id sku_id items).0 ≡ ok u
    → (delete user_id sku_id items).1 ≡ erase (cart_key user_id sku_id) items
unfolding delete
delete_erases user_id sku_id items h = ground arith

module _ {I : Type 0} (snapshot : List ℕ → Bool → Action I String (List Sku)) where
  -- After a line was set, it is the line of its user and its SKU, and every other line is as it was.
  pub set_cart_writes :
      (user_id sku_id : ℕ) (quantity : ℤ) (w : World I) (item : Item)
      → (set_cart snapshot user_id sku_id quantity w).0 ≡ ok item
      → (v t : ℕ)
      → lookup (cart_key v t) (set_cart snapshot user_id sku_id quantity w).1.items ≡ (
          if (user_id == v) && (sku_id == t)
          then some (new_item user_id sku_id quantity)
          else lookup (cart_key v t) w.items)
  unfolding set_cart set
  set_cart_writes user_id sku_id quantity w item h v t =
      let Written : Item → World I → Type 0 = λ _ x. lookup (cart_key v t) x.items ≡ (
        if (user_id == v) && (sku_id == t)
        then some (new_item user_id sku_id quantity)
        else lookup (cart_key v t) w.items) in
      let ask = asked (snapshot (sku_id ∷ []) false) in
      let answered = (snapshot (sku_id ∷ []) false w.outside).0 in
      let write = λ (item : Item). stored {I = I} (set user_id sku_id quantity) >> pure item in
      ok_guard Written (refuses user_id sku_id quantity) invalid_request
        (ask >>= λ skus. lift (set_item user_id sku_id quantity skus) >>= write) w
        (ok_bind Written (lift (set_item user_id sku_id quantity answered)) write (ask w).1
          (λ _ _ _ _.
            lookup-insert (cart_key user_id sku_id) (cart_key v t)
              (new_item user_id sku_id quantity) w.items
            ∙ ap
                (λ b.
                  if b
                  then some (new_item user_id sku_id quantity)
                  else lookup (cart_key v t) w.items)
                (cart_key_test user_id sku_id v t)))
        item h

  -- After a line was deleted, its user has no line of its SKU, and every other line is as it was.
  pub delete_cart_writes :
      (user_id sku_id : ℕ) (w : World I)
      → (delete_cart snapshot user_id sku_id w).0 ≡ ok tt
      → (v t : ℕ)
      → lookup (cart_key v t) (delete_cart snapshot user_id sku_id w).1.items
        ≡ (if (user_id == v) && (sku_id == t) then none else lookup (cart_key v t) w.items)
  unfolding delete_cart
  delete_cart_writes user_id sku_id w h v t =
      ok_guard
        (λ _ x.
          lookup (cart_key v t) x.items
          ≡ (if (user_id == v) && (sku_id == t) then none else lookup (cart_key v t) w.items))
        (user_id == 0 || sku_id == 0) invalid_request (stored (delete user_id sku_id)) w
        (λ _ deleted.
          ap (lookup (cart_key v t)) (delete_erases user_id sku_id w.items deleted)
          ∙ (lookup-erase (cart_key user_id sku_id) (cart_key v t) w.items
              ∙ ap (λ b. if b then none else lookup (cart_key v t) w.items)
                  (cart_key_test user_id sku_id v t)))
        tt h
