-- ===== src/Cart/Previews.antt =====
-- services/cart/internal/app/service.go: what a preview tells, and what the writes of a cart change.
use seckill_mall.Base.{
  ℕ, ◌<◌, ◌≡◌, refl, sym, ap, ◌∙◌, String, Bool, true, false, ◌&&◌, List, [], ◌∷◌, map, pos,
  int64_limit, ◌==◌, Result, ok, err, Action, lift, gets, ◌>>=◌, ok_bind, ok_guard, ok_inj, arith,
  subst, Result-cases, inl, inr,
}
use seckill_mall.Cart.Model.{Sku, Item, Preview, invalid_request}
use seckill_mall.Cart.Repository.{list}
use seckill_mall.Cart.Service.{
  World, list_items, list_cart, preview_of, preview, add_items, fill_answer,
}
use seckill_mall.Cart.Amounts.{
  cost, AllPriced, AllBare, none_lacking, wanted, fill_items_parts, add_items_exact,
}
use seckill_mall.Cart.Keeping.{Request, serve_all, serve_all-IsCart, list-AllBare, IsCart}

fill_answer_parts :
    (items filled : List Item) (skus : Result String (List Sku))
    → AllBare items
    → fill_answer items skus ≡ ok filled
    → AllPriced filled × (map wanted filled ≡ map wanted items)
unfolding fill_answer
fill_answer_parts items filled (err text) bare h = absurd (cc h)
fill_answer_parts items filled (ok skus) bare h = fill_items_parts items filled skus bare h

and_true : (b : Bool) → (b && true) ≡ b
and_true true = refl
and_true false = refl

preview_of_exact :
    (items : List Item) (p : Preview)
    → AllPriced items
    → preview_of items ≡ ok p
    → (p.items ≡ items)
      × (p.total_amount_cents ≡ pos (cost items))
      × (cost items < int64_limit)
      × (p.available ≡ none_lacking items)
unfolding preview_of
preview_of_exact items p priced = elim (Result-cases (add_items items (pos 0) true)) [
  | inr (_, bad) ↦ rw (bad, preview_of) (λ h. cc)
  | inl ((t, a), good) ↦
      rw (good, preview_of)
        (λ h.
          let (total, bounded, told) = add_items_exact items 0 true t a (omega arith) priced good in
          let exact : t ≡ pos (cost items) = total ∙ ap pos (omega arith) in
          let same : a ≡ none_lacking items = told ∙ and_true (none_lacking items) in
          (
            sym (ap (λ (q : Preview). q.items) (ok_inj h)),
            sym (ap (λ (q : Preview). q.total_amount_cents) (ok_inj h)) ∙ exact,
            omega arith,
            sym (ap (λ (q : Preview). q.available) (ok_inj h)) ∙ same,
          ))
]

module _ {I : Type 0} (snapshot : List ℕ → Bool → Action I String (List Sku)) where
  -- What a list of lines and its answer agree on.
  abbrev Lists : List Item → List Item → Type 0
  Lists stored_items filled = AllPriced filled × (map wanted filled ≡ map wanted stored_items)

  list_items_parts :
      (items : List Item) (w : World I)
      → AllBare items
      → (filled : List Item) → (list_items snapshot items w).0 ≡ ok filled
      → Lists items filled
  unfolding list_items
  list_items_parts [] w bare filled h = subst (λ xs. Lists [] xs) (ok_inj h) (tt, refl)
  list_items_parts (item ∷ rest) w bare filled h =
      fill_answer_parts (item ∷ rest) filled
        (snapshot (map (λ (i : Item). i.sku_id) (item ∷ rest)) true w.outside).0 bare h

  list_cart_parts :
      (user_id : ℕ) (w : World I)
      → IsCart w.items
      → (filled : List Item) → (list_cart snapshot user_id w).0 ≡ ok filled
      → Lists (list user_id w.items) filled
  unfolding list_cart
  list_cart_parts user_id w c =
      ok_guard (λ filled _. Lists (list user_id w.items) filled) (user_id == 0) invalid_request
        (gets (λ v. list user_id v.items) >>= list_items snapshot) w
        (list_items_parts (list user_id w.items) w (list-AllBare snapshot user_id w.items c))

  -- A preview of any user's cart, after any requests to an empty repository and whatever the catalog
  -- answers: its lines have the users, the SKUs and the quantities of the user's lines in the
  -- repository, in the order of List, the total is the exact sum of the prices times the quantities, without a
  -- wrap-around, and it is available exactly if every line is active and in stock.
  pub preview-exact :
      (requests : List Request) (outside : I) (user_id : ℕ) (p : Preview)
      → let w = serve_all snapshot requests (record { items = []; outside = outside }) in
        (preview snapshot user_id w).0 ≡ ok p
        → (map wanted p.items ≡ map wanted (list user_id w.items))
          × (p.total_amount_cents ≡ pos (cost p.items))
          × (cost p.items < int64_limit)
          × (p.available ≡ none_lacking p.items)
  unfolding preview
  preview-exact requests outside user_id p h =
      let w = serve_all snapshot requests (record { items = []; outside = outside }) in
      ok_bind
        (λ p _.
          (map wanted p.items ≡ map wanted (list user_id w.items))
          × (p.total_amount_cents ≡ pos (cost p.items))
          × (cost p.items < int64_limit)
          × (p.available ≡ none_lacking p.items))
        (list_cart snapshot user_id) (λ items. lift (preview_of items)) w
        (λ items listed p told.
          let (priced, same) =
            list_cart_parts user_id w
              (serve_all-IsCart snapshot requests (record { items = []; outside = outside }) tt)
              items listed in
          let (lines, total, bounded, available) = preview_of_exact items p priced told in
          (
            ap (map wanted) lines ∙ same,
            total ∙ ap (λ xs. pos (cost xs)) (sym lines),
            subst (λ xs. cost xs < int64_limit) (sym lines) bounded,
            available ∙ ap none_lacking (sym lines),
          ))
        p h
