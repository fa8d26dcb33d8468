-- ===== src/Cart/Amounts.antt =====
-- services/cart/internal/app/service.go: the products and the sums of the amounts of a cart.
use seckill_mall.Base.{
  ℕ, zero, suc, ◌+◌, ◌*◌, ◌<◌, ◌≡◌, refl, sym, ap, ◌∙◌, Bool, true, false, ◌&&◌, not, Option, none,
  some, List, [], ◌∷◌, map, ℤ, pos, negsuc, pos_part, int64_limit, add64, mul64_exact, add64_exact,
  product_bound, ok, ok_inj, arith, subst, Bool-cases, Result-cases, inl, inr, if◌then◌else◌,
}
use seckill_mall.Base.Slices.{All}
use seckill_mall.Cart.Model.{Sku, Item}
use seckill_mall.Cart.Service.{
  max_int64, item_with_sku, fill_item, fill_items, sku_by_id, is_lacking, overflows, add_items,
}

-- What a line costs, and what the lines of a cart cost, as natural numbers of cents.
abbrev pub cost_of : Item → ℕ
cost_of item = pos_part item.sku.price_cents * pos_part item.quantity

abbrev pub cost : List Item → ℕ
cost [] = 0
cost (item ∷ rest) = cost_of item + cost rest

-- The subtotal of a line is its cost.
abbrev pub IsPriced : Item → Type 0
IsPriced item = item.subtotal_cents ≡ pos (cost_of item)

abbrev pub AllPriced : List Item → Type 0
AllPriced = All IsPriced

abbrev pub none_lacking : List Item → Bool
none_lacking [] = true
none_lacking (item ∷ rest) = not (is_lacking item) && none_lacking rest

item_with_sku_parts :
    (item filled : Item) (sku : Sku) (price quantity : ℤ)
    → sku.price_cents ≡ price
    → item.quantity ≡ quantity
    → item_with_sku item sku ≡ ok filled
    → IsPriced filled
      × (filled.user_id ≡ item.user_id)
      × (filled.sku_id ≡ item.sku_id)
      × (filled.quantity ≡ item.quantity)
unfolding item_with_sku
item_with_sku_parts item filled sku (pos zero) (pos q) hp hq h = ground (arith, mul64_exact 0 q)
item_with_sku_parts item filled sku (pos (suc p)) (pos q) hp hq h =
    ground (arith, product_bound q (suc p) max_int64, mul64_exact (suc p) q)
item_with_sku_parts item filled sku (pos p) (negsuc q) hp hq h = ground arith
item_with_sku_parts item filled sku (negsuc p) quantity hp hq h = ground arith

-- A line as it stands in the repository: without a SKU.
abbrev pub IsBare : Item → Type 0
IsBare item = (item.subtotal_cents ≡ pos 0) × (item.sku.price_cents ≡ pos 0)

abbrev pub AllBare : List Item → Type 0
AllBare = All IsBare

-- What a line asks for.
abbrev pub wanted : Item → ℕ × ℕ × ℤ
wanted item = (item.user_id, item.sku_id, item.quantity)

fill_item_parts :
    (item filled : Item) (sku : Option Sku)
    → IsBare item
    → fill_item item sku ≡ ok filled
    → IsPriced filled × (wanted filled ≡ wanted item)
unfolding fill_item
fill_item_parts item filled none bare h = ground arith
fill_item_parts item filled (some sku) bare h =
    let (priced, user, id, quantity) =
      item_with_sku_parts item filled sku sku.price_cents item.quantity refl refl h in
    (priced, ground arith)

-- The lines that List answers are priced, and ask for what the lines of the repository ask for.
pub fill_items_parts :
    (items filled : List Item) (skus : List Sku)
    → AllBare items
    → fill_items items skus ≡ ok filled
    → AllPriced filled × (map wanted filled ≡ map wanted items)
unfolding fill_items
fill_items_parts [] filled skus bare = λ h. ground arith
fill_items_parts (item ∷ rest) filled skus bare =
    elim (Result-cases (fill_item item (sku_by_id item.sku_id skus))) [
      | inr (_, bad) ↦ rw (bad, fill_items) (λ h. cc)
      | inl (one, good) ↦ elim (Result-cases (fill_items rest skus)) [
        | inr (_, bad) ↦ rw (good, bad, fill_items) (λ h. cc)
        | inl (others, all) ↦
            rw (good, all, fill_items)
              (λ h.
                let (priced, same) =
                  fill_item_parts item one (sku_by_id item.sku_id skus) bare.0 good in
                let (rest_priced, rest_same) = fill_items_parts rest others skus bare.1 all in
                subst (λ xs. AllPriced xs × (map wanted xs ≡ map wanted (item ∷ rest))) (ok_inj h)
                  ((priced, rest_priced), cc))
      ]
    ]

-- A line that passes the test does not overflow the total.
add_fits :
    (item : Item) (n c : ℕ)
    → item.subtotal_cents ≡ pos c
    → overflows (pos n) item ≡ false
    → (add64 (pos n) item.subtotal_cents ≡ pos (n + c)) × (n + c < int64_limit)
add_fits item n c e h = ground (arith, add64_exact n c)

add_items_step :
    (item : Item) (rest : List Item) (total : ℤ) (available : Bool) (x : ℤ × Bool)
    → add_items (item ∷ rest) total available ≡ ok x
    → (overflows total item ≡ false)
      × (add_items rest
            (add64 total item.subtotal_cents)
            (if is_lacking item then false else available)
          ≡ ok x)
unfolding add_items
add_items_step item rest total available x = elim (Bool-cases (overflows total item)) [
  | inl bad ↦ rw bad (λ h. cc)
  | inr good ↦ rw good (λ h. (refl, h))
]

-- The loop of Preview adds without a wrap-around, and tells whether a line is lacking.
pub add_items_exact :
    (items : List Item) (n : ℕ) (available : Bool) (t : ℤ) (a : Bool)
    → n < int64_limit
    → AllPriced items
    → add_items items (pos n) available ≡ ok (t, a)
    → (t ≡ pos (n + cost items))
      × (n + cost items < int64_limit)
      × (a ≡ (none_lacking items && available))
unfolding add_items
add_items_exact [] n available t a small priced h = ground arith
add_items_exact (item ∷ rest) n available t a small priced h =
    let (passes, others) = add_items_step item rest (pos n) available (t, a) h in
    let (exact, fits) = add_fits item n (cost_of item) priced.0 passes in
    let (total, bounded, told) =
      add_items_exact rest (n + cost_of item) (if is_lacking item then false else available) t a
        fits priced.1
        (ap (λ s. add_items rest s (if is_lacking item then false else available)) (sym exact)
          ∙ others) in
    (
      total ∙ ap pos (omega arith),
      omega arith,
      told ∙ lacking_and (is_lacking item) (none_lacking rest) available,
    )
  where
    lacking_and : (l r b : Bool) → (r && (if l then false else b)) ≡ ((not l && r) && b)
    lacking_and true r b = ground arith
    lacking_and false r b = refl
