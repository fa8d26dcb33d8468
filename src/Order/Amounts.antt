-- ===== src/Order/Amounts.antt =====
-- services/order/internal/app: the amounts of an order that Create makes.
use seckill_mall.Base.{
  ℕ, ◌+◌, ◌*◌, ◌-◌, ◌<◌, ◌≡◌, refl, inl, inr, subst, ap, String, Option, none, some, List, [], ◌∷◌,
  ◌++◌, ℤ, pos, negsuc, pos_part, neg_part, add64, int64_limit, ok, arith, Action, Result-cases,
  ok_inj, mul64_exact, product_bound,
}
use seckill_mall.Contracts.Events.{EventEnvelope}
use seckill_mall.Order.Model.{
  Error, Item, Sku, Address, Reservation, CreateItem, CreateCommand, subtotal, add_amount,
}
use seckill_mall.Order.World.{World, InventoryClient}
use seckill_mall.Order.Create.{
  Draft, price_line, find_sku, add_line, line_of, reserve_line, reserve_each,
}

-- The price of the items, as natural numbers.
abbrev pub cost : List Item → ℕ
cost [] = 0
cost (i ∷ is) = pos_part i.unit_price_cents * pos_part i.quantity + cost is

-- The line's subtotal is its price times its quantity.
pub record IsLine (i : Item) : Type 0 where
  pub no_debt : neg_part i.unit_price_cents ≡ 0
  pub ordered : (neg_part i.quantity ≡ 0) × (0 < pos_part i.quantity)
  pub exact : i.subtotal_cents ≡ pos (pos_part i.unit_price_cents * pos_part i.quantity)

abbrev pub AllLines : List Item → Type 0
AllLines [] = Unit {0}
AllLines (i ∷ is) = IsLine i × AllLines is

pub record IsPriced (total : ℤ) (items : List Item) : Type 0 where
  pub exact : total ≡ pos (cost items)
  pub bounded : cost items < int64_limit
  pub lines : AllLines items

pub empty-IsPriced : IsPriced (pos 0) []
empty-IsPriced = record { exact = refl; bounded = omega arith; lines = tt }

pub subtotal_exact :
    (price quantity line : ℤ)
    → subtotal price quantity ≡ ok line
    → (neg_part price ≡ 0)
      × (neg_part quantity ≡ 0)
      × (0 < pos_part quantity)
      × (pos_part price * pos_part quantity < int64_limit)
      × (line ≡ pos (pos_part price * pos_part quantity))
unfolding subtotal
subtotal_exact (pos p) (pos q) line h =
    ground (arith, product_bound p q (int64_limit - 1), mul64_exact p q)
subtotal_exact (negsuc p) q line h = ground arith
subtotal_exact (pos p) (negsuc q) line h = ground arith

pub add_amount_exact :
    (left right sum : ℤ)
    → neg_part left ≡ 0
    → pos_part right < int64_limit
    → add_amount left right ≡ ok sum
    → (sum ≡ pos (pos_part left + pos_part right)) × (pos_part left + pos_part right < int64_limit)
unfolding add_amount add64
add_amount_exact left right sum h bounded e = ground arith

cost-append :
    (is : List Item) (i : Item)
    → cost (is ++ i ∷ []) ≡ cost is + pos_part i.unit_price_cents * pos_part i.quantity
cost-append [] i = omega arith
cost-append (x ∷ is) i = omega (arith, cost-append is i)

AllLines-append : (is : List Item) (i : Item) → AllLines is → IsLine i → AllLines (is ++ i ∷ [])
AllLines-append [] i h l = (l, tt)
AllLines-append (x ∷ is) i (l', h) l = (l', AllLines-append is i h l)

price_line_parts :
    (requested : CreateItem) (found : Option Sku) (total : ℤ) (sku : Sku) (line sum : ℤ)
    → price_line requested found total ≡ ok (sku, line, sum)
    → (subtotal sku.price_cents requested.quantity ≡ ok line) × (add_amount total line ≡ ok sum)
unfolding price_line
price_line_parts requested none total sku line sum h = cc
price_line_parts requested (some offer) total sku line sum h = ground arith

-- A draft that is priced stays so with the next line.
add_line-IsPriced :
    (requested : CreateItem) (found : Option Sku) (draft : Draft) (sku : Sku) (line sum : ℤ)
    (reservation : Reservation)
    → IsPriced draft.total draft.items
    → price_line requested found draft.total ≡ ok (sku, line, sum)
    → let d = add_line draft requested sku line sum reservation in IsPriced d.total d.items
add_line-IsPriced requested found draft sku line sum reservation priced h =
    let (times, plus) = price_line_parts requested found draft.total sku line sum h in
    let (price, quantity, some_ordered, small, exact) =
      subtotal_exact sku.price_cents requested.quantity line times in
    let (added, bounded) =
      add_amount_exact draft.total line sum (ap neg_part priced.exact) (rw exact small) plus in
    record {
      exact = ground (arith, cost-append draft.items (line_of requested sku line reservation));
      bounded = ground (arith, cost-append draft.items (line_of requested sku line reservation));
      lines =
          AllLines-append draft.items (line_of requested sku line reservation) priced.lines
            (record { no_debt = price; ordered = (quantity, some_ordered); exact = exact });
    }

module _ {S I : Type 0} (append : EventEnvelope → Action S Error (Unit {0}))
    (client : InventoryClient I) (clock : I → ℕ) (catalog : List ℕ → Action I Error (List Sku))
    (identity : ℕ → ℕ → Action I Error Address) (hash : String → String) (ttl : ℕ) where
  -- The loop over the items ends with a priced draft.
  pub reserve_each-IsPriced :
      (order_id : String) (c : CreateCommand) (skus : List Sku) (items : List CreateItem)
      (draft last : Draft) (w : World S I)
      → IsPriced draft.total draft.items
      → (reserve_each append client clock catalog identity hash ttl order_id c skus items draft w).0
        ≡ ok last
      → IsPriced last.total last.items
  unfolding reserve_each
  reserve_each-IsPriced order_id c skus [] draft last w priced =
      λ h. subst (λ (d : Draft). IsPriced d.total d.items) (ok_inj h) priced
  reserve_each-IsPriced order_id c skus (requested ∷ rest) draft last w priced =
      elim (Result-cases (price_line requested (find_sku requested.sku_id skus) draft.total)) [
        | inr (_, bad) ↦ rw (bad, reserve_each) (λ h. cc)
        | inl ((sku, line, sum), good) ↦
            rw (good, reserve_each)
              (elim (Result-cases
                (reserve_line append client clock catalog identity hash ttl order_id c requested
                  w.outside).0) [
                    | inr (_, bad) ↦ rw (bad, reserve_each) (λ h. cc)
                    | inl (reservation, made) ↦
                        rw (made, reserve_each)
                          (reserve_each-IsPriced order_id c skus rest
                            (add_line draft requested sku line sum reservation) last _
                            (add_line-IsPriced requested (find_sku requested.sku_id skus) draft sku
                              line sum reservation priced good))
                  ])
      ]
