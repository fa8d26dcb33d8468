-- ===== src/Order/Effects/Loops.antt =====
-- What a loop of remote calls over the items has done, and the transition after it.
use seckill_mall.Base.{
  ℕ, ◌≡◌, refl, inl, inr, ◌⊎◌, sym, subst, ap, String, List, [], ◌∷◌, Result, ok, err, Action, ◌>>◌,
  Result-cases, ok_bind,
}
use seckill_mall.Contracts.Events.{EventEnvelope}
use seckill_mall.Order.Model.{Status, Error, Order, Item, Kind}
use seckill_mall.Order.World.{World, InventoryClient, call_of}
use seckill_mall.Order.Lifecycle.{keep_operation, called, call_items, transit}
use seckill_mall.Order.Effects.Transitions.{Reached, transition-Reached}

-- What holds of the items of an order.
abbrev pub All : (String → Type 0) → List Item → Type 0
All Q [] = Unit {0}
All Q (i ∷ is) = Q i.reservation_id × All Q is

module _ {S I : Type 0} (append : EventEnvelope → Action S Error (Unit {0}))
    (client : InventoryClient I) (clock : I → ℕ) (kind : Kind) (Q : I → String → Type 0)
    (done : (id order_id : String) (i : I)
      → (call_of client kind id order_id i).0 ≡ ok tt
      → Q (call_of client kind id order_id i).1 id)
    (stays : (id other order_id : String) (i : I)
      → Q i id
      → Q (call_of client kind other order_id i).1 id) where
  -- A call that succeeded leaves the world as it was otherwise.
  called_ok :
      (order_id id : String) (result : Result Error (Unit {0})) (w : World S I)
      → (called append client clock kind order_id id result w).0 ≡ ok tt
      → (result ≡ ok tt) × ((called append client clock kind order_id id result w).1 ≡ w)
  unfolding called keep_operation
  called_ok order_id id (ok _) w h = (refl, refl)
  called_ok order_id id (err e) w h = cc

  -- The outcome of the loop.
  abbrev Outcome : Type 0
  Outcome = Result Error (Unit {0}) × World S I

  -- The first pass of the loop: its call fails and stops it, or the rest follows.
  call_items_cases :
      (order_id : String) (item : Item) (rest : List Item) (w : World S I)
      → let result = call_of client kind item.reservation_id order_id w.outside in
        let all = call_items append client clock kind order_id in
        ((e : Error) × ((all (item ∷ rest) w).0 ≡ err e))
        ⊎ ((result.0 ≡ ok tt) × (all (item ∷ rest) w ≡ all rest (record w { outside = result.1 })))
  unfolding call_items
  call_items_cases order_id item rest w =
      let result = call_of client kind item.reservation_id order_id w.outside in
      let w' : World S I = record w { outside = result.1 } in
      elim (Result-cases
        (called append client clock kind order_id item.reservation_id result.0 w').0) [
          | inr (e, bad) ↦ inl (e, rw (bad, call_items) refl)
          | inl (_, good) ↦
              let (answered, same) = called_ok order_id item.reservation_id result.0 w' good in
              inr (
                answered,
                rw (good, call_items) (ap (call_items append client clock kind order_id rest) same),
              )
        ]

  call_items_stay :
      (order_id id : String) (items : List Item) (w : World S I)
      → Q w.outside id
      → (call_items append client clock kind order_id items w).0 ≡ ok tt
      → Q (call_items append client clock kind order_id items w).1.outside id
  unfolding call_items
  call_items_stay order_id id [] w q = λ h. q
  call_items_stay order_id id (item ∷ rest) w q = elim (call_items_cases order_id item rest w) [
    | inl (e, bad) ↦ λ h. cc
    | inr (_, same) ↦
        subst (λ (x : Outcome). x.0 ≡ ok tt → Q x.1.outside id) (sym same)
          (call_items_stay order_id id rest _ (stays id item.reservation_id order_id w.outside q))
  ]

  -- The loop has called for every item, and what the earlier calls did lasts.
  pub call_items-All :
      (order_id : String) (items : List Item) (w : World S I)
      → (call_items append client clock kind order_id items w).0 ≡ ok tt
      → All (Q (call_items append client clock kind order_id items w).1.outside) items
  call_items-All order_id [] w = λ h. tt
  call_items-All order_id (item ∷ rest) w = elim (call_items_cases order_id item rest w) [
    | inl (e, bad) ↦ λ h. cc
    | inr (answered, same) ↦
        subst (λ (x : Outcome). x.0 ≡ ok tt → All (Q x.1.outside) (item ∷ rest)) (sym same)
          (λ h. (
            call_items_stay order_id item.reservation_id rest _
                (done item.reservation_id order_id w.outside answered) h,
            call_items-All order_id rest _ h,
          ))
  ]

  -- The loop, and then the transition.
  pub calls_then_transit :
      (order_id : String) (items : List Item) (user_id : ℕ) (target : Status)
      (reason actor_type : String) (actor_id : ℕ) (w : World S I) (o : Order)
      → ((call_items append client clock kind order_id items
            >> transit append client clock order_id user_id target reason actor_type actor_id)
          w).0
        ≡ ok o
      → let after =
          (call_items append client clock kind order_id items
              >> transit append client clock order_id user_id target reason actor_type actor_id)
            w in
        All (Q after.1.outside) items × Reached append order_id target o after.1.repository
  unfolding transit
  calls_then_transit order_id items user_id target reason actor_type actor_id w o =
      ok_bind (λ o w'. All (Q w'.outside) items × Reached append order_id target o w'.repository)
        (call_items append client clock kind order_id items)
        (λ _. transit append client clock order_id user_id target reason actor_type actor_id) w
        (λ _ called o h. (
          call_items-All order_id items w called,
          transition-Reached append order_id user_id target reason actor_type actor_id _ _ o h,
        ))
        o
