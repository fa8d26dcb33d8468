-- ===== src/Order/Effects/Transitions.antt =====
-- What a successful transition has done to the order.
use seckill_mall.Base.{
  ℕ, ◌≡◌, refl, inl, inr, subst, String, true, some, eq_refl, arith, lookup, lookup-insert, ok,
  Action, Option-cases, Bool-cases, Result-cases, ok_inj,
}
use seckill_mall.Contracts.Events.{EventEnvelope}
use seckill_mall.Order.Model.{
  Status, pending_payment, paid, shipped, completed, canceled, refund_pending, refunded, Error,
  Order, can_transition, same_status,
}
use seckill_mall.Order.Repository.{
  Repository, moved_order, announce, move, transition_found, transition, not_owned,
}

pub same_status→eq : (s t : Status) → same_status s t ≡ true → s ≡ t
same_status→eq pending_payment pending_payment h = refl
same_status→eq paid paid h = refl
same_status→eq shipped shipped h = refl
same_status→eq completed completed h = refl
same_status→eq canceled canceled h = refl
same_status→eq refund_pending refund_pending h = refl
same_status→eq refunded refunded h = refl
same_status→eq _ _ h = cc

module _ {S : Type 0} (append : EventEnvelope → Action S Error (Unit {0})) where
  -- The order that the store has, in the state that a transition goes to.
  abbrev pub Reached : String → Status → Order → Repository S → Type 0
  Reached order_id target o r = (o.status ≡ target) × (lookup order_id r.orders ≡ some o)

  move-Reached :
      (order_id : String) (value : Order) (target : Status) (reason actor_type : String)
      (actor_id now : ℕ) (r : Repository S) (o : Order)
      → (move append order_id value target reason actor_type actor_id now r).0 ≡ ok o
      → Reached order_id target o
          (move append order_id value target reason actor_type actor_id now r).1
  unfolding move moved_order
  move-Reached order_id value target reason actor_type actor_id now r o =
      elim (Result-cases (announce append value target reason now r).0) [
        | inr (_, bad) ↦ rw (bad, move) (λ h. cc)
        | inl (_, good) ↦
            rw (good, move)
              (λ h. ground (
                arith,
                eq_refl order_id,
                lookup-insert order_id order_id
                    (moved_order value target reason actor_type actor_id now)
                    (announce append value target reason now r).1.orders,
              ))
      ]

  pub transition-Reached :
      (order_id : String) (user_id : ℕ) (target : Status) (reason actor_type : String)
      (actor_id now : ℕ) (r : Repository S) (o : Order)
      → (transition append order_id user_id target reason actor_type actor_id now r).0 ≡ ok o
      → Reached order_id target o
          (transition append order_id user_id target reason actor_type actor_id now r).1
  unfolding transition transition_found
  transition-Reached order_id user_id target reason actor_type actor_id now r o =
      elim (Option-cases (lookup order_id r.orders)) [
        | inl absent ↦ rw (absent, transition_found) (λ h. cc)
        | inr (value, found) ↦
            rw (found, transition_found)
              (elim (Bool-cases (not_owned user_id value)) [
                | inl other ↦ rw other (λ h. cc)
                | inr own ↦ rw own (elim (Bool-cases (same_status value.status target)) [
                  | inl there ↦ rw there (λ h.
                      subst
                        (λ (v : Order). (v.status ≡ target) × (lookup order_id r.orders ≡ some v))
                        (ok_inj h) (same_status→eq value.status target there, found))
                  | inr away ↦ rw away (elim (Bool-cases (can_transition value.status target)) [
                    | inr forbidden ↦ rw forbidden (λ h. cc)
                    | inl allowed ↦
                        rw allowed
                          (move-Reached order_id value target reason actor_type actor_id now r o)
                  ])
                ])
              ])
      ]
