-- ===== src/Order/Steps.antt =====
-- What a call of the repository does to the orders, as a step relation: nothing, a new order, or one
-- transition of an order along an edge that canTransition allows.
use seckill_mall.Base.{
  ℕ, ◌≡◌, refl, ap, inl, inr, String, true, none, some, [], ◌∷◌, Result, arith, lookup, insert,
  Option-cases, Bool-cases, Result-cases, Action,
}
use seckill_mall.Contracts.Events.{EventEnvelope}
use seckill_mall.Order.Model.{
  Status, pending_payment, canceled, Error, Order, StatusHistory, can_transition, same_status,
}
use seckill_mall.Order.Repository.{
  Repository, idempotency_key, moved_order, publish, announce, move, transition_found, transition,
  create_new, create_again, create, created_event, not_owned,
}
use seckill_mall.Order.Amounts.{IsPriced}

-- An order as Create of the service makes it.
pub record IsFresh (value : Order) : Type 0 where
  pub priced : IsPriced value.total_amount_cents value.items
  pub pending : value.status ≡ pending_payment
  pub first_entry :
      (entry : StatusHistory) × (value.status_history ≡ entry ∷ [])
      × (entry.from_status ≡ none)
      × (entry.to_status ≡ pending_payment)

pub data Step {S : Type 0} (r u : Repository S) : Type 0 where
  keeps : u.orders ≡ r.orders → u.idempotency ≡ r.idempotency → Step r u
  creates :
      (value : Order)
      → IsFresh value
      → lookup (idempotency_key value.user_id value.idempotency_key) r.idempotency ≡ none
      → u.orders ≡ insert value.order_id value r.orders
      → u.idempotency
        ≡ insert (idempotency_key value.user_id value.idempotency_key) value.order_id r.idempotency
      → Step r u
  moves :
      (order_id : String) (value : Order) (target : Status) (reason actor_type : String)
      (actor_id now : ℕ)
      → lookup order_id r.orders ≡ some value
      → can_transition value.status target ≡ true
      → u.orders
        ≡ insert order_id (moved_order value target reason actor_type actor_id now) r.orders
      → u.idempotency ≡ r.idempotency
      → Step r u

module _ {S : Type 0} (append : EventEnvelope → Action S Error (Unit {0})) where
  -- Publishing touches the event sink alone.
  pub publish_keeps :
      (event : Result String EventEnvelope) (r : Repository S)
      → ((publish append event r).1.orders ≡ r.orders)
        × ((publish append event r).1.idempotency ≡ r.idempotency)
  unfolding publish
  publish_keeps event r = ground arith

  announce_keeps :
      (value : Order) (target : Status) (reason : String) (now : ℕ) (r : Repository S)
      → ((announce append value target reason now r).1.orders ≡ r.orders)
        × ((announce append value target reason now r).1.idempotency ≡ r.idempotency)
  unfolding announce
  announce_keeps value target reason now r = elim (Bool-cases (same_status target canceled)) [
    | inl on ↦ rw on (publish_keeps _ r)
    | inr off ↦ rw off (refl, refl)
  ]

  move-Step :
      (order_id : String) (value : Order) (target : Status) (reason actor_type : String)
      (actor_id now : ℕ) (r : Repository S)
      → lookup order_id r.orders ≡ some value
      → can_transition value.status target ≡ true
      → Step r (move append order_id value target reason actor_type actor_id now r).1
  unfolding move
  move-Step order_id value target reason actor_type actor_id now r found allowed =
      let (orders, keys) = announce_keeps value target reason now r in
      elim (Result-cases (announce append value target reason now r).0) [
        | inr (_, bad) ↦ rw (bad, move) (keeps orders keys)
        | inl (_, good) ↦
            rw (good, move)
              (moves order_id value target reason actor_type actor_id now found allowed
                (ap (insert order_id (moved_order value target reason actor_type actor_id now))
                  orders)
                keys)
      ]

  pub transition-Step :
      (order_id : String) (user_id : ℕ) (target : Status) (reason actor_type : String)
      (actor_id now : ℕ) (r : Repository S)
      → Step r (transition append order_id user_id target reason actor_type actor_id now r).1
  unfolding transition transition_found
  transition-Step order_id user_id target reason actor_type actor_id now r =
      elim (Option-cases (lookup order_id r.orders)) [
        | inl absent ↦ rw (absent, transition_found) (keeps refl refl)
        | inr (value, found) ↦
            rw (found, transition_found)
              (elim (Bool-cases (not_owned user_id value)) [
                | inl other ↦ rw other (keeps refl refl)
                | inr own ↦ rw own (elim (Bool-cases (same_status value.status target)) [
                  | inl there ↦ rw there (keeps refl refl)
                  | inr away ↦ rw away (elim (Bool-cases (can_transition value.status target)) [
                    | inr forbidden ↦ rw forbidden (keeps refl refl)
                    | inl allowed ↦ rw allowed (
                        move-Step order_id value target reason actor_type actor_id now r found
                          allowed)
                  ])
                ])
              ])
      ]

  create_new-Step :
      (value : Order) (r : Repository S)
      → IsFresh value
      → lookup (idempotency_key value.user_id value.idempotency_key) r.idempotency ≡ none
      → Step r (create_new append value r).1
  unfolding create_new
  create_new-Step value r fresh new =
      let (orders, keys) = publish_keeps (created_event value) r in
      elim (Result-cases (publish append (created_event value) r).0) [
        | inr (_, bad) ↦ rw (bad, create_new) (keeps orders keys)
        | inl (_, good) ↦
            rw (good, create_new)
              (creates value fresh new (ap (insert value.order_id value) orders) (
                ap (insert (idempotency_key value.user_id value.idempotency_key) value.order_id)
                  keys))
      ]

  pub create-Step :
      (value : Order) (r : Repository S) → IsFresh value → Step r (create append value r).1
  unfolding create create_again
  create-Step value r fresh =
      elim (Option-cases
        (lookup (idempotency_key value.user_id value.idempotency_key) r.idempotency)) [
          | inl new ↦ rw (new, create) (create_new-Step value r fresh new)
          | inr (order_id, taken) ↦
              rw (taken, create)
                (elim (Option-cases (lookup order_id r.orders)) [
                  | inl absent ↦ rw (absent, create_again) (keeps (ground arith) (ground arith))
                  | inr (existing, held) ↦
                      rw (held, create_again) (keeps (ground arith) (ground arith))
                ])
        ]
