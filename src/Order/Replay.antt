-- ===== src/Order/Replay.antt =====
-- services/order/internal/app/memory_repository.go: Create and FindByIdempotency, called a second time.
use seckill_mall.Base.{
  ◌≡◌, inl, inr, ◌∙◌, sym, ap, String, Bool, true, false, Option, none, some, ok, Action, arith,
  lookup, lookup-insert, eq_refl, Option-cases, Result-cases, ok_inj,
}
use seckill_mall.Contracts.Events.{EventEnvelope}
use seckill_mall.Order.Model.{Error, Order}
use seckill_mall.Order.Repository.{
  Repository, idempotency_key, publish, created_event, create_new, create_again, create,
  find_by_idempotency,
}

-- The repository has an order under a key.
abbrev pub Holds : {S : Type 0} → Order → Repository S → Type 0
Holds o r =
    (lookup (idempotency_key o.user_id o.idempotency_key) r.idempotency ≡ some o.order_id)
    × (lookup o.order_id r.orders ≡ some o)

module _ {S : Type 0} (append : EventEnvelope → Action S Error (Unit {0})) where
  create_new-Holds :
      (value : Order) (r : Repository S) (x : Order × Bool)
      → (create_new append value r).0 ≡ ok x
      → (x ≡ (value, false)) × Holds value (create_new append value r).1
  unfolding create_new
  create_new-Holds value r x = elim (Result-cases (publish append (created_event value) r).0) [
    | inr (_, bad) ↦ rw (bad, create_new) (λ h. cc)
    | inl (_, good) ↦
        rw (good, create_new)
          (λ h. (
            sym (ok_inj h),
            (
              ground (
                arith,
                eq_refl key,
                lookup-insert key key value.order_id
                    (publish append (created_event value) r).1.idempotency,
              ),
              ground (
                arith,
                eq_refl value.order_id,
                lookup-insert value.order_id value.order_id value
                    (publish append (created_event value) r).1.orders,
              ),
            ),
          ))
  ]
    where
      key : String
      key = idempotency_key value.user_id value.idempotency_key

  again_reused :
      (value : Order) (found : Option Order) (r : Repository S) (o : Order)
      → (create_again append value found r).0 ≡ ok (o, false)
      → ⊥
  unfolding create_again
  again_reused value none r o h = ground arith
  again_reused value (some existing) r o h = ground arith

  create-Holds :
      (value o : Order) (r : Repository S)
      → (create append value r).0 ≡ ok (o, false)
      → (o ≡ value) × Holds value (create append value r).1
  unfolding create
  create-Holds value o r =
      elim (Option-cases
        (lookup (idempotency_key value.user_id value.idempotency_key) r.idempotency)) [
          | inl new ↦
              rw (new, create)
                (λ h.
                  let (same, held) = create_new-Holds value r (o, false) h in
                  (ap (λ (x : Order × Bool). x.0) same, held))
          | inr (order_id, taken) ↦
              rw (taken, create) (λ h. absurd (again_reused value (lookup order_id r.orders) r o h))
        ]

  held_again :
      (value : Order) (r : Repository S)
      → Holds value r
      → create append value r ≡ (ok (value, true), r)
  unfolding create create_again
  held_again value r (key, order) = ground (arith, eq_refl value.request_digest)

  found_by_key :
      (value : Order) (r : Repository S)
      → Holds value r
      → (find_by_idempotency value.user_id value.idempotency_key r).0 ≡ ok (some value)
  unfolding find_by_idempotency
  found_by_key value r (key, order) = ground arith

  -- If Create of the repository stores a new order, then a second Create of the same order, on the
  -- repository that the first one left, answers that order as reused and changes nothing, and the
  -- lookup by user and key finds it.
  pub create_twice :
      (value o : Order) (r : Repository S)
      → (create append value r).0 ≡ ok (o, false)
      → (create append value (create append value r).1 ≡ (ok (o, true), (create append value r).1))
        × ((find_by_idempotency value.user_id value.idempotency_key (create append value r).1).0
            ≡ ok (some o))
  create_twice value o r h =
      let (same, held) = create-Holds value o r h in
      (
        held_again value (create append value r).1 held
            ∙ ap (λ (x : Order). (ok (x, true), (create append value r).1)) (sym same),
        found_by_key value (create append value r).1 held
            ∙ ap (λ (x : Order). ok (some x)) (sym same),
      )
