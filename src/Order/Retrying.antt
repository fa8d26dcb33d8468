-- ===== src/Order/Retrying.antt =====
-- services/order/internal/app/service.go: one pass of the loop of RetryOperations over one kept
-- operation.
use seckill_mall.Base.{
  ℕ, zero, suc, ◌+◌, ◌-◌, ◌*◌, ◌≤◌, ◌<◌, ◌≡◌, refl, inl, inr, ◌⊎◌, some, ok, err, Result, Action,
  arith, leb, lookup, lookup-insert, eq_refl, Bool-cases,
}
use seckill_mall.Contracts.Events.{EventEnvelope}
use seckill_mall.Order.Model.{
  Error, Operation, pending_retry, failed, Kind, unsupported, retry_delay, second,
  max_operation_attempts,
}
use seckill_mall.Order.Repository.{update_operation}
use seckill_mall.Order.World.{World, InventoryClient, stored, call_of}
use seckill_mall.Order.Retry.{
  repeated_operation, exhausted_operation, unsupported_operation, repeated, retry_known, retry_kind,
  retry_one,
}

-- The delay is between one second and thirty-two.
pub retry_delay_bounds :
    (attempt : ℕ) → (second ≤ retry_delay attempt) × (retry_delay attempt ≤ 32 * second)
unfolding retry_delay
retry_delay_bounds zero = (omega arith, omega arith)
retry_delay_bounds (suc zero) = (omega arith, omega arith)
retry_delay_bounds (suc (suc zero)) = (omega arith, omega arith)
retry_delay_bounds (suc (suc (suc zero))) = (omega arith, omega arith)
retry_delay_bounds (suc (suc (suc (suc zero)))) = (omega arith, omega arith)
retry_delay_bounds (suc (suc (suc (suc (suc zero))))) = (omega arith, omega arith)
retry_delay_bounds (suc (suc (suc (suc (suc (suc zero)))))) = (omega arith, omega arith)
retry_delay_bounds (suc (suc (suc (suc (suc (suc (suc n))))))) = (ground arith, ground arith)

-- How many more passes an operation can take.
abbrev pub passes_left : Operation → ℕ
passes_left o = elim o.status [ pending_retry ↦ max_operation_attempts + 1 - o.attempts | _ ↦ 0 ]

module _ {S I : Type 0} (append : EventEnvelope → Action S Error (Unit {0}))
    (client : InventoryClient I) (clock : I → ℕ) where
  update_kept :
      (o : Operation) (w : World S I)
      → lookup o.id (stored {A = Unit {0}} (update_operation o) w).1.repository.operations ≡ some o
  unfolding update_operation
  update_kept o w = ground (arith, eq_refl o.id, lookup-insert o.id o.id o w.repository.operations)

  -- What a pass leaves of an operation that has not succeeded.
  abbrev pub Failing : Operation → ℕ → ℕ → Result (ℕ × Error) ℕ × World S I → Type 0
  Failing o now count x =
      (x.0 ≡ ok count)
      × ((q : Operation) × (lookup o.id x.1.repository.operations ≡ some q)
          × (passes_left q < passes_left o)
          × ((q.status ≡ failed) ⊎ (now + second ≤ q.next_retry_at)))

  unsupported-Failing :
      (o : Operation) (now count : ℕ) (w : World S I)
      → o.status ≡ pending_retry
      → o.attempts < max_operation_attempts
      → Failing o now count
          (ok count, (stored {A = Unit {0}} (update_operation (unsupported_operation o now)) w).1)
  unfolding unsupported_operation
  unsupported-Failing o now count w pending few = (
    refl,
    (
      unsupported_operation o now,
      update_kept (unsupported_operation o now) w,
      ground arith,
      inr (omega (arith, retry_delay_bounds (o.attempts + 1))),
    ),
  )

  repeated-Failing :
      (o : Operation) (now count : ℕ) (e : Error) (w : World S I)
      → o.status ≡ pending_retry
      → o.attempts < max_operation_attempts
      → Failing o now count (repeated append client clock o now count (err e) w)
  unfolding repeated repeated_operation
  repeated-Failing o now count e w pending few = (
    refl,
    (
      repeated_operation o now (err e),
      update_kept (repeated_operation o now (err e)) w,
      ground arith,
      inr (omega (arith, retry_delay_bounds (o.attempts + 1))),
    ),
  )

  known-Failing :
      (o : Operation) (now count : ℕ) (e : Error) (w : World S I)
      → o.status ≡ pending_retry
      → o.attempts < max_operation_attempts
      → (call_of client o.kind o.reservation_id o.order_id w.outside).0 ≡ err e
      → Failing o now count (retry_known append client clock o now count w)
  unfolding retry_known
  known-Failing o now count e w pending few bad =
      rw (bad, retry_known) (repeated-Failing o now count e _ pending few)

  kind-Failing :
      (kind : Kind) (o : Operation) (now count : ℕ) (e : Error) (w : World S I)
      → o.status ≡ pending_retry
      → o.attempts < max_operation_attempts
      → (call_of client o.kind o.reservation_id o.order_id w.outside).0 ≡ err e
      → Failing o now count (retry_kind append client clock kind o now count w)
  unfolding retry_kind
  kind-Failing (unsupported _) o now count e w pending few bad =
      unsupported-Failing o now count w pending few
  kind-Failing _ o now count e w pending few bad = known-Failing o now count e w pending few bad

  -- If a pending operation was tried at most eight times, and either it was tried eight times or its
  -- call fails, then a pass of RetryOperations over it goes on with the same count and leaves it with
  -- fewer passes than before (of at most nine), and it has failed for good or its next attempt is at
  -- least a second away.
  pub retry_one-Failing :
      (o : Operation) (now count : ℕ) (w : World S I)
      → o.status ≡ pending_retry
      → o.attempts ≤ max_operation_attempts
      → (o.attempts ≡ max_operation_attempts)
        ⊎ ((e : Error) × ((call_of client o.kind o.reservation_id o.order_id w.outside).0 ≡ err e))
      → Failing o now count (retry_one append client clock o now count w)
  unfolding retry_one exhausted_operation
  retry_one-Failing o now count w pending few cause =
      elim (Bool-cases (leb max_operation_attempts o.attempts)) [
        | inl over ↦ rw over (
          refl,
          (
            exhausted_operation o now,
            update_kept (exhausted_operation o now) w,
            ground arith,
            inl refl,
          ),
        )
        | inr within ↦ rw within (elim cause [
          | inl most ↦ absurd (ground arith)
          | inr (e, bad) ↦ kind-Failing o.kind o now count e w pending (ground arith) bad
        ])
      ]
