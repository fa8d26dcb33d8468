-- ===== src/Order/RetryTests.antt =====
-- A run of RetryOperations on a small Order Service.
use seckill_mall.Base.{
  ℕ, suc, Option, str_eq, if◌then◌else◌, ◌≡◌, refl, String, none, some, [], ◌∷◌, ok, err, lookup,
  insert, trim_space,
}
use seckill_mall.Order.Model.{
  new_error, Operation, release, operation_id, pending_retry, unavailable,
}
use seckill_mall.Order.Repository.{get}
use seckill_mall.Order.World.{World, InventoryClient, call_of}
use seckill_mall.Order.Lifecycle.{call_items, called, transit}
use seckill_mall.Order.Retry.{
  retry_operations, retry_each, retry_one, retry_kind, retry_known, repeated,
}
use seckill_mall.Order.Samples.{no_events, counting, clock, shop}

-- An inventory that does not release the reservation of the pens.
abbrev half_down : InventoryClient ℕ
half_down = record counting {
  release_call = λ id order_id n.
      if str_eq id "res_ord_h_7"
      then (err (new_error unavailable "down"), suc n)
      else (ok tt, suc n);
}

abbrev waiting : String → ℕ → Operation
waiting reservation_id attempts = record {
  id = operation_id release "ord_h" reservation_id;
  order_id = "ord_h";
  kind = release;
  reservation_id = reservation_id;
  status = pending_retry;
  attempts = attempts;
  last_error = "down";
  next_retry_at = 0;
  created_at = 0;
  updated_at = 0;
}

-- The pens were tried seven times, and a release of the same order once.
abbrev both_due : World ℕ ℕ
both_due = record shop {
  repository = record shop.repository {
    operations =
        ("release:ord_h:res_ord_h_7", waiting "res_ord_h_7" 7)
        ∷ ("release:ord_h:res_ord_h_8", waiting "res_ord_h_8" 1)
        ∷ [];
  };
}

abbrev attempts_at : String → World ℕ ℕ → Option ℕ
attempts_at id w = elim (lookup id w.repository.operations) [
  | none ↦ none
  | some o ↦ some o.attempts
]

-- After one run the pens count as tried once.
attempts_start_again :
    attempts_at "release:ord_h:res_ord_h_7"
      (retry_operations no_events half_down clock 10 both_due).1
    ≡ some 1
unfolding retry_operations retry_each retry_one retry_kind retry_known repeated lookup insert
    call_of get call_items called operation_id transit
    seckill_mall.Order.Repository.list_pending_operations
    seckill_mall.Order.Repository.list_operations_from seckill_mall.Order.Retry.finalize
    seckill_mall.Order.Retry.finalize_pending_cancellation
    seckill_mall.Order.Retry.finalize_cancellation_got
    seckill_mall.Order.Repository.update_operation
    seckill_mall.Order.Retry.finalize_cancellation_found seckill_mall.Order.Lifecycle.keep_operation
    seckill_mall.Order.Repository.save_operation seckill_mall.Order.Retry.repeated_operation
    seckill_mall.Order.Lifecycle.pending_operation seckill_mall.Order.Lifecycle.done_operation
    seckill_mall.Order.Model.error_text seckill_mall.Order.Model.retry_delay trim_space
attempts_start_again = refl
