-- ===== src/Order/Tests.antt =====
-- The Order Service on small inputs, and its theorems at inputs that meet their conditions.
use seckill_mall.Base.{
  take_text, ℕ, ◌≡◌, refl, inr, none, some, List, [], ◌∷◌, true, false, ok, lookup, insert, add64,
  mul64, arith, trim_space,
}
use seckill_mall.Order.Model.{
  pending_payment, paid, new_error, unavailable, Order, Operation, restock, pending_retry,
}
use seckill_mall.Base.Decimal.{show_uint}
use seckill_mall.Order.Repository.{
  get, find_create_intent, save_create_intent, update_create_intent, idempotency_key, transition,
  transition_found, move, announce, moved_order, create_new, publish, Repository,
  new_memory_repository, create, find_by_idempotency,
}
use seckill_mall.Order.World.{call_of}
use seckill_mall.Order.Create.{
  reserve_line, reserve_each, create_order, request_digest, create_found, create_unknown,
  create_started, settle, settled_intent, new_intent, order_hash, place_order, place_at,
  reserve_and_store, sort_items, store_order, new_order, price_line, find_sku,
}
use seckill_mall.Order.Lifecycle.{pay_found, call_items, called, transit, confirm_payment}
use seckill_mall.Order.Requests.{Request, serve, serve_all}
use seckill_mall.Order.Audit.{IsAudited, serve_all-IsAudited}
use seckill_mall.Order.Effects.{All, confirm_payment-confirms}
use seckill_mall.Order.Replay.{create_twice}
use seckill_mall.Order.Retrying.{Failing, retry_one-Failing}
use seckill_mall.Order.Retry.{retry_one}
use seckill_mall.Order.Model.{validate_create, check_items, subtotal, add_amount, can_transition}
use seckill_mall.Order.Samples.{
  Called, no_events, counting, clock, catalog, identity, hash, two_pens, first_entry, bought, shop,
}

abbrev one_request : List Request
one_request = Request.creates two_pens ∷ []

serve_all-IsAudited_example : IsAudited "ord_h" bought
unfolding serve_all serve lookup insert create_order validate_create trim_space check_items
    find_by_idempotency new_memory_repository create_found create_unknown find_create_intent
    create_started save_create_intent settle update_create_intent place_order place_at
    reserve_and_store reserve_each reserve_line price_line find_sku sort_items subtotal add_amount
    add64 mul64 store_order new_order create create_new publish request_digest new_intent order_hash
    take_text show_uint idempotency_key settled_intent
serve_all-IsAudited_example =
    serve_all-IsAudited no_events counting clock catalog identity hash 900 none 1 one_request
      "ord_h" bought refl

abbrev paid_order : Order
paid_order = record bought {
  status = paid;
  updated_at = 6;
  status_history =
      first_entry
      ∷ record {
        from_status = some pending_payment;
        to_status = paid;
        reason = "支付成功: pay_1";
        actor_type = "payment";
        actor_id = 0;
        created_at = 6;
      }
      ∷ [];
}

confirm_payment-confirms_example :
    let after = (confirm_payment no_events counting clock 9 "ord_h" "pay_1" "cb" shop).1 in
    All (Called after.outside) bought.items
    × (paid_order.status ≡ paid)
    × (lookup (trim_space "ord_h") after.repository.orders ≡ some paid_order)
unfolding call_of lookup insert trim_space get call_items called transit transition transition_found
    can_transition move announce moved_order new_memory_repository confirm_payment pay_found
confirm_payment-confirms_example =
    confirm_payment-confirms no_events counting clock Called (λ id order_id i h. (i, refl))
      (λ id other order_id i q. (i, refl)) 9 "ord_h" "pay_1" "cb" shop bought paid_order false refl
      refl refl refl

abbrev new_repository : Repository ℕ
new_repository = new_memory_repository none

create_twice_example :
    (create no_events bought (create no_events bought new_repository).1
      ≡ (ok (bought, true), (create no_events bought new_repository).1))
    × ((find_by_idempotency 9 "k1" (create no_events bought new_repository).1).0 ≡ ok (some bought))
unfolding create lookup new_memory_repository create_new publish
create_twice_example = create_twice no_events bought bought new_repository refl

abbrev late_release : Operation
late_release = record {
  id = "restock:ord_h:res_ord_h_7";
  order_id = "ord_h";
  kind = restock;
  reservation_id = "res_ord_h_7";
  status = pending_retry;
  attempts = 1;
  last_error = "";
  next_retry_at = 0;
  created_at = 0;
  updated_at = 0;
}

retry_one-Failing_example :
    Failing no_events counting clock late_release 5 0
      (retry_one no_events counting clock late_release 5 0 shop)
unfolding call_of
retry_one-Failing_example =
    retry_one-Failing no_events counting clock late_release 5 0 shop refl (omega arith)
      (inr (new_error unavailable "down", refl))
