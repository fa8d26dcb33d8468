-- ===== src/Inventory/Tests.antt =====
-- Runs of the inventory store on small inputs, and the theorems at inputs that meet their hypotheses.
use seckill_mall.Base.{
  ℕ, add32, ◌≡◌, refl, insert, sub32, some, List, [], ◌∷◌, pos, arith, ok, err, lookup, inl,
}
use seckill_mall.Contracts.Events.{
  EventEnvelope, is_known_event_type, validate, new_event_envelope,
  order_cancelled as order_cancelled_type,
}
use seckill_mall.Contracts.Payloads.{
  validate_event_payload, check_object, check_fields, required_fields, inventory_reservation_json,
  order_cancelled_json, OrderCancelledPayload,
}
use seckill_mall.Contracts.Decode.{decode_order_cancelled, decode-order_cancelled_json}
use seckill_mall.Inventory.Model.{
  Reservation, ReserveCommand, SeckillAdmissionCommand, out_of_stock, validate_reserve_command,
  valid_opaque_id,
}
use seckill_mall.Inventory.Ledger.{
  closed_reservation, give_back, put, hold, new_ledger, new_reservation,
}
use seckill_mall.Inventory.Store.{
  MemoryStore, appended, new_memory_store, reservation_event, reserve, append_event, commit,
  reserve_found, reserve_new, release_found, close_reservation, find_reservation, release,
}
use seckill_mall.Inventory.Calls.{Call, perform, run, perform-Move}
use seckill_mall.Inventory.Moves.{Move}
use seckill_mall.Inventory.Conservation.{IsConserved, run-IsConserved}
use seckill_mall.Inventory.Purchases.{IsCounted, run-IsCounted}
use seckill_mall.Inventory.Lifecycle.{SameGoods, ◌⟶*◌, run_follows}
use seckill_mall.Inventory.Replay.{perform_twice, IsOver}
use seckill_mall.Inventory.Failures.{perform-Refuses}
use seckill_mall.Inventory.Handlers.{
  decode_inventory_payload, StreamEvent, stream_append, order_cancelled, each_reservation,
}
use seckill_mall.Inventory.Cancellation.{order_cancelled_releases}

abbrev stocked : ℕ → ℕ
stocked sku = 5

abbrev shop : MemoryStore (List StreamEvent)
shop = new_memory_store (λ sku. pos (stocked sku)) (pos 2) (some [])

abbrev two_of_seven : ReserveCommand
two_of_seven = record {
  reservation_id = "res_1";
  order_id = "ord_1";
  user_id = 9;
  sku_id = 7;
  quantity = pos 2;
  mode = "normal";
}

abbrev rush : SeckillAdmissionCommand
rush = record {
  request_id = "rush_1";
  activity_id = 3;
  user_id = 9;
  sku_id = 7;
  quantity = pos 2;
  order_id = "";
}

abbrev day : List (ℕ × Call)
day =
    (1, Call.reserves two_of_seven)
    ∷ (2, Call.admits rush)
    ∷ (3, Call.confirms "admit_rush_1" "ord_2")
    ∷ (4, Call.releases "res_1" "ord_1")
    ∷ []

abbrev held_two : Reservation
held_two = new_reservation two_of_seven 1

-- The store after the first reservation.
abbrev after_reserve : MemoryStore (List StreamEvent)
after_reserve = (reserve stream_append two_of_seven 1 shop).1

reserve_takes_stock : after_reserve.stock 7 ≡ pos 3
unfolding reserve reserve_found reserve_new commit append_event appended stream_append
    new_memory_store validate_reserve_command lookup new_ledger reservation_event new_event_envelope
    validate new_reservation inventory_reservation_json hold sub32
reserve_takes_stock = refl

reserve_answers : (reserve stream_append two_of_seven 1 shop).0 ≡ ok held_two
unfolding reserve reserve_found reserve_new commit append_event appended stream_append
    new_memory_store validate_reserve_command lookup new_ledger reservation_event new_event_envelope
    validate new_reservation inventory_reservation_json hold sub32
reserve_answers = refl

reserve_keeps : lookup "res_1" after_reserve.reservations ≡ some held_two
unfolding reserve reserve_found reserve_new commit append_event appended stream_append
    new_memory_store validate_reserve_command lookup insert new_ledger reservation_event
    new_event_envelope validate new_reservation inventory_reservation_json hold sub32
reserve_keeps = refl

abbrev cancelled_order : OrderCancelledPayload
cancelled_order = record {
  order_id = "ord_1";
  user_id = 9;
  reason = "timeout";
  reservation_ids = "res_1" ∷ [];
}

abbrev cancel_event : EventEnvelope
cancel_event = record {
  event_id = "cancel_1";
  event_type = order_cancelled_type;
  event_version = pos 1;
  aggregate_type = "order";
  aggregate_id = "ord_1";
  occurred_at = 8;
  trace_id = "";
  payload = order_cancelled_json cancelled_order;
}

cancel_handled : (order_cancelled stream_append cancel_event (λ i. 9) after_reserve).0 ≡ ok tt
unfolding order_cancelled decode_inventory_payload validate_event_payload is_known_event_type
    check_object check_fields required_fields decode_order_cancelled order_cancelled_json
    each_reservation release release_found close_reservation find_reservation valid_opaque_id commit
    append_event appended stream_append reserve reserve_found reserve_new new_memory_store
    validate_reserve_command lookup insert new_ledger reservation_event new_event_envelope validate
    new_reservation inventory_reservation_json hold sub32 closed_reservation give_back put add32
cancel_handled = refl

run-IsConserved_example :
    IsConserved stocked
      (run stream_append day (new_memory_store (λ sku. pos (stocked sku)) (pos 2) (some []))).ledger
run-IsConserved_example =
    run-IsConserved stocked (λ sku. omega arith) stream_append (pos 2) (some []) day

run-IsCounted_example :
    IsCounted 2
      (run stream_append day (new_memory_store (λ sku. pos (stocked sku)) (pos 2) (some []))).ledger
run-IsCounted_example =
    run-IsCounted stocked 2 (λ sku. omega arith) stream_append (some []) day (omega arith)

perform-Move_example :
    Move shop.ledger (perform stream_append (Call.reserves two_of_seven) 1 shop).1.ledger
perform-Move_example = perform-Move stream_append (Call.reserves two_of_seven) 1 shop

run_follows_example :
    (q : Reservation) × (lookup "res_1" (run stream_append day after_reserve).reservations ≡ some q)
    × SameGoods held_two q
    × (held_two.status ⟶* q.status)
run_follows_example = run_follows stream_append "res_1" held_two day after_reserve reserve_keeps

perform_twice_example :
    perform stream_append
      (Call.reserves two_of_seven)
      6
      (perform stream_append (Call.reserves two_of_seven) 1 shop).1
    ≡ (ok held_two, (perform stream_append (Call.reserves two_of_seven) 1 shop).1)
unfolding perform
perform_twice_example =
    perform_twice stream_append (Call.reserves two_of_seven) 1 6 shop held_two reserve_answers

-- Seven units are not in stock.
abbrev seven_of_seven : ReserveCommand
seven_of_seven = record two_of_seven { quantity = pos 7 }

reserve_short : (reserve stream_append seven_of_seven 1 shop).0 ≡ err out_of_stock
unfolding reserve reserve_found reserve_new new_memory_store validate_reserve_command lookup
    new_ledger new_reservation
reserve_short = refl

perform-Refuses_example :
    (perform stream_append (Call.reserves seven_of_seven) 1 shop).1.ledger ≡ shop.ledger
unfolding perform
perform-Refuses_example =
    perform-Refuses stream_append (Call.reserves seven_of_seven) 1 shop out_of_stock reserve_short

order_cancelled_releases_example :
    (q : Reservation) × (lookup "res_1"
        (order_cancelled stream_append cancel_event (λ i. 9) after_reserve).1.reservations
      ≡ some q)
    × IsOver q.status
order_cancelled_releases_example =
    order_cancelled_releases stream_append cancel_event (λ i. 9) after_reserve cancelled_order
      "res_1" held_two (decode-order_cancelled_json cancelled_order (omega arith)) (inl refl)
      reserve_keeps cancel_handled
