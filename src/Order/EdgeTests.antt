-- ===== src/Order/EdgeTests.antt =====
-- The findings and the compositions of the Order Service at inputs that meet their conditions.
use seckill_mall.Base.{
  ℕ, ◌+◌, List, Result, is_ok, true, ◌≡◌, refl, String, none, some, [], ◌∷◌, pos, ok, err, Action,
  lookup, insert, add64, mul64, arith, trim_space,
}
use seckill_mall.Contracts.Events.{EventEnvelope}
use seckill_mall.Contracts.Events.{is_known_event_type, validate as validate_envelope}
use seckill_mall.Contracts.Payloads.{
  PaymentSucceededPayload, payment_succeeded_json, validate_event_payload, check_object,
  check_fields, required_fields,
}
use seckill_mall.Contracts.Decode.{decode_payment_succeeded, decode-payment_succeeded_json}
use seckill_mall.Order.Handlers.{payment_succeeded, handle_with, decode_payload}
use seckill_mall.Order.PaidEvents.{payment_succeeded-confirms}
use seckill_mall.Inventory.Model.{Reservation as StockReservation, reserved}
use seckill_mall.Inventory.Store.{
  new_memory_store, release as release_stock, release_found, close_reservation, commit,
  append_event, find_reservation,
}
use seckill_mall.Inventory.Ledger.{new_ledger, give_back, closed_reservation}
use seckill_mall.Inventory.Model.{valid_opaque_id}
use seckill_mall.Order.Model.{
  pending_payment, paid, canceled, new_error, not_found, Order, CreateItem, CreateCommand,
  Reservation, Error, Sku, Address,
}
use seckill_mall.Base.Decimal.{show_uint}
use seckill_mall.Order.Repository.{
  get, transition, transition_found, move, announce, moved_order, publish, new_memory_repository,
}
use seckill_mall.Order.World.{World, call_of}
use seckill_mall.Order.Create.{Draft, reserve_line, reserve_each, price_line, find_sku}
use seckill_mall.Order.Lifecycle.{
  cancel_found, pay_found, call_items, called, transit, cancel_order, confirm_payment,
}
use seckill_mall.Order.Effects.{All}
use seckill_mall.Order.Clients.{Remote, inventory_client, serve_call, answer_of}
use seckill_mall.Order.Composed.{Over, cancel_order-Over}
use seckill_mall.Inventory.Limits.{limited}
use seckill_mall.Inventory.Server.{GrpcError}
use seckill_mall.Order.Edges.{line_at, spaced_seckill, unpriced_line_leaks}
use seckill_mall.Order.Model.{validate_create, subtotal, add_amount, can_transition}
use seckill_mall.Order.Samples.{
  Called, no_events, counting, clock, pen, catalog, identity, hash, two_pens, first_entry, bought,
  shop,
}

abbrev spaced : CreateCommand
spaced = record two_pens { order_type = " seckill"; activity_id = 3 }

abbrev pens : CreateItem
pens = record { sku_id = 7; quantity = pos 2 }

abbrev nothing_sent : EventEnvelope → Action ℕ String (Unit {0})
nothing_sent _ t = (ok tt, t + 1)

abbrev no_text : GrpcError → String
no_text _ = "rpc error"

abbrev next : ℕ → ℕ
next t = t + 1

-- Five pieces of every SKU, and two for a buyer.
abbrev store_of_five : Remote ℕ
store_of_five = record { store = new_memory_store (λ _. pos 5) (pos 2) (some 0); time = 9 }

abbrev remote_catalog : List ℕ → Action (Remote ℕ) Error (List Sku)
remote_catalog _ i = (ok [], i)

abbrev nobody : ℕ → ℕ → Action (Remote ℕ) Error Address
nobody _ _ i = (err (new_error not_found "address"), i)

abbrev spaced_line : Remote ℕ → Result Error Reservation × Remote ℕ
spaced_line =
    line_at no_events nothing_sent no_text next (λ i. i.time) remote_catalog nobody hash 900 "ord_h"
      spaced pens

spaced_seckill_example :
    (validate_create spaced ≡ validate_create (record spaced { order_type = "seckill" }))
    × ((spaced_line store_of_five).1.store.purchased ≡ store_of_five.store.purchased)
    × ((spaced_line (record store_of_five { store = limited (pos 1) store_of_five.store })).0
        ≡ (spaced_line store_of_five).0)
unfolding trim_space
spaced_seckill_example =
    spaced_seckill no_events nothing_sent no_text next (λ i. i.time) remote_catalog nobody hash 900
      spaced "ord_h" pens store_of_five (pos 1) refl refl

-- The line is answered with a reservation even where the limit is one piece and it asks for two.
spaced_line_reserves :
    is_ok (spaced_line (record store_of_five { store = limited (pos 1) store_of_five.store })).0
    ≡ true
unfolding reserve_line inventory_client serve_call answer_of seckill_mall.Inventory.Store.reserve
    seckill_mall.Inventory.Model.validate_reserve_command show_uint
    seckill_mall.Inventory.Store.reserve_found lookup new_memory_store new_ledger
    seckill_mall.Inventory.Store.reserve_new commit append_event
    seckill_mall.Inventory.Store.reservation_event seckill_mall.Contracts.Events.new_event_envelope
    validate_envelope seckill_mall.Inventory.Ledger.new_reservation
    seckill_mall.Contracts.Payloads.inventory_reservation_json
spaced_line_reserves = refl

abbrev ghosts : CreateItem
ghosts = record { sku_id = 8; quantity = pos 1 }

abbrev nothing_yet : Draft
nothing_yet = record { total = pos 0; reservations = []; items = [] }

abbrev pens_reserved : Reservation
pens_reserved = record {
  reservation_id = "res_ord_h_7";
  order_id = "ord_h";
  sku_id = 7;
  quantity = pos 2;
  status = "reserved";
}

unpriced_line_leaks_example :
    reserve_each no_events counting clock catalog identity hash 900 "ord_h" two_pens
      (pen ∷ [])
      (pens ∷ ghosts ∷ [])
      nothing_yet
      shop
    ≡ (
      err (new_error not_found "SKU 不存在或未上架"),
      record shop {
        outside =
            (reserve_line no_events counting clock catalog identity hash 900 "ord_h" two_pens pens
              5).1;
      },
    )
unfolding price_line find_sku subtotal add_amount add64 mul64 reserve_line show_uint
unpriced_line_leaks_example =
    unpriced_line_leaks no_events counting clock catalog identity hash 900 "ord_h" two_pens
      (pen ∷ []) pens ghosts nothing_yet shop pen (pos 500) (pos 500) pens_reserved
      (new_error not_found "SKU 不存在或未上架") refl refl refl

abbrev paid_500 : PaymentSucceededPayload
paid_500 = record {
  payment_no = "pay_1";
  order_id = "ord_h";
  user_id = 9;
  amount_cents = pos 500;
  callback_ref = "cb";
}

abbrev paid_event : EventEnvelope
paid_event = record {
  event_id = "paid_1";
  event_type = "payment.succeeded.v1";
  event_version = pos 1;
  aggregate_type = "payment";
  aggregate_id = "pay_1";
  occurred_at = 2;
  trace_id = "";
  payload = payment_succeeded_json paid_500;
}

payment_succeeded-confirms_example :
    let after = (payment_succeeded no_events counting clock paid_event shop).1 in
    All (Called after.outside) bought.items
    × ((o : Order) × (o.status ≡ paid)
        × (lookup (trim_space "ord_h") after.repository.orders ≡ some o))
unfolding call_of lookup insert trim_space get call_items called transit transition transition_found
    can_transition move announce moved_order new_memory_repository confirm_payment pay_found
    payment_succeeded handle_with decode_payload validate_event_payload validate_envelope
    is_known_event_type check_object check_fields required_fields decode_payment_succeeded
    payment_succeeded_json
payment_succeeded-confirms_example =
    payment_succeeded-confirms no_events counting clock Called (λ id order_id i h. (i, refl))
      (λ id other order_id i q. (i, refl)) paid_event paid_500 shop bought
      (decode-payment_succeeded_json paid_500 (omega arith) (omega arith)) refl refl refl refl

-- The inventory behind the order.
abbrev no_stream : EventEnvelope → Action ℕ String (Unit {0})
no_stream event n = (ok tt, n)

abbrev held_pens : StockReservation
held_pens = record {
  reservation_id = "res_ord_h_7";
  order_id = "ord_h";
  user_id = 9;
  activity_id = 0;
  sku_id = 7;
  quantity = pos 2;
  status = reserved;
  mode = "normal";
  created_at = 3;
  updated_at = 3;
}

abbrev two_services : World ℕ (Remote ℕ)
two_services = record {
  repository = shop.repository;
  outside = record {
    store = record (new_memory_store (λ sku. pos 3) (pos 1) none) {
      ledger = record (new_memory_store {S = ℕ} (λ sku. pos 3) (pos 1) none).ledger {
        reservations = ("res_ord_h_7", held_pens) ∷ [];
      };
    };
    time = 8;
  };
}

abbrev cancelled_order : Order
cancelled_order = record bought {
  status = canceled;
  updated_at = 9;
  status_history =
      first_entry
      ∷ record {
        from_status = some pending_payment;
        to_status = canceled;
        reason = "changed my mind";
        actor_type = "user";
        actor_id = 9;
        created_at = 9;
      }
      ∷ [];
}

cancel_order-Over_example :
    let after =
      (cancel_order no_events
        (inventory_client no_stream (λ e. e.message) (λ t. t + 1))
        (λ (i : Remote ℕ). i.time)
        9
        "ord_h"
        "changed my mind"
        "user"
        9
        two_services).1 in
    All (Over after.outside) bought.items
    × (cancelled_order.status ≡ canceled)
    × (lookup "ord_h" after.repository.orders ≡ some cancelled_order)
unfolding call_of lookup insert trim_space get call_items called transit transition transition_found
    can_transition move announce moved_order new_memory_repository publish cancel_order cancel_found
    inventory_client serve_call answer_of release_stock release_found close_reservation commit
    append_event find_reservation new_ledger new_memory_store give_back closed_reservation
    valid_opaque_id
cancel_order-Over_example =
    cancel_order-Over no_stream (λ e. e.message) (λ t. t + 1) no_events 9 "ord_h" "changed my mind"
      "user" 9 two_services bought cancelled_order refl refl refl refl
