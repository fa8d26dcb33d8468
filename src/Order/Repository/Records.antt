-- ===== src/Order/Repository/Records.antt =====
-- services/order/internal/app/memory_repository.go: the four maps and the sink, the events that the
-- repository publishes, and the records that it writes.
use seckill_mall.Base.{
  ℕ, String, ◌<>◌, Bool, ◌&&◌, not, Option, some, List, [], ◌∷◌, ◌++◌, map, pos, ◌==◌, Result,
  Table,
}
use seckill_mall.Base.Decimal.{show_uint}
use seckill_mall.Contracts.Events.{
  EventEnvelope, OrderItemPayload, new_event_envelope, order_created, order_cancelled,
}
use seckill_mall.Contracts.Payloads.{order_created_json, order_cancelled_json}
use seckill_mall.Order.Model.{
  Status, pending_payment, Error, new_error, not_found, Item, Order, Operation, CreateIntent,
}

pub record Repository (S : Type 0) : Type 0 where
  pub orders : Table Order
  pub idempotency : Table String
  pub intents : Table CreateIntent
  pub operations : Table Operation
  pub event_sink : Option S

-- NewMemoryRepository, and SetEventSink
unfoldable pub new_memory_repository : {S : Type 0} → Option S → Repository S
new_memory_repository sink = record {
  orders = [];
  idempotency = [];
  intents = [];
  operations = [];
  event_sink = sink;
}

-- idempotencyKey
unfoldable pub idempotency_key : ℕ → String → String
idempotency_key user_id key = show_uint user_id <> (":" <> key)

-- orderItemPayloads
abbrev pub order_item_payloads : List Item → List OrderItemPayload
order_item_payloads items =
    map
      (λ (item : Item). record {
        sku_id = item.sku_id;
        quantity = item.quantity;
        reservation_id = item.reservation_id;
        unit_price_cents = item.unit_price_cents;
      })
      items

abbrev reservation_ids : List Item → List String
reservation_ids items = map (λ (item : Item). item.reservation_id) items

unfoldable pub created_event : Order → Result String EventEnvelope
created_event value =
    new_event_envelope ("order.created:" <> value.order_id) order_created "order" value.order_id
      (pos 1)
      (order_created_json (record {
        order_id = value.order_id;
        user_id = value.user_id;
        order_type = value.order_type;
        total_amount_cents = value.total_amount_cents;
        items = order_item_payloads value.items;
      }))
      value.created_at

unfoldable pub cancelled_event : Order → String → ℕ → Result String EventEnvelope
cancelled_event value reason now =
    new_event_envelope ("order.cancelled:" <> value.order_id) order_cancelled "order" value.order_id
      (pos 1)
      (order_cancelled_json (record {
        order_id = value.order_id;
        user_id = value.user_id;
        reason = reason;
        reservation_ids = reservation_ids value.items;
      }))
      now

-- An operation of the state machine: the order after the transition.
unfoldable pub moved_order : Order → Status → String → String → ℕ → ℕ → Order
moved_order value target reason actor_type actor_id now = record value {
  status_history =
      value.status_history
      ++ (record {
        from_status = some value.status;
        to_status = target;
        reason = reason;
        actor_type = actor_type;
        actor_id = actor_id;
        created_at = now;
      }
          ∷ []);
  status = target;
  updated_at = now;
}

-- The zero value of Order; its empty status is read as pending_payment.
abbrev pub zero_order : Order
zero_order = record {
  order_id = "";
  user_id = 0;
  address_id = 0;
  order_type = "";
  status = pending_payment;
  total_amount_cents = pos 0;
  idempotency_key = "";
  request_digest = "";
  address_snapshot = record {
    id = 0;
    user_id = 0;
    recipient = "";
    phone = "";
    province = "";
    city = "";
    district = "";
    detail = "";
  };
  items = [];
  status_history = [];
  expires_at = 0;
  created_at = 0;
  updated_at = 0;
}

abbrev pub not_owned : ℕ → Order → Bool
not_owned user_id value = not (user_id == 0) && not (value.user_id == user_id)

abbrev pub no_order : Error
no_order = new_error not_found "订单不存在"
