-- ===== src/Payment/ComposedTests.antt =====
-- A callback that reaches a small Order Service.
use seckill_mall.Base.{
  ℕ, suc, String, ◌<>◌, ◌≡◌, refl, false, none, some, [], ◌∷◌, pos, ok, Action, lookup, trim_space,
}
use seckill_mall.Contracts.Events.{EventEnvelope}
use seckill_mall.Platform.Grpc.{GrpcError}
use seckill_mall.Order.World.{World as OrderWorld}
use seckill_mall.Order.Samples.{no_events, counting, clock, shop, bought, Called}
use seckill_mall.Payment.Model.{Payment, Error, pending}
use seckill_mall.Payment.Repository.{new_memory_repository, succeeded_payment}
use seckill_mall.Payment.Service.{World, OrderClient, OrderTransition, callback}
use seckill_mall.Payment.OrderCalls.{connected}
use seckill_mall.Payment.Composed.{IsPaidOrder, callback-IsPaidOrder}

abbrev sent : EventEnvelope → Action ℕ Error (Unit {0})
sent event n = (ok tt, suc n)

-- A hash of one value, which is a text without spaces.
abbrev constant : String → String → String
constant key text = "d41d8c"

abbrev moved : Action (OrderWorld ℕ ℕ) Error OrderTransition
moved w = (ok (record { order_id = ""; status = ""; reused = false }), w)

abbrev orders : OrderClient (OrderWorld ℕ ℕ)
orders = record {
  get = λ user_id order_id w. (
    ok (record { order_id = order_id; user_id = user_id; status = ""; total_amount_cents = pos 0 }),
    w,
  );
  confirm_payment = λ _ _ _ _. moved;
  refund = λ _ _ _ _. moved;
}

abbrev time : OrderWorld ℕ ℕ → ℕ
time w = w.outside

abbrev numbers : String → Action (OrderWorld ℕ ℕ) Error String
numbers prefix w = (ok prefix, w)

abbrev message_of : GrpcError → String
message_of e = e.message

abbrev pen_payment : Payment
pen_payment = record {
  payment_no = "pay_1";
  order_id = "ord_h";
  provider = "mock";
  status = pending;
  callback_ref = "";
  user_id = 9;
  amount_cents = pos 500;
  paid_at = 0;
  created_at = 3;
  updated_at = 3;
}

abbrev both : World ℕ (OrderWorld ℕ ℕ)
both = record {
  repository = record (new_memory_repository none) {
    payments = ("pay_1", pen_payment) ∷ [];
    payment_by_order = ("ord_h", "pay_1") ∷ [];
  };
  outside = shop;
}

callback-IsPaidOrder_example :
    IsPaidOrder Called "ord_h" bought
      (callback sent
        (connected no_events counting clock suc constant "s" message_of orders)
        time
        numbers
        constant
        "k"
        "pay_1"
        "cb"
        "d41d8c"
        both).1.outside
unfolding new_memory_repository seckill_mall.Base.trim_space seckill_mall.Base.lookup
    seckill_mall.Base.insert seckill_mall.Base.Decimal.show_uint seckill_mall.Base.Parsing.parse_int
    seckill_mall.Base.Parsing.parse_below seckill_mall.Platform.Serving.guarded
    seckill_mall.Platform.Serving.answered seckill_mall.Platform.InternalCall.authorize_user
    seckill_mall.Platform.InternalCall.append_user seckill_mall.Platform.InternalCall.check_caller
    seckill_mall.Platform.InternalCall.check_identity seckill_mall.Platform.InternalCall.first
    seckill_mall.Platform.InternalCall.identity_of
    seckill_mall.Platform.InternalCall.metadata_values seckill_mall.Platform.InternalCall.sign
    seckill_mall.Platform.InternalCall.validate_timestamp seckill_mall.Order.World.call_of
    seckill_mall.Order.Lifecycle.confirm_payment seckill_mall.Order.Lifecycle.call_items
    seckill_mall.Order.Lifecycle.called seckill_mall.Order.Lifecycle.pay_found
    seckill_mall.Order.Lifecycle.transit seckill_mall.Order.Repository.transition
    seckill_mall.Order.Repository.transition_found seckill_mall.Order.Repository.move
    seckill_mall.Order.Repository.announce seckill_mall.Order.Repository.moved_order
    seckill_mall.Order.Repository.get seckill_mall.Order.Model.can_transition
    seckill_mall.Order.Server.serve_confirm seckill_mall.Payment.OrderCalls.confirm_call
    seckill_mall.Payment.OrderCalls.transition_of seckill_mall.Payment.Repository.mark_succeeded
    seckill_mall.Payment.Repository.is_taken seckill_mall.Payment.Repository.succeed_at
    seckill_mall.Payment.Repository.publish seckill_mall.Payment.Repository.get
    seckill_mall.Payment.Service.callback seckill_mall.Payment.Service.callback_trimmed
    seckill_mall.Payment.Service.sign seckill_mall.Payment.Service.callback_for
    seckill_mall.Payment.Service.callback_first
callback-IsPaidOrder_example =
    callback-IsPaidOrder sent no_events counting clock suc constant "s" "k" message_of orders time
      numbers Called (λ id order_id i h. (i, refl)) (λ id other order_id i q. (i, refl)) "pay_1"
      "cb" "d41d8c" pen_payment both bought refl refl refl refl refl refl refl
      (
        succeeded_payment pen_payment "cb" 5,
        record { order_id = "ord_h"; status = "paid"; reused = false },
        false,
      )
      refl
