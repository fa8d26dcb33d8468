-- ===== src/Payment/Tests.antt =====
-- The payment service on small inputs, and its theorems at inputs that meet their conditions.
use seckill_mall.Base.{
  ℕ, ◌+◌, String, ◌<>◌, ◌≡◌, refl, false, true, none, some, List, [], ◌∷◌, pos, ok, err, Action,
  map_answer, ◌⊎◌, trim_space, lookup,
}
use seckill_mall.Contracts.Events.{EventEnvelope}
use seckill_mall.Payment.Model.{Payment, Refund, Error, pending, unauthorized}
use seckill_mall.Payment.Repository.{
  new_memory_repository, is_taken, publish, succeeded_payment, find_succeeded_payment,
  find_refund_by_order, create_refund, refund_new,
}
use seckill_mall.Payment.Service.{
  World, OrderClient, OrderTransition, remote, sign, new_refund, callback, callback_trimmed, refund,
  refund_trimmed, refund_found, refund_order, refund_payment,
}
use seckill_mall.Payment.Requests.{Request, pay, call_back, give_back, serve_all}
use seckill_mall.Payment.Keeping.{IsSound}
use seckill_mall.Payment.Serving.{serve_all-IsSound}
use seckill_mall.Payment.Marking.{Pays}
use seckill_mall.Payment.Callbacks.{callback-Pays}
use seckill_mall.Payment.Retries.{callback_retried}
use seckill_mall.Payment.Refunds.{IsPaidBy, Refunds, refund_gives_back}

-- A sink that counts its events, an order service that counts its calls, and a clock that counts them.
abbrev sent : EventEnvelope → Action ℕ Error (Unit {0})
sent event n = (ok tt, n + 1)

abbrev moved : Action ℕ Error OrderTransition
moved n = (ok (record { order_id = "o1"; status = "paid"; reused = false }), n + 1)

abbrev orders : OrderClient ℕ
orders = record {
  get = λ user_id order_id n. (
    ok (record {
      order_id = order_id;
      user_id = user_id;
      status = "pending_payment";
      total_amount_cents = pos 500;
    }),
    n + 1,
  );
  confirm_payment = λ _ _ _ _. moved;
  refund = λ _ _ _ _. moved;
}

abbrev ticks : ℕ → ℕ
ticks n = n

abbrev numbers : String → Action ℕ Error String
numbers prefix n = (ok (prefix <> "_1"), n + 1)

abbrev keyed : String → String → String
keyed key text = key <> ("/" <> text)

abbrev waiting_payment : Payment
waiting_payment = record {
  payment_no = "pay_1";
  order_id = "o1";
  provider = "mock";
  status = pending;
  callback_ref = "";
  user_id = 7;
  amount_cents = pos 500;
  paid_at = 0;
  created_at = 3;
  updated_at = 3;
}

abbrev with_payment : Payment → World ℕ ℕ
with_payment p = record {
  repository = record {
    payments = ("pay_1", p) ∷ [];
    payment_by_order = ("o1", "pay_1") ∷ [];
    callbacks = [];
    refunds = [];
    refund_by_order = [];
    sink = none;
  };
  outside = 10;
}

abbrev waiting_world : World ℕ ℕ
waiting_world = with_payment waiting_payment

abbrev paid_world : World ℕ ℕ
paid_world = with_payment (succeeded_payment waiting_payment "ref" 10)

abbrev requests : List Request
requests = pay 7 "o1" ∷ call_back "pay_1" "ref" "s/pay_1" ∷ give_back 7 "o1" "broken" ∷ []

serve_all-IsSound_example :
    IsSound
      (serve_all sent orders ticks numbers keyed "s" requests
        (record { repository = new_memory_repository (some 0); outside = 0 })).repository
serve_all-IsSound_example =
    serve_all-IsSound sent orders ticks numbers keyed "s" requests (some 0) 0

callback-Pays_example :
    let after =
      (callback sent orders ticks numbers keyed "s" "pay_1" " ref" "s/pay_1"
        waiting_world).1.repository.payments in
    (after ≡ waiting_world.repository.payments)
    ⊎ ((trim_space "s/pay_1" ≡ keyed "s" (trim_space "pay_1"))
        × Pays (trim_space "pay_1") (trim_space " ref") waiting_world.repository.payments after)
callback-Pays_example =
    callback-Pays sent orders ticks numbers keyed "s" "pay_1" " ref" "s/pay_1" waiting_world

-- A forged callback is refused.
forged :
    (callback sent orders ticks numbers keyed "s" "pay_1" "ref" "x/pay_1" waiting_world).0
    ≡ err unauthorized
unfolding callback callback_trimmed sign trim_space
forged = refl

callback_retried_example :
    let after =
      (callback sent orders ticks numbers keyed "s" "pay_1" " ref" "s/pay_1" waiting_world).1 in
    let paid =
      succeeded_payment waiting_payment (trim_space " ref") (ticks waiting_world.outside) in
    (lookup (trim_space "pay_1") after.repository.payments ≡ some paid)
    × ((v : World ℕ ℕ)
        → v.repository ≡ after.repository
        → callback sent orders ticks numbers keyed "s" "pay_1" " ref" "s/pay_1" v
          ≡ map_answer
              (λ transition. (paid, transition, true))
              (remote (
                orders.confirm_payment paid.user_id paid.order_id paid.payment_no
                  paid.callback_ref))
              v)
unfolding trim_space lookup is_taken publish
callback_retried_example =
    callback_retried sent orders ticks numbers keyed "s" "pay_1" " ref" "s/pay_1" waiting_payment
      waiting_world refl refl refl refl refl refl

abbrev given_back : Refund
given_back = new_refund "ref_1" 7 "o1" "broken" (succeeded_payment waiting_payment "ref" 10) 13

refund_gives_back_example :
    let v = (refund sent orders ticks numbers keyed "s" 7 "o1" " broken" paid_world).1 in
    (p : Payment) × IsPaidBy "o1" p paid_world.repository
    × Refunds 7 "o1" p paid_world.repository (given_back, false) v.repository
unfolding refund refund_trimmed refund_found refund_order refund_payment new_refund lookup
    trim_space find_refund_by_order find_succeeded_payment create_refund refund_new publish
refund_gives_back_example =
    refund_gives_back sent orders ticks numbers keyed "s" 7 "o1" " broken" paid_world refl
      (given_back, record { order_id = "o1"; status = "paid"; reused = false }, false) refl
