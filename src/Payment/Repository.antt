-- ===== src/Payment/Repository.antt =====
-- services/payment/internal/app/memory_repository.go. Each method holds the mutex from its first read
-- to its last write. The event sink is a state of type S and its `append`; `none` is a sink that was
-- not set.
use seckill_mall.Base.{
  ℕ, String, ◌<>◌, Bool, true, false, not, Option, none, some, [], pos, ◌==◌, str_eq, if◌then◌else◌,
  Result, ok, err, Action, ◌>>◌, Table, lookup, insert,
}
use seckill_mall.Contracts.Events.{
  EventEnvelope, new_event_envelope, payment_succeeded, payment_refunded,
}
use seckill_mall.Contracts.Payloads.{payment_succeeded_json, payment_refunded_json}
use seckill_mall.Payment.Model.{
  Payment, Refund, succeeded, Error, not_found, conflict, invalid_transition, failed, is_succeeded,
  zero_payment, zero_refund,
}

pub record Repository (S : Type 0) : Type 0 where
  pub payments : Table Payment
  pub payment_by_order : Table String
  pub callbacks : Table String
  pub refunds : Table Refund
  pub refund_by_order : Table String
  pub sink : Option S

-- An index of a map: the zero value where the key is missing.
abbrev pub payment_at : String → Table Payment → Payment
payment_at number m = elim (lookup number m) [ none ↦ zero_payment | some p ↦ p ]

abbrev pub refund_at : String → Table Refund → Refund
refund_at number m = elim (lookup number m) [ none ↦ zero_refund | some r ↦ r ]

-- paymentSucceededEvent
unfoldable pub payment_succeeded_event : Payment → String → ℕ → Result String EventEnvelope
payment_succeeded_event value callback_ref now =
    new_event_envelope ("payment.succeeded:" <> value.payment_no) payment_succeeded "order"
      value.order_id (pos 1)
      (payment_succeeded_json (record {
        payment_no = value.payment_no;
        order_id = value.order_id;
        user_id = value.user_id;
        amount_cents = value.amount_cents;
        callback_ref = callback_ref;
      }))
      now

-- The event of CreateRefund.
unfoldable pub payment_refunded_event : Refund → Result String EventEnvelope
payment_refunded_event value =
    new_event_envelope ("payment.refunded:" <> value.refund_no) payment_refunded "order"
      value.order_id (pos 1)
      (payment_refunded_json (record {
        refund_no = value.refund_no;
        payment_no = value.payment_no;
        order_id = value.order_id;
        user_id = value.user_id;
        amount_cents = value.amount_cents;
        reason = value.reason;
      }))
      value.created_at

abbrev pub succeeded_payment : Payment → String → ℕ → Payment
succeeded_payment value callback_ref now = record value {
  status = succeeded;
  callback_ref = callback_ref;
  paid_at = now;
  updated_at = now;
}

module _ {S : Type 0} where
  -- NewMemoryRepository and SetEventSink
  unfoldable pub new_memory_repository : Option S → Repository S
  new_memory_repository sink = record {
    payments = [];
    payment_by_order = [];
    callbacks = [];
    refunds = [];
    refund_by_order = [];
    sink = sink;
  }

  -- Create
  unfoldable pub create : Payment → Action (Repository S) Error (Payment × Bool)
  create value r = elim (lookup value.order_id r.payment_by_order) [
    | some number ↦ (ok (payment_at number r.payments, true), r)
    | none ↦ (
      ok (value, false),
      record r {
        payments = insert value.payment_no value r.payments;
        payment_by_order = insert value.order_id value.payment_no r.payment_by_order;
      },
    )
  ]

  -- Get
  unfoldable pub get : String → Action (Repository S) Error Payment
  get payment_no r = elim (lookup payment_no r.payments) [
    | none ↦ (err not_found, r)
    | some value ↦ (ok value, r)
  ]

  -- FindSucceededPayment
  unfoldable pub find_succeeded_payment : String → Action (Repository S) Error Payment
  find_succeeded_payment order_id r = elim (lookup order_id r.payment_by_order) [
    | none ↦ (err invalid_transition, r)
    | some number ↦
        if is_succeeded (payment_at number r.payments).status
        then (ok (payment_at number r.payments), r)
        else (err invalid_transition, r)
  ]

  -- FindRefundByOrder
  unfoldable pub find_refund_by_order : ℕ → String → Action (Repository S) Error (Option Refund)
  find_refund_by_order user_id order_id r = elim (lookup order_id r.refund_by_order) [
    | none ↦ (ok none, r)
    | some number ↦
        if not ((refund_at number r.refunds).user_id == user_id)
        then (err not_found, r)
        else (ok (some (refund_at number r.refunds)), r)
  ]

module _ {S : Type 0} where
  -- The writes of MarkSucceeded.
  abbrev pub put_succeeded :
      String → Payment → String → ℕ → Action (Repository S) Error (Payment × Bool)
  put_succeeded payment_no value callback_ref now r = (
    ok (succeeded_payment value callback_ref now, false),
    record r {
      payments = insert payment_no (succeeded_payment value callback_ref now) r.payments;
      callbacks = insert callback_ref payment_no r.callbacks;
    },
  )

  -- The writes of CreateRefund.
  abbrev pub put_refund : Refund → Action (Repository S) Error (Refund × Bool)
  put_refund value r = (
    ok (value, false),
    record r {
      refunds = insert value.refund_no value r.refunds;
      refund_by_order = insert value.order_id value.refund_no r.refund_by_order;
    },
  )

-- Whether a callback reference is used by another payment.
unfoldable pub is_taken : String → Option String → Bool
is_taken payment_no none = false
is_taken payment_no (some owner) = not (str_eq owner payment_no)

module _ {S : Type 0} (append : EventEnvelope → Action S Error (Unit {0})) where
  -- An event is built and appended where a sink is set.
  unfoldable pub publish :
      Result String EventEnvelope → Repository S → Result Error (Unit {0}) × Repository S
  publish event r = elim r.sink [
    | none ↦ (ok tt, r)
    | some s ↦ elim event [
      | err reason ↦ (err (failed reason), r)
      | ok e ↦ let (result, s') = append e s in (result, record r { sink = some s' })
    ]
  ]

  -- MarkSucceeded, after its tests
  unfoldable pub succeed_at :
      String → Payment → String → ℕ → Action (Repository S) Error (Payment × Bool)
  succeed_at payment_no value callback_ref now =
      publish (payment_succeeded_event value callback_ref now)
      >> put_succeeded payment_no value callback_ref now

  -- MarkSucceeded
  unfoldable pub mark_succeeded : String → String → ℕ → Action (Repository S) Error (Payment × Bool)
  mark_succeeded payment_no callback_ref now r = elim (lookup payment_no r.payments) [
    | none ↦ (err not_found, r)
    | some value ↦
        if is_taken payment_no (lookup callback_ref r.callbacks)
        then (err conflict, r)
        else if is_succeeded value.status
        then (if not (str_eq value.callback_ref callback_ref)
            then (err conflict, r)
            else (ok (value, true), r))
        else succeed_at payment_no value callback_ref now r
  ]

  -- CreateRefund, for an order without a refund
  unfoldable pub refund_new : Refund → Action (Repository S) Error (Refund × Bool)
  refund_new value = publish (payment_refunded_event value) >> put_refund value

  -- CreateRefund
  unfoldable pub create_refund : Refund → Action (Repository S) Error (Refund × Bool)
  create_refund value r = elim (lookup value.order_id r.refund_by_order) [
    | some number ↦ (ok (refund_at number r.refunds, true), r)
    | none ↦ refund_new value r
  ]
