-- ===== src/Payment/Service.antt =====
-- services/payment/internal/app/service.go and the interface of order_client.go. The order client, the
-- clock and the source of random identifiers are outside: a state of type I, which every call of
-- them may change, and from which the time is read. A signature is the keyed hash `hmac` of a
-- payment's number.
use seckill_mall.Base.{
  ℕ, ◌==◌, String, len, byte_len, Bool, true, ◌||◌, not, Option, none, some, ℤ, ltb, str_eq,
  if◌then◌else◌, trim_space, Result, ok, err, Action, pure, fail_if, gets, ◌>>=◌, ◌>>◌,
}
use seckill_mall.Contracts.Events.{EventEnvelope}
use seckill_mall.Payment.Model.{
  Payment, Refund, pending, succeeded, Error, invalid_request, unauthorized, not_found, conflict,
  invalid_transition, is_succeeded,
}
use seckill_mall.Payment.Repository.{
  Repository, create, get, find_succeeded_payment, find_refund_by_order, mark_succeeded,
  create_refund,
}

pub record OrderSummary : Type 0 where
  pub order_id : String
  pub user_id : ℕ
  pub status : String
  pub total_amount_cents : ℤ

pub record OrderTransition : Type 0 where
  pub order_id : String
  pub status : String
  pub reused : Bool

pub record OrderClient (I : Type 0) : Type 0 where
  pub get : ℕ → String → Action I Error OrderSummary
  pub confirm_payment : ℕ → String → String → String → Action I Error OrderTransition
  pub refund : ℕ → String → String → String → Action I Error OrderTransition

pub record World (S I : Type 0) : Type 0 where
  pub repository : Repository S
  pub outside : I

module _ {S I : Type 0} where
  abbrev pub stored :
      {A : Type 0}
      → (Repository S → Result Error A × Repository S)
      → World S I
      → Result Error A × World S I
  stored m w = let (r, s) = m w.repository in (r, record w { repository = s })

  abbrev pub remote :
      {A : Type 0} → (I → Result Error A × I) → World S I → Result Error A × World S I
  remote m w = let (r, i) = m w.outside in (r, record w { outside = i })

-- NewService tests the length of the trimmed secret and keeps the secret as it is.
unfoldable pub new_service : String → Result String String
new_service secret =
    if ltb (byte_len (trim_space secret)) 32
    then err "payment secret length must be at least 32"
    else ok secret

-- sign
unfoldable pub sign : (String → String → String) → String → String → String
sign hmac secret payment_no = hmac secret payment_no

abbrev pub pending_text : String
pending_text = "pending_payment"

-- The payment of Create for an order.
unfoldable pub new_payment : String → ℕ → OrderSummary → ℕ → Payment
new_payment payment_no user_id order now = record {
  payment_no = payment_no;
  order_id = order.order_id;
  provider = "mock";
  status = pending;
  callback_ref = "";
  user_id = user_id;
  amount_cents = order.total_amount_cents;
  paid_at = 0;
  created_at = now;
  updated_at = now;
}

-- The refund of Refund for a payment.
unfoldable pub new_refund : String → ℕ → String → String → Payment → ℕ → Refund
new_refund refund_no user_id order_id reason payment now = record {
  refund_no = refund_no;
  order_id = order_id;
  payment_no = payment.payment_no;
  reason = reason;
  status = succeeded;
  user_id = user_id;
  amount_cents = payment.amount_cents;
  created_at = now;
  completed_at = now;
}

module _ {S I : Type 0} (append : EventEnvelope → Action S Error (Unit {0}))
    (client : OrderClient I) (clock : I → ℕ) (new_id : String → Action I Error String)
    (hmac : String → String → String) (secret : String) where
  -- Create, after its tests of the request and of the order
  unfoldable pub create_for : ℕ → OrderSummary → Action (World S I) Error (Payment × String × Bool)
  create_for user_id order = do
    payment_no ← remote (new_id "pay")
    now ← gets (λ w. clock w.outside)
    made ← stored (create (new_payment payment_no user_id order now))
    pure (made.0, sign hmac secret made.0.payment_no, made.1)

  -- Create
  unfoldable pub create_payment : ℕ → String → Action (World S I) Error (Payment × String × Bool)
  create_payment user_id order_id = do
    fail_if (user_id == 0 || str_eq (trim_space order_id) "") invalid_request
    order ← remote (client.get user_id order_id)
    fail_if (not (order.user_id == user_id) || not (str_eq order.status pending_text))
        invalid_transition
    create_for user_id order

  -- Callback, for a payment that succeeded before
  unfoldable pub callback_again :
      Payment → String → Action (World S I) Error (Payment × OrderTransition × Bool)
  callback_again payment callback_ref = do
    fail_if (not (str_eq payment.callback_ref callback_ref)) conflict
    transition ←
        remote
          (client.confirm_payment payment.user_id payment.order_id payment.payment_no callback_ref)
    pure (payment, transition, true)

  -- Callback, for one that did not
  unfoldable pub callback_first :
      String → Payment → String → Action (World S I) Error (Payment × OrderTransition × Bool)
  callback_first payment_no payment callback_ref = do
    now ← gets (λ w. clock w.outside)
    updated ← stored (mark_succeeded append payment_no callback_ref now)
    transition ←
        remote
          (client.confirm_payment payment.user_id payment.order_id payment.payment_no callback_ref)
    pure (updated.0, transition, updated.1)

  unfoldable pub callback_for :
      String → Payment → String → Action (World S I) Error (Payment × OrderTransition × Bool)
  callback_for payment_no payment callback_ref w =
      if is_succeeded payment.status
      then callback_again payment callback_ref w
      else callback_first payment_no payment callback_ref w

  -- Callback, on trimmed arguments
  unfoldable pub callback_trimmed :
      String → String → String → Action (World S I) Error (Payment × OrderTransition × Bool)
  callback_trimmed payment_no callback_ref signature = do
    fail_if (str_eq payment_no "" || str_eq callback_ref "") invalid_request
    fail_if (not (str_eq signature (sign hmac secret payment_no))) unauthorized
    payment ← stored (get payment_no)
    callback_for payment_no payment callback_ref

  -- Callback
  unfoldable pub callback :
      String → String → String → Action (World S I) Error (Payment × OrderTransition × Bool)
  callback payment_no callback_ref signature =
      callback_trimmed (trim_space payment_no) (trim_space callback_ref) (trim_space signature)

  -- Refund, for a payment of the order
  unfoldable pub refund_payment :
      ℕ → String → String → Payment → Action (World S I) Error (Refund × OrderTransition × Bool)
  refund_payment user_id order_id reason payment = do
    refund_no ← remote (new_id "ref")
    transition ← remote (client.refund user_id order_id refund_no reason)
    now ← gets (λ w. clock w.outside)
    made ← stored (create_refund append (new_refund refund_no user_id order_id reason payment now))
    pure (made.0, transition, made.1)

  -- Refund, for an order without a refund
  unfoldable pub refund_order :
      ℕ → String → String → Action (World S I) Error (Refund × OrderTransition × Bool)
  refund_order user_id order_id reason =
      stored (find_succeeded_payment order_id) >>= refund_payment user_id order_id reason

  unfoldable pub refund_found :
      ℕ
      → String
      → String
      → Option Refund
      → Action (World S I) Error (Refund × OrderTransition × Bool)
  refund_found user_id order_id reason (some existing) =
      pure (existing, record { order_id = order_id; status = "refunded"; reused = true }, true)
  refund_found user_id order_id reason none = refund_order user_id order_id reason

  -- Refund, on a trimmed reason
  unfoldable pub refund_trimmed :
      ℕ → String → String → Action (World S I) Error (Refund × OrderTransition × Bool)
  refund_trimmed user_id order_id reason = do
    fail_if (user_id == 0 || (str_eq order_id "" || (str_eq reason "" || ltb 255 (len reason))))
        invalid_request
    order ← remote (client.get user_id order_id)
    fail_if (not (order.user_id == user_id)) not_found
    existing ← stored (find_refund_by_order user_id order_id)
    refund_found user_id order_id reason existing

  -- Refund
  unfoldable pub refund :
      ℕ → String → String → Action (World S I) Error (Refund × OrderTransition × Bool)
  refund user_id order_id reason = refund_trimmed user_id order_id (trim_space reason)
