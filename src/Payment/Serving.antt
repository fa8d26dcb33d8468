-- ===== src/Payment/Serving.antt =====
-- services/payment/internal/app/service.go: histories of requests, and the payments and refunds
-- after them.
use seckill_mall.Base.{
  ℕ, String, ◌≡◌, refl, Bool, true, arith, sym, subst, Option, none, some, List, [], ◌∷◌, Result,
  Action, fail_if, pure, ◌>>=◌, ◌>>◌, Keeps, then-Keeps, test-Keeps, not, ◌||◌, ◌==◌, str_eq, ltb,
  len, trim_space, Bool-cases, inl, inr,
}
use seckill_mall.Contracts.Events.{EventEnvelope}
use seckill_mall.Payment.Model.{
  Payment, Refund, Error, is_succeeded, invalid_request, unauthorized, not_found, conflict,
  invalid_transition,
}
use seckill_mall.Payment.Repository.{
  Repository, new_memory_repository, create, get, find_succeeded_payment, find_refund_by_order,
  mark_succeeded, create_refund,
}
use seckill_mall.Payment.Service.{
  World, OrderClient, OrderSummary, OrderTransition, stored, remote, new_payment, new_refund, sign,
  pending_text, create_for, create_payment, callback_again, callback_first, callback_for,
  callback_trimmed, callback, refund_payment, refund_order, refund_found, refund_trimmed, refund,
}
use seckill_mall.Payment.Requests.{Request, pay, call_back, give_back, serve, serve_all}
use seckill_mall.Payment.Keeping.{
  IsSound, new_memory_repository-IsSound, create-IsSound, mark_succeeded-IsSound,
  create_refund-IsSound,
}

-- The reads of the repository leave it as it is.
get_same : {S : Type 0} (number : String) (r : Repository S) → (get number r).1 ≡ r
unfolding get
get_same number r = ground arith

find_succeeded_payment_same :
    {S : Type 0} (order_id : String) (r : Repository S) → (find_succeeded_payment order_id r).1 ≡ r
unfolding find_succeeded_payment
find_succeeded_payment_same order_id r = ground arith

find_refund_by_order_same :
    {S : Type 0} (user_id : ℕ) (order_id : String) (r : Repository S)
    → (find_refund_by_order user_id order_id r).1 ≡ r
unfolding find_refund_by_order
find_refund_by_order_same user_id order_id r = ground arith

module _ {S I : Type 0} where
  abbrev IsKept : World S I → Type 0
  IsKept w = IsSound w.repository

  -- A write that keeps the repository, and an answer made of its result.
  write_Keeps :
      {A B : Type 0} (m : Repository S → Result Error A × Repository S) (f : A → B)
      → ((r : Repository S) → IsSound r → IsSound (m r).1)
      → Keeps IsKept (stored m >>= λ a. pure (f a))
  write_Keeps m f keep =
      then-Keeps IsKept (stored m) (λ a. pure (f a)) (λ w s. keep w.repository s) (λ a w s. s)

  -- A read of the repository.
  read_Keeps :
      {A : Type 0} (m : Repository S → Result Error A × Repository S)
      → ((r : Repository S) → (m r).1 ≡ r)
      → Keeps IsKept (stored m)
  read_Keeps m same w s = subst IsSound (sym (same w.repository)) s

module _ {S I : Type 0} (append : EventEnvelope → Action S Error (Unit {0}))
    (client : OrderClient I) (clock : I → ℕ) (new_id : String → Action I Error String)
    (hmac : String → String → String) (secret : String) where
  create_for-Keeps :
      (user_id : ℕ) (order : OrderSummary)
      → Keeps IsKept (create_for append client clock new_id hmac secret user_id order)
  unfolding create_for new_payment
  create_for-Keeps user_id order =
      let answer : Payment × Bool → Payment × String × Bool =
        λ made. (made.0, sign hmac secret made.0.payment_no, made.1) in
      then-Keeps IsKept (remote (new_id "pay"))
        (λ payment_no w.
          (stored (create (new_payment payment_no user_id order (clock w.outside))) >>= λ made.
          pure (answer made))
            w)
        (λ w s. s)
        (λ payment_no w.
          write_Keeps (create (new_payment payment_no user_id order (clock w.outside))) answer
            (λ r. create-IsSound (new_payment payment_no user_id order (clock w.outside)) r refl) w)

  create_payment-Keeps :
      (user_id : ℕ) (order_id : String)
      → Keeps IsKept (create_payment append client clock new_id hmac secret user_id order_id)
  unfolding create_payment
  create_payment-Keeps user_id order_id =
      let wrong = λ (order : OrderSummary).
        not (order.user_id == user_id) || not (str_eq order.status pending_text) in
      let made = create_for append client clock new_id hmac secret user_id in
      let bad = user_id == 0 || str_eq (trim_space order_id) "" in
      then-Keeps IsKept (fail_if bad invalid_request)
        (λ _. remote (client.get user_id order_id) >>= λ order.
          fail_if (wrong order) invalid_transition >> made order)
        (test-Keeps IsKept bad invalid_request)
        (λ _.
          then-Keeps IsKept (remote (client.get user_id order_id))
            (λ order. fail_if (wrong order) invalid_transition >> made order) (λ w s. s)
            (λ order.
              then-Keeps IsKept (fail_if (wrong order) invalid_transition) (λ _. made order)
                (test-Keeps IsKept (wrong order) invalid_transition)
                (λ _. create_for-Keeps user_id order)))

  callback_again-Keeps :
      (payment : Payment) (callback_ref : String)
      → Keeps IsKept (callback_again append client clock new_id hmac secret payment callback_ref)
  unfolding callback_again
  callback_again-Keeps payment callback_ref =
      let other = not (str_eq payment.callback_ref callback_ref) in
      let confirm =
        client.confirm_payment payment.user_id payment.order_id payment.payment_no callback_ref in
      let rest = λ (transition : OrderTransition). pure (payment, transition, true) in
      then-Keeps IsKept (fail_if other conflict) (λ _. remote confirm >>= rest)
        (test-Keeps IsKept other conflict)
        (λ _. then-Keeps IsKept (remote confirm) rest (λ w s. s) (λ _ w s. s))

  callback_first-Keeps :
      (payment_no : String) (payment : Payment) (callback_ref : String)
      → Keeps IsKept
          (callback_first append client clock new_id hmac secret payment_no payment callback_ref)
  unfolding callback_first
  callback_first-Keeps payment_no payment callback_ref w s =
      let confirm =
        client.confirm_payment payment.user_id payment.order_id payment.payment_no callback_ref in
      let rest = λ (updated : Payment × Bool) (transition : OrderTransition).
        pure (updated.0, transition, updated.1) in
      let mark = mark_succeeded append payment_no callback_ref (clock w.outside) in
      then-Keeps IsKept (stored mark) (λ updated. remote confirm >>= rest updated)
        (λ v t.
          mark_succeeded-IsSound append payment_no callback_ref (clock w.outside) v.repository t)
        (λ updated. then-Keeps IsKept (remote confirm) (rest updated) (λ w s. s) (λ _ w s. s)) w s

  callback_for-Keeps :
      (payment_no : String) (payment : Payment) (callback_ref : String)
      → Keeps IsKept
          (callback_for append client clock new_id hmac secret payment_no payment callback_ref)
  unfolding callback_for
  callback_for-Keeps payment_no payment callback_ref w s =
      elim (Bool-cases (is_succeeded payment.status)) [
        | inl done ↦ rw done (callback_again-Keeps payment callback_ref w s)
        | inr new ↦ rw new (callback_first-Keeps payment_no payment callback_ref w s)
      ]

  callback_trimmed-Keeps :
      (payment_no callback_ref signature : String)
      → Keeps IsKept (
          callback_trimmed append client clock new_id hmac secret payment_no callback_ref signature)
  unfolding callback_trimmed
  callback_trimmed-Keeps payment_no callback_ref signature =
      let bad = str_eq payment_no "" || str_eq callback_ref "" in
      let forged = not (str_eq signature (sign hmac secret payment_no)) in
      let found = λ (payment : Payment).
        callback_for append client clock new_id hmac secret payment_no payment callback_ref in
      then-Keeps IsKept (fail_if bad invalid_request)
        (λ _. fail_if forged unauthorized >> (stored (get payment_no) >>= found))
        (test-Keeps IsKept bad invalid_request)
        (λ _.
          then-Keeps IsKept (fail_if forged unauthorized) (λ _. stored (get payment_no) >>= found)
            (test-Keeps IsKept forged unauthorized)
            (λ _.
              then-Keeps IsKept (stored (get payment_no)) found
                (read_Keeps (get payment_no) (get_same payment_no))
                (λ payment. callback_for-Keeps payment_no payment callback_ref)))

  refund_order-Keeps :
      (user_id : ℕ) (order_id reason : String)
      → Keeps IsKept (refund_order append client clock new_id hmac secret user_id order_id reason)
  unfolding refund_order refund_payment
  refund_order-Keeps user_id order_id reason =
      let ask = λ (refund_no : String). client.refund user_id order_id refund_no reason in
      let answer : OrderTransition → Refund × Bool → Refund × OrderTransition × Bool =
        λ transition made. (made.0, transition, made.1) in
      let make = λ (payment : Payment) (refund_no : String) (now : ℕ).
        create_refund append (new_refund refund_no user_id order_id reason payment now) in
      let write =
        λ (payment : Payment) (refund_no : String) (transition : OrderTransition) (w : World S I).
          (stored (make payment refund_no (clock w.outside)) >>= λ made.
          pure (answer transition made))
            w in
      then-Keeps IsKept (stored (find_succeeded_payment order_id))
        (λ payment.
          remote (new_id "ref") >>= λ refund_no. remote (ask refund_no) >>= write payment refund_no)
        (read_Keeps (find_succeeded_payment order_id) (find_succeeded_payment_same order_id))
        (λ payment.
          then-Keeps IsKept (remote (new_id "ref"))
            (λ refund_no. remote (ask refund_no) >>= write payment refund_no) (λ w s. s)
            (λ refund_no.
              then-Keeps IsKept (remote (ask refund_no)) (write payment refund_no) (λ w s. s)
                (λ transition w.
                  write_Keeps (make payment refund_no (clock w.outside)) (answer transition)
                    (create_refund-IsSound append
                      (new_refund refund_no user_id order_id reason payment (clock w.outside)))
                    w)))

  refund_found-Keeps :
      (user_id : ℕ) (order_id reason : String) (existing : Option Refund)
      → Keeps IsKept
          (refund_found append client clock new_id hmac secret user_id order_id reason existing)
  unfolding refund_found
  refund_found-Keeps user_id order_id reason (some existing) w s = s
  refund_found-Keeps user_id order_id reason none w s =
      refund_order-Keeps user_id order_id reason w s

  refund_trimmed-Keeps :
      (user_id : ℕ) (order_id reason : String)
      → Keeps IsKept (refund_trimmed append client clock new_id hmac secret user_id order_id reason)
  unfolding refund_trimmed
  refund_trimmed-Keeps user_id order_id reason =
      let bad =
        user_id == 0 || (str_eq order_id "" || (str_eq reason "" || ltb 255 (len reason))) in
      let other = λ (order : OrderSummary). not (order.user_id == user_id) in
      let find = find_refund_by_order user_id order_id in
      let rest = refund_found append client clock new_id hmac secret user_id order_id reason in
      then-Keeps IsKept (fail_if bad invalid_request)
        (λ _. remote (client.get user_id order_id) >>= λ order.
          fail_if (other order) not_found >> (stored find >>= rest))
        (test-Keeps IsKept bad invalid_request)
        (λ _.
          then-Keeps IsKept (remote (client.get user_id order_id))
            (λ order. fail_if (other order) not_found >> (stored find >>= rest)) (λ w s. s)
            (λ order.
              then-Keeps IsKept (fail_if (other order) not_found) (λ _. stored find >>= rest)
                (test-Keeps IsKept (other order) not_found)
                (λ _.
                  then-Keeps IsKept (stored find) rest
                    (read_Keeps find (find_refund_by_order_same user_id order_id))
                    (refund_found-Keeps user_id order_id reason))))

  serve-IsSound :
      (request : Request) (w : World S I)
      → IsSound w.repository
      → IsSound (serve append client clock new_id hmac secret request w).repository
  unfolding serve callback refund
  serve-IsSound (pay user_id order_id) = create_payment-Keeps user_id order_id
  serve-IsSound (call_back payment_no callback_ref signature) =
      callback_trimmed-Keeps (trim_space payment_no) (trim_space callback_ref)
        (trim_space signature)
  serve-IsSound (give_back user_id order_id reason) =
      refund_trimmed-Keeps user_id order_id (trim_space reason)

  serve_all-IsKept :
      (requests : List Request) (w : World S I)
      → IsSound w.repository
      → IsSound (serve_all append client clock new_id hmac secret requests w).repository
  unfolding serve_all
  serve_all-IsKept [] w s = s
  serve_all-IsKept (request ∷ rest) w s =
      serve_all-IsKept rest (serve append client clock new_id hmac secret request w)
        (serve-IsSound request w s)

  -- Whatever requests a new payment service answers, and whatever its order client, its source of
  -- identifiers and its event sink do: every payment stands under its number, no order has two
  -- payments, no callback reference pays two payments, and no order has two refunds.
  pub serve_all-IsSound :
      (requests : List Request) (sink : Option S) (outside : I)
      → IsSound
          (serve_all append client clock new_id hmac secret requests
            (record { repository = new_memory_repository sink; outside = outside })).repository
  serve_all-IsSound requests sink outside =
      serve_all-IsKept requests
        (record { repository = new_memory_repository sink; outside = outside })
        (new_memory_repository-IsSound sink)
