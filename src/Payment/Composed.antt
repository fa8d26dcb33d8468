-- ===== src/Payment/Composed.antt =====
-- services/payment and services/order together: a callback, and the order that it pays.
use seckill_mall.Base.{
  ℕ, String, ◌≡◌, refl, sym, ◌∙◌, subst, Bool, false, some, [], Option, Result, ok, Action, pure,
  ◌>>=◌, ok_bind, ◌||◌, str_eq, trim_space, Result-cases, inl, inr, eq_iff, lookup,
}
use seckill_mall.Contracts.Events.{EventEnvelope}
use seckill_mall.Platform.Grpc.{GrpcError}
use seckill_mall.Platform.InternalCall.{Metadata, append_user, authorize_user}
use seckill_mall.Platform.Serving.{guarded, answered}
use seckill_mall.Order.Model.{
  Error as OrderError, Order, pending_payment as order_pending, paid, confirm,
}
use seckill_mall.Order.World.{World as OrderWorld, InventoryClient, call_of}
use seckill_mall.Order.Lifecycle.{confirm_payment}
use seckill_mall.Order.Effects.{All, confirm_payment-confirms}
use seckill_mall.Order.Server.{TransitionAnswer, confirm_method, serve_confirm}
use seckill_mall.Payment.Model.{Payment, Error, is_succeeded}
use seckill_mall.Payment.Repository.{mark_succeeded}
use seckill_mall.Payment.Service.{
  World, OrderClient, OrderTransition, stored, remote, callback_first, callback,
}
use seckill_mall.Payment.OrderCalls.{confirm_call, connected, transition_of}
use seckill_mall.Payment.Callbacks.{callback_found}
use seckill_mall.Payment.Retries.{callback_waiting}

module _ {S I : Type 0} (append : EventEnvelope → Action S OrderError (Unit {0}))
    (inventory : InventoryClient I) (clock : I → ℕ) (hmac : String → String → String)
    (secret : String) where
  -- A confirmation that the server answers is one that the service made.
  serve_confirm_parts :
      (md : Option Metadata) (now user_id : ℕ) (order_id payment_no callback_ref : String)
      (w : OrderWorld S I) (t : TransitionAnswer)
      → (serve_confirm append inventory clock hmac secret md now user_id order_id payment_no
          callback_ref w).0
        ≡ ok t
      → let made =
          confirm_payment append inventory clock user_id order_id payment_no callback_ref w in
        (x : Order × Bool) × (made.0 ≡ ok x)
        × ((serve_confirm append inventory clock hmac secret md now user_id order_id payment_no
              callback_ref w).1
            ≡ made.1)
  unfolding serve_confirm guarded answered
  serve_confirm_parts md now user_id order_id payment_no callback_ref w t =
      elim (Result-cases (authorize_user hmac md (trim_space secret) confirm_method user_id now)) [
        | inr (_, forged) ↦ rw (forged, guarded) (λ h. absurd (cc h))
        | inl (_, known) ↦
            elim (Result-cases
              (confirm_payment append inventory clock user_id order_id payment_no callback_ref
                w).0) [
                  | inr (_, bad) ↦ rw (known, guarded, bad) (λ h. absurd (cc h))
                  | inl (x, good) ↦ rw (known, guarded, good) (λ h. (x, refl, refl))
                ]
      ]

  module _ (later : ℕ → ℕ) (text : GrpcError → String) where
    confirm_call_parts :
        (user_id : ℕ) (order_id payment_no callback_ref : String) (w : OrderWorld S I)
        (t : OrderTransition)
        → (confirm_call append inventory clock later hmac secret text user_id order_id payment_no
            callback_ref w).0
          ≡ ok t
        → let made =
            confirm_payment append inventory clock user_id order_id payment_no callback_ref w in
          (x : Order × Bool) × (made.0 ≡ ok x)
          × ((confirm_call append inventory clock later hmac secret text user_id order_id payment_no
                callback_ref w).1
              ≡ made.1)
    unfolding confirm_call transition_of
    confirm_call_parts user_id order_id payment_no callback_ref w t =
        let sent = clock w.outside in
        let md = some (append_user hmac secret confirm_method user_id sent []) in
        elim (Result-cases
          (serve_confirm append inventory clock hmac secret md (later sent) user_id order_id
            payment_no callback_ref w).0) [
              | inr (_, bad) ↦ rw (bad, transition_of) (λ h. absurd (cc h))
              | inl (a, good) ↦ λ _.
                  serve_confirm_parts md (later sent) user_id order_id payment_no callback_ref w a
                    good
            ]

-- The order of this id is paid, and every reservation of its items has the property of a confirmed one.
abbrev pub IsPaidOrder :
    {S I : Type 0} → (I → String → Type 0) → String → Order → OrderWorld S I → Type 0
IsPaidOrder Q order_id value w =
    (o : Order) × All (Q w.outside) value.items
    × (o.status ≡ paid)
    × (lookup order_id w.repository.orders ≡ some o)

module _ {R S I : Type 0} (sink : EventEnvelope → Action R Error (Unit {0}))
    (append : EventEnvelope → Action S OrderError (Unit {0})) (inventory : InventoryClient I)
    (clock : I → ℕ) (later : ℕ → ℕ) (hmac : String → String → String) (secret key : String)
    (text : GrpcError → String) (calls : OrderClient (OrderWorld S I)) (time : OrderWorld S I → ℕ)
    (new_id : String → Action (OrderWorld S I) Error String) (Q : I → String → Type 0) where
  callback_first-IsPaidOrder :
      ((id order_id : String) (i : I)
        → (call_of inventory confirm id order_id i).0 ≡ ok tt
        → Q (call_of inventory confirm id order_id i).1 id)
      → ((id other order_id : String) (i : I)
          → Q i id
          → Q (call_of inventory confirm other order_id i).1 id)
      → (number callback_ref : String) (value : Payment) (w : World R (OrderWorld S I))
        (order : Order)
      → lookup (trim_space value.order_id) w.outside.repository.orders ≡ some order
      → order.order_id ≡ trim_space value.order_id
      → order.status ≡ order_pending
      → (b : Payment × OrderTransition × Bool)
      → (callback_first sink
          (connected append inventory clock later hmac secret text calls)
          time
          new_id
          hmac
          key
          number
          value
          callback_ref
          w).0
        ≡ ok b
      → IsPaidOrder Q
          (trim_space value.order_id)
          order
          (callback_first sink
            (connected append inventory clock later hmac secret text calls)
            time
            new_id
            hmac
            key
            number
            value
            callback_ref
            w).1.outside
  unfolding callback_first
  callback_first-IsPaidOrder done stays number callback_ref value w order found own waiting =
      let Paid : Payment × OrderTransition × Bool → World R (OrderWorld S I) → Type 0 =
        λ _ v. IsPaidOrder Q (trim_space value.order_id) order v.outside in
      let call = remote {S = R} (
        (connected append inventory clock later hmac secret text calls).confirm_payment
          value.user_id value.order_id value.payment_no callback_ref) in
      let rest = λ (updated : Payment × Bool) (transition : OrderTransition).
        pure (updated.0, transition, updated.1) in
      let mark =
        stored {I = OrderWorld S I} (mark_succeeded sink number callback_ref (time w.outside)) in
      ok_bind Paid mark (λ updated. call >>= rest updated) w
        (λ updated _. ok_bind Paid call (rest updated) (mark w).1 (λ transition answered b _.
          let (x, made, same) =
            confirm_call_parts append inventory clock hmac secret later text value.user_id
              value.order_id value.payment_no callback_ref w.outside transition answered in
          subst (IsPaidOrder Q (trim_space value.order_id) order) (sym same) (
            let (all, settled, stands) =
              confirm_payment-confirms append inventory clock Q done stays value.user_id
                value.order_id value.payment_no callback_ref w.outside order x.0 x.1 found own
                waiting made in
            (x.0, all, settled, stands))))

  -- A callback for a payment that waits, whose confirmation goes to the Order Service, in which the
  -- payment's order waits for it: if the callback is answered without an error, the order is paid, and
  -- every reservation of its items is confirmed, for any property that a successful confirmation
  -- establishes for its reservation and that no confirmation of another one takes away.
  pub callback-IsPaidOrder :
      ((id order_id : String) (i : I)
        → (call_of inventory confirm id order_id i).0 ≡ ok tt
        → Q (call_of inventory confirm id order_id i).1 id)
      → ((id other order_id : String) (i : I)
          → Q i id
          → Q (call_of inventory confirm other order_id i).1 id)
      → (payment_no callback_ref signature : String) (value : Payment)
        (w : World R (OrderWorld S I)) (order : Order)
      → (str_eq (trim_space payment_no) "" || str_eq (trim_space callback_ref) "") ≡ false
      → trim_space signature ≡ hmac key (trim_space payment_no)
      → lookup (trim_space payment_no) w.repository.payments ≡ some value
      → is_succeeded value.status ≡ false
      → lookup (trim_space value.order_id) w.outside.repository.orders ≡ some order
      → order.order_id ≡ trim_space value.order_id
      → order.status ≡ order_pending
      → (b : Payment × OrderTransition × Bool)
      → (callback sink
          (connected append inventory clock later hmac secret text calls)
          time
          new_id
          hmac
          key
          payment_no
          callback_ref
          signature
          w).0
        ≡ ok b
      → IsPaidOrder Q
          (trim_space value.order_id)
          order
          (callback sink
            (connected append inventory clock later hmac secret text calls)
            time
            new_id
            hmac
            key
            payment_no
            callback_ref
            signature
            w).1.outside
  unfolding callback
  callback-IsPaidOrder done stays payment_no callback_ref signature value w order good signed known
        new found own waiting =
      let number = trim_space payment_no in
      let ref = trim_space callback_ref in
      let sig = (eq_iff (trim_space signature) (hmac key number)).1 signed in
      subst
        (λ (x : Result Error (Payment × OrderTransition × Bool) × World R (OrderWorld S I)).
          (b : Payment × OrderTransition × Bool)
          → x.0 ≡ ok b
          → IsPaidOrder Q (trim_space value.order_id) order x.1.outside)
        (sym (
          callback_found sink (connected append inventory clock later hmac secret text calls) time
            new_id hmac key number ref (trim_space signature) value w good sig known
          ∙ callback_waiting sink (connected append inventory clock later hmac secret text calls)
              time new_id hmac key number ref value w new))
        (callback_first-IsPaidOrder done stays number ref value w order found own waiting)
