-- ===== src/Payment/Retries.antt =====
-- services/payment/internal/app/service.go: Callback, repeated after a failure of the order
-- service.
use seckill_mall.Base.{
  ℕ, String, ◌≡◌, refl, sym, ap, ◌∙◌, subst, Bool, true, false, some, Result, ok, Action, pure,
  ◌>>=◌, after_bind, bind_ok, map_answer, then_pure, ◌||◌, str_eq, trim_space, eq_iff, eq_refl,
  lookup, lookup-insert, if◌then◌else◌,
}
use seckill_mall.Contracts.Events.{EventEnvelope}
use seckill_mall.Payment.Model.{Payment, Error, is_succeeded}
use seckill_mall.Payment.Repository.{
  Repository, is_taken, mark_succeeded, succeed_at, put_succeeded, publish, payment_succeeded_event,
  succeeded_payment,
}
use seckill_mall.Payment.Service.{
  World, OrderClient, OrderTransition, stored, remote, callback_again, callback_first, callback_for,
  callback,
}
use seckill_mall.Payment.Marking.{mark_waiting}
use seckill_mall.Payment.Callbacks.{callback_found}

module _ {S : Type 0} (append : EventEnvelope → Action S Error (Unit {0})) where
  succeed_at_marks :
      (number callback_ref : String) (now : ℕ) (value : Payment) (r : Repository S)
      → (publish append (payment_succeeded_event value callback_ref now) r).0 ≡ ok tt
      → lookup number (succeed_at append number value callback_ref now r).1.payments
        ≡ some (succeeded_payment value callback_ref now)
  unfolding succeed_at
  succeed_at_marks number callback_ref now value r published =
      let event = payment_succeeded_event value callback_ref now in
      let paid = succeeded_payment value callback_ref now in
      let t = (publish append event r).1 in
      subst
        (λ (x : Result Error (Payment × Bool) × Repository S).
          lookup number x.1.payments ≡ some paid)
        (sym (
          bind_ok (publish append event) (λ _. put_succeeded number value callback_ref now) r
            (ap (λ (x : Result Error (Unit {0})). (x, t)) published)))
        (lookup-insert number number paid t.payments
          ∙ ap (λ b. if b then some paid else lookup number t.payments) (eq_refl number))

module _ {S I : Type 0} (append : EventEnvelope → Action S Error (Unit {0}))
    (client : OrderClient I) (clock : I → ℕ) (new_id : String → Action I Error String)
    (hmac : String → String → String) (secret : String) where
  abbrev confirming : Payment → String → World S I → Result Error OrderTransition × World S I
  confirming p callback_ref =
      remote (client.confirm_payment p.user_id p.order_id p.payment_no callback_ref)

  callback_done :
      (number : String) (p : Payment) (v : World S I)
      → is_succeeded p.status ≡ true
      → callback_for append client clock new_id hmac secret number p p.callback_ref v
        ≡ map_answer (λ t. (p, t, true)) (confirming p p.callback_ref) v
  unfolding callback_for callback_again
  callback_done number p v done =
      rw (done, eq_refl) (then_pure (confirming p p.callback_ref) (λ t. (p, t, true)) v)

  callback_first_marks :
      (number callback_ref : String) (value : Payment) (w : World S I)
      → lookup number w.repository.payments ≡ some value
      → is_taken number (lookup callback_ref w.repository.callbacks) ≡ false
      → is_succeeded value.status ≡ false
      → (publish append
          (payment_succeeded_event value callback_ref (clock w.outside))
          w.repository).0
        ≡ ok tt
      → let after =
          (callback_first append client clock new_id hmac secret number value callback_ref w).1 in
        lookup number after.repository.payments
        ≡ some (succeeded_payment value callback_ref (clock w.outside))
  unfolding callback_first
  callback_first_marks number callback_ref value w found free waiting published =
      let paid = succeeded_payment value callback_ref (clock w.outside) in
      let rest = λ (updated : Payment × Bool) (transition : OrderTransition).
        pure (updated.0, transition, updated.1) in
      let marked : lookup number
            (mark_succeeded append number callback_ref (clock w.outside) w.repository).1.payments
          ≡ some paid =
        subst
          (λ (x : Result Error (Payment × Bool) × Repository S).
            lookup number x.1.payments ≡ some paid)
          (sym (
            mark_waiting append number callback_ref (clock w.outside) value w.repository found free
              waiting))
          (succeed_at_marks append number callback_ref (clock w.outside) value w.repository
            published) in
      after_bind (λ v. lookup number v.repository.payments ≡ some paid)
        (stored (mark_succeeded append number callback_ref (clock w.outside)))
        (λ updated. confirming value callback_ref >>= rest updated) w (λ _ _. marked)
        (λ updated _.
          after_bind (λ v. lookup number v.repository.payments ≡ some paid)
            (confirming value callback_ref) (rest updated)
            (stored (mark_succeeded append number callback_ref (clock w.outside)) w).1
            (λ _ _. marked) (λ _ _. marked))

  pub callback_waiting :
      (number callback_ref : String) (value : Payment) (w : World S I)
      → is_succeeded value.status ≡ false
      → callback_for append client clock new_id hmac secret number value callback_ref w
        ≡ callback_first append client clock new_id hmac secret number value callback_ref w
  unfolding callback_for
  callback_waiting number callback_ref value w waiting = rw waiting refl

  -- A signed callback for a payment that waits, whose reference is not used by another payment and
  -- whose event is published, is not lost where the order service fails: whatever that service
  -- answers, the payment has succeeded, and as long as the repository is as the callback left it, the
  -- same callback asks the order service again and answers with that payment.
  pub callback_retried :
      (payment_no callback_ref signature : String) (value : Payment) (w : World S I)
      → (str_eq (trim_space payment_no) "" || str_eq (trim_space callback_ref) "") ≡ false
      → trim_space signature ≡ hmac secret (trim_space payment_no)
      → lookup (trim_space payment_no) w.repository.payments ≡ some value
      → is_taken (trim_space payment_no) (lookup (trim_space callback_ref) w.repository.callbacks)
        ≡ false
      → is_succeeded value.status ≡ false
      → (publish append
          (payment_succeeded_event value (trim_space callback_ref) (clock w.outside))
          w.repository).0
        ≡ ok tt
      → let after =
          (callback append client clock new_id hmac secret payment_no callback_ref signature w).1 in
        let paid = succeeded_payment value (trim_space callback_ref) (clock w.outside) in
        (lookup (trim_space payment_no) after.repository.payments ≡ some paid)
        × ((v : World S I)
            → v.repository ≡ after.repository
            → callback append client clock new_id hmac secret payment_no callback_ref signature v
              ≡ map_answer
                  (λ transition. (paid, transition, true))
                  (remote (
                    client.confirm_payment paid.user_id paid.order_id paid.payment_no
                      paid.callback_ref))
                  v)
  unfolding callback callback_for
  callback_retried payment_no callback_ref signature value w good signed found free waiting
        published =
      let number = trim_space payment_no in
      let ref = trim_space callback_ref in
      let sig = (eq_iff (trim_space signature) (hmac secret number)).1 signed in
      let paid = succeeded_payment value ref (clock w.outside) in
      let marked =
        subst
          (λ (x : Result Error (Payment × OrderTransition × Bool) × World S I).
            lookup number x.1.repository.payments ≡ some paid)
          (sym (
            callback_found append client clock new_id hmac secret number ref (trim_space signature)
              value w good sig found
            ∙ callback_waiting number ref value w waiting))
          (callback_first_marks number ref value w found free waiting published) in
      (
        marked,
        λ v same.
            callback_found append client clock new_id hmac secret number ref (trim_space signature)
              paid v good sig (ap (λ (r : Repository S). lookup number r.payments) same ∙ marked)
            ∙ callback_done number paid v refl,
      )
