-- ===== src/Payment/Callbacks.antt =====
-- services/payment/internal/app/service.go: what a callback may change.
use seckill_mall.Base.{
  ℕ, String, ◌≡◌, refl, sym, ap, ◌∙◌, subst, Bool, true, false, none, some, Result, ok, err, Action,
  pure, ◌>>=◌, after_bind, bind_ok, bind_err, ◌||◌, str_eq, trim_space, Bool-cases, Option-cases,
  ◌⊎◌, inl, inr, eq_iff, Table, lookup,
}
use seckill_mall.Contracts.Events.{EventEnvelope}
use seckill_mall.Payment.Model.{Payment, Error, is_succeeded, not_found}
use seckill_mall.Payment.Repository.{Repository, get, mark_succeeded}
use seckill_mall.Payment.Service.{
  World, OrderClient, OrderTransition, stored, remote, sign, callback_again, callback_first,
  callback_for, callback_trimmed, callback,
}
use seckill_mall.Payment.Marking.{Pays, mark_succeeded-Pays}

module _ {S I : Type 0} (append : EventEnvelope → Action S Error (Unit {0}))
    (client : OrderClient I) (clock : I → ℕ) (new_id : String → Action I Error String)
    (hmac : String → String → String) (secret : String) where
  abbrev Changes : String → String → World S I → World S I → Type 0
  Changes number callback_ref w v =
      (v.repository.payments ≡ w.repository.payments)
      ⊎ Pays number callback_ref w.repository.payments v.repository.payments

  callback_again_same :
      (payment : Payment) (callback_ref : String) (w : World S I)
      → (callback_again append client clock new_id hmac secret payment callback_ref w).1.repository
        ≡ w.repository
  unfolding callback_again
  callback_again_same payment callback_ref w =
      let confirm =
        client.confirm_payment payment.user_id payment.order_id payment.payment_no callback_ref in
      let rest = λ (transition : OrderTransition). pure (payment, transition, true) in
      elim (Bool-cases (str_eq payment.callback_ref callback_ref)) [
        | inr other ↦ rw other refl
        | inl own ↦ rw own (
            after_bind (λ v. v.repository ≡ w.repository) (remote confirm) rest w (λ _ _. refl)
              (λ _ _. refl))
      ]

  callback_first-Changes :
      (number : String) (payment : Payment) (callback_ref : String) (w : World S I)
      → Changes number callback_ref w
          (callback_first append client clock new_id hmac secret number payment callback_ref w).1
  unfolding callback_first
  callback_first-Changes number payment callback_ref w =
      let confirm =
        client.confirm_payment payment.user_id payment.order_id payment.payment_no callback_ref in
      let rest = λ (updated : Payment × Bool) (transition : OrderTransition).
        pure (updated.0, transition, updated.1) in
      let mark = mark_succeeded append number callback_ref (clock w.outside) in
      let marked = mark_succeeded-Pays append number callback_ref (clock w.outside) w.repository in
      after_bind (Changes number callback_ref w) (stored mark)
        (λ updated. remote confirm >>= rest updated) w (λ _ _. marked)
        (λ updated _.
          after_bind (Changes number callback_ref w) (remote confirm) (rest updated)
            (stored mark w).1 (λ _ _. marked) (λ _ _. marked))

  callback_for-Changes :
      (number : String) (payment : Payment) (callback_ref : String) (w : World S I)
      → Changes number callback_ref w
          (callback_for append client clock new_id hmac secret number payment callback_ref w).1
  unfolding callback_for
  callback_for-Changes number payment callback_ref w =
      elim (Bool-cases (is_succeeded payment.status)) [
        | inl done ↦ rw done (
            inl
              (ap (λ (r : Repository S). r.payments) (callback_again_same payment callback_ref w)))
        | inr new ↦ rw new (callback_first-Changes number payment callback_ref w)
      ]

  -- A callback whose arguments pass their tests.
  callback_admitted :
      (number callback_ref signature : String) (w : World S I)
      → (str_eq number "" || str_eq callback_ref "") ≡ false
      → str_eq signature (hmac secret number) ≡ true
      → callback_trimmed append client clock new_id hmac secret number callback_ref signature w
        ≡ (stored (get number) >>= λ value.
              callback_for append client clock new_id hmac secret number value callback_ref)
            w
  unfolding callback_trimmed sign
  callback_admitted number callback_ref signature w good signed = rw (good, signed) refl

  callback_bad :
      (number callback_ref signature : String) (w : World S I)
      → (str_eq number "" || str_eq callback_ref "") ≡ true
      → (callback_trimmed append client clock new_id hmac secret number callback_ref signature w).1
        ≡ w
  unfolding callback_trimmed
  callback_bad number callback_ref signature w bad = rw bad refl

  callback_forged :
      (number callback_ref signature : String) (w : World S I)
      → (str_eq number "" || str_eq callback_ref "") ≡ false
      → str_eq signature (hmac secret number) ≡ false
      → (callback_trimmed append client clock new_id hmac secret number callback_ref signature w).1
        ≡ w
  unfolding callback_trimmed sign
  callback_forged number callback_ref signature w good forged = rw (good, forged) refl

  get_known :
      (number : String) (value : Payment) (w : World S I)
      → lookup number w.repository.payments ≡ some value
      → stored (get number) w ≡ (ok value, w)
  unfolding get
  get_known number value w found = rw (found, get) refl

  get_unknown :
      (number : String) (w : World S I)
      → lookup number w.repository.payments ≡ none
      → stored (get number) w ≡ (err not_found, w)
  unfolding get
  get_unknown number w missing = rw (missing, get) refl

  -- A callback that finds its payment.
  pub callback_found :
      (number callback_ref signature : String) (value : Payment) (w : World S I)
      → (str_eq number "" || str_eq callback_ref "") ≡ false
      → str_eq signature (hmac secret number) ≡ true
      → lookup number w.repository.payments ≡ some value
      → callback_trimmed append client clock new_id hmac secret number callback_ref signature w
        ≡ callback_for append client clock new_id hmac secret number value callback_ref w
  callback_found number callback_ref signature value w good signed found =
      callback_admitted number callback_ref signature w good signed
      ∙ bind_ok (stored (get number))
          (λ p. callback_for append client clock new_id hmac secret number p callback_ref) w
          (get_known number value w found)

  -- One that does not.
  callback_lost :
      (number callback_ref signature : String) (w : World S I)
      → (str_eq number "" || str_eq callback_ref "") ≡ false
      → str_eq signature (hmac secret number) ≡ true
      → lookup number w.repository.payments ≡ none
      → callback_trimmed append client clock new_id hmac secret number callback_ref signature w
        ≡ (err not_found, w)
  callback_lost number callback_ref signature w good signed missing =
      callback_admitted number callback_ref signature w good signed
      ∙ bind_err (stored (get number))
          (λ p. callback_for append client clock new_id hmac secret number p callback_ref) w
          (get_unknown number w missing)

  signed-Changes :
      (number callback_ref signature : String) (w : World S I)
      → (str_eq number "" || str_eq callback_ref "") ≡ false
      → str_eq signature (hmac secret number) ≡ true
      → Changes number callback_ref w
          (callback_trimmed append client clock new_id hmac secret number callback_ref signature
            w).1
  signed-Changes number callback_ref signature w good signed =
      elim (Option-cases (lookup number w.repository.payments)) [
        | inl missing ↦
            subst
              (λ (x : Result Error (Payment × OrderTransition × Bool) × World S I).
                Changes number callback_ref w x.1)
              (sym (callback_lost number callback_ref signature w good signed missing)) (inl refl)
        | inr (value, found) ↦
            subst
              (λ (x : Result Error (Payment × OrderTransition × Bool) × World S I).
                Changes number callback_ref w x.1)
              (sym (callback_found number callback_ref signature value w good signed found))
              (callback_for-Changes number value callback_ref w)
      ]

  with_signature : {P Q R : Type 0} → P ⊎ Q → R → P ⊎ (R × Q)
  with_signature (inl p) r = inl p
  with_signature (inr q) r = inr (r, q)

  callback_trimmed-Changes :
      (number callback_ref signature : String) (w : World S I)
      → let v =
          (callback_trimmed append client clock new_id hmac secret number callback_ref signature
            w).1 in
        (v.repository.payments ≡ w.repository.payments)
        ⊎ ((signature ≡ hmac secret number)
            × Pays number callback_ref w.repository.payments v.repository.payments)
  callback_trimmed-Changes number ref signature w =
      elim (Bool-cases (str_eq number "" || str_eq ref "")) [
        | inl bad ↦ inl (ap payments_of (callback_bad number ref signature w bad))
        | inr good ↦ elim (Bool-cases (str_eq signature (hmac secret number))) [
          | inr forged ↦ inl (ap payments_of (callback_forged number ref signature w good forged))
          | inl signed ↦
              with_signature (signed-Changes number ref signature w good signed)
                ((eq_iff signature (hmac secret number)).0 signed)
        ]
      ]
    where
      payments_of : World S I → Table Payment
      payments_of v = v.repository.payments

  -- Whatever a callback is given and whatever the order service answers, the payments stay as they
  -- are, or the signature is that of the payment's number and this payment, which had not succeeded,
  -- has succeeded under the callback's reference, and no other payment is changed.
  pub callback-Pays :
      (payment_no callback_ref signature : String) (w : World S I)
      → let after =
          (callback append client clock new_id hmac secret payment_no callback_ref signature
            w).1.repository.payments in
        (after ≡ w.repository.payments)
        ⊎ ((trim_space signature ≡ hmac secret (trim_space payment_no))
            × Pays (trim_space payment_no) (trim_space callback_ref) w.repository.payments after)
  unfolding callback
  callback-Pays payment_no callback_ref signature w =
      callback_trimmed-Changes (trim_space payment_no) (trim_space callback_ref)
        (trim_space signature) w
