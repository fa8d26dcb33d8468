-- ===== src/Payment/Refunds.antt =====
-- services/payment/internal/app/service.go: what a refund gives back.
use seckill_mall.Base.{
  ℕ, String, ◌≡◌, refl, sym, ap, ◌∙◌, subst, Bool, true, false, none, some, Result, ok, Action,
  pure, fail_if, ◌>>=◌, ◌>>◌, ok_bind, ok_guard, ok_inj, bind_ok, not, ◌||◌, ◌==◌, ltb, len, str_eq,
  trim_space, Result-cases, Option-cases, Bool-cases, inl, inr, eq_refl, lookup, lookup-insert,
  if◌then◌else◌,
}
use seckill_mall.Contracts.Events.{EventEnvelope}
use seckill_mall.Payment.Model.{Payment, Refund, Error, is_succeeded, invalid_request, not_found}
use seckill_mall.Payment.Repository.{
  Repository, create_refund, refund_new, put_refund, publish, payment_refunded_event, payment_at,
  find_succeeded_payment, find_refund_by_order,
}
use seckill_mall.Payment.Service.{
  World, OrderClient, OrderSummary, OrderTransition, stored, remote, new_refund, refund_payment,
  refund_order, refund_found, refund_trimmed, refund,
}
use seckill_mall.Payment.Keeping.{publish_rest}

-- A refund stands in a repository, as the only one of its order.
abbrev pub Stands : {S : Type 0} → Refund → Repository S → Type 0
Stands f r =
    (lookup f.order_id r.refund_by_order ≡ some f.refund_no)
    × (lookup f.refund_no r.refunds ≡ some f)

-- The payment of an order, which has succeeded.
abbrev pub IsPaidBy : {S : Type 0} → String → Payment → Repository S → Type 0
IsPaidBy order_id p r =
    (number : String) × (lookup order_id r.payment_by_order ≡ some number)
    × (payment_at number r.payments ≡ p)
    × (is_succeeded p.status ≡ true)

-- An answered refund of a payment: a new one, with the payment's amount, and the payments as before.
abbrev pub Refunds :
    {S : Type 0} → ℕ → String → Payment → Repository S → Refund × Bool → Repository S → Type 0
Refunds user_id order_id p before answer after =
    (answer.1 ≡ false)
    × (answer.0.user_id ≡ user_id)
    × (answer.0.order_id ≡ order_id)
    × (answer.0.payment_no ≡ p.payment_no)
    × (answer.0.amount_cents ≡ p.amount_cents)
    × Stands answer.0 after
    × (after.payments ≡ before.payments)

module _ {S : Type 0} (append : EventEnvelope → Action S Error (Unit {0})) where
  put_refund-Stands : (value : Refund) (r : Repository S) → Stands value (put_refund value r).1
  put_refund-Stands value r = (
    lookup-insert value.order_id value.order_id value.refund_no r.refund_by_order
        ∙ ap (λ b. if b then some value.refund_no else lookup value.order_id r.refund_by_order)
            (eq_refl value.order_id),
    lookup-insert value.refund_no value.refund_no value r.refunds
        ∙ ap (λ b. if b then some value else lookup value.refund_no r.refunds)
            (eq_refl value.refund_no),
  )

  create_refund_makes :
      (value : Refund) (r : Repository S)
      → lookup value.order_id r.refund_by_order ≡ none
      → (b : Refund × Bool) → (create_refund append value r).0 ≡ ok b
      → let after = (create_refund append value r).1 in
        (b ≡ (value, false)) × Stands value after × (after.payments ≡ r.payments)
  unfolding create_refund refund_new
  create_refund_makes value r free =
      rw (free, create_refund)
        (ok_bind
          (λ b after. (b ≡ (value, false)) × Stands value after × (after.payments ≡ r.payments))
          (publish append (payment_refunded_event value)) (λ _. put_refund value) r
          (λ _ _ b h. (
            sym (ok_inj h),
            put_refund-Stands value (publish append (payment_refunded_event value) r).1,
            (publish_rest append (payment_refunded_event value) r).0,
          )))

find_succeeded_payment_found :
    {S : Type 0} (order_id : String) (r : Repository S) (p : Payment)
    → (find_succeeded_payment order_id r).0 ≡ ok p
    → (find_succeeded_payment order_id r ≡ (ok p, r)) × IsPaidBy order_id p r
unfolding find_succeeded_payment
find_succeeded_payment_found order_id r p =
    elim (Option-cases (lookup order_id r.payment_by_order)) [
      | inl missing ↦ rw (missing, find_succeeded_payment) (λ h. absurd (cc h))
      | inr (number, found) ↦
          elim (Bool-cases (is_succeeded (payment_at number r.payments).status)) [
            | inr waiting ↦ rw (found, find_succeeded_payment, waiting) (λ h. absurd (cc h))
            | inl done ↦
                rw (found, find_succeeded_payment, done)
                  (λ h. (
                    ap (λ (q : Payment). (ok q, r)) (ok_inj h),
                    (
                      number,
                      refl,
                      ok_inj h,
                      ap (λ (q : Payment). is_succeeded q.status) (sym (ok_inj h)) ∙ done,
                    ),
                  ))
          ]
    ]

module _ {S I : Type 0} (append : EventEnvelope → Action S Error (Unit {0}))
    (client : OrderClient I) (clock : I → ℕ) (new_id : String → Action I Error String)
    (hmac : String → String → String) (secret : String) where
  refund_payment_makes :
      (user_id : ℕ) (order_id reason : String) (p : Payment) (w : World S I)
      → lookup order_id w.repository.refund_by_order ≡ none
      → (b : Refund × OrderTransition × Bool)
      → (refund_payment append client clock new_id hmac secret user_id order_id reason p w).0 ≡ ok b
      → let v =
          (refund_payment append client clock new_id hmac secret user_id order_id reason p w).1 in
        Refunds user_id order_id p w.repository (b.0, b.2) v.repository
  unfolding refund_payment new_refund
  refund_payment_makes user_id order_id reason p w free =
      let Made : Refund × OrderTransition × Bool → World S I → Type 0 =
        λ b v. Refunds user_id order_id p w.repository (b.0, b.2) v.repository in
      let ask = λ (refund_no : String). remote (client.refund user_id order_id refund_no reason) in
      let answer : OrderTransition → Refund × Bool → Refund × OrderTransition × Bool =
        λ transition made. (made.0, transition, made.1) in
      let make = λ (refund_no : String) (now : ℕ).
        create_refund append (new_refund refund_no user_id order_id reason p now) in
      let write = λ (refund_no : String) (transition : OrderTransition) (v : World S I).
        (stored (make refund_no (clock v.outside)) >>= λ made. pure (answer transition made)) v in
      ok_bind Made (remote (new_id "ref")) (λ refund_no. ask refund_no >>= write refund_no) w
        (λ refund_no _.
          ok_bind Made (ask refund_no) (write refund_no) (remote (new_id "ref") w).1
            (λ transition _.
              let v = (ask refund_no (remote (new_id "ref") w).1).1 in
              let value = new_refund refund_no user_id order_id reason p (clock v.outside) in
              ok_bind Made (stored (create_refund append value))
                (λ made. pure (answer transition made)) v
                (λ made h b same.
                  let (e, stands, kept) =
                    create_refund_makes append value v.repository free made h in
                  subst
                    (λ (x : Refund × OrderTransition × Bool).
                      Made x (stored (create_refund append value) v).1)
                    (ok_inj same)
                    (subst
                      (λ (m : Refund × Bool).
                        Made (answer transition m) (stored (create_refund append value) v).1)
                      (sym e) (refl, refl, refl, refl, refl, stands, kept)))))

  refund_order_makes :
      (user_id : ℕ) (order_id reason : String) (w : World S I)
      → lookup order_id w.repository.refund_by_order ≡ none
      → (b : Refund × OrderTransition × Bool)
      → (refund_order append client clock new_id hmac secret user_id order_id reason w).0 ≡ ok b
      → let v = (refund_order append client clock new_id hmac secret user_id order_id reason w).1 in
        (p : Payment) × IsPaidBy order_id p w.repository
        × Refunds user_id order_id p w.repository (b.0, b.2) v.repository
  unfolding refund_order
  refund_order_makes user_id order_id reason w free =
      let find = stored {I = I} (find_succeeded_payment order_id) in
      let rest = refund_payment append client clock new_id hmac secret user_id order_id reason in
      elim (Result-cases (find_succeeded_payment order_id w.repository).0) [
        | inr (e, bad) ↦ rw (bad, ◌>>=◌) (λ b h. absurd (cc h))
        | inl (p, good) ↦
            let (same, paid) = find_succeeded_payment_found order_id w.repository p good in
            subst
              (λ (x : Result Error (Refund × OrderTransition × Bool) × World S I).
                (b : Refund × OrderTransition × Bool)
                → x.0 ≡ ok b
                → (p : Payment) × IsPaidBy order_id p w.repository
                  × Refunds user_id order_id p w.repository (b.0, b.2) x.1.repository)
              (sym (
                bind_ok find rest w (
                  ap
                    (λ (x : Result Error Payment × Repository S).
                      (x.0, record w { repository = x.1 }))
                    same)))
              (λ b h. (p, paid, refund_payment_makes user_id order_id reason p w free b h))
      ]

  -- A refund of an order that has none and that is answered has found a succeeded payment of this
  -- order. It is a new refund for the user and the order of the request, of the amount and under the
  -- number of that payment; it stands in the repository as the refund of its order, and the payments
  -- are as they were.
  pub refund_gives_back :
      (user_id : ℕ) (order_id reason : String) (w : World S I)
      → lookup order_id w.repository.refund_by_order ≡ none
      → (b : Refund × OrderTransition × Bool)
      → (refund append client clock new_id hmac secret user_id order_id reason w).0 ≡ ok b
      → let v = (refund append client clock new_id hmac secret user_id order_id reason w).1 in
        (p : Payment) × IsPaidBy order_id p w.repository
        × Refunds user_id order_id p w.repository (b.0, b.2) v.repository
  unfolding refund refund_trimmed refund_found find_refund_by_order
  refund_gives_back user_id order_id reason w free =
      let text = trim_space reason in
      let Made : Refund × OrderTransition × Bool → World S I → Type 0 = λ b v.
        (p : Payment) × IsPaidBy order_id p w.repository
        × Refunds user_id order_id p w.repository (b.0, b.2) v.repository in
      let bad = user_id == 0 || (str_eq order_id "" || (str_eq text "" || ltb 255 (len text))) in
      let other = λ (order : OrderSummary). not (order.user_id == user_id) in
      let find = stored {I = I} (find_refund_by_order user_id order_id) in
      let rest = refund_found append client clock new_id hmac secret user_id order_id text in
      let asked = (remote (client.get user_id order_id) w).1 in
      ok_guard Made bad invalid_request
        (remote (client.get user_id order_id) >>= λ order.
          fail_if (other order) not_found >> (find >>= rest))
        w
        (ok_bind Made (remote (client.get user_id order_id))
          (λ order. fail_if (other order) not_found >> (find >>= rest)) w
          (λ order _. ok_guard Made (other order) not_found (find >>= rest) asked (
            subst
              (λ (x : Result Error (Refund × OrderTransition × Bool) × World S I).
                (b : Refund × OrderTransition × Bool) → x.0 ≡ ok b → Made b x.1)
              (sym (
                bind_ok find rest asked {a = none} {t = asked}
                  (rw (free, find_refund_by_order) refl)))
              (refund_order_makes user_id order_id text asked free))))
