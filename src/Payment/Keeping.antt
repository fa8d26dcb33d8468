-- ===== src/Payment/Keeping.antt =====
-- services/payment/internal/app: what every request keeps of the payments and the refunds.
use seckill_mall.Base.{
  ℕ, String, ◌≡◌, Option, none, some, Result, Action, after_bind, arith, eq_iff, lookup, insert,
  lookup-insert, false, Option-cases, Bool-cases, Result-cases, ap, ◌∙◌, Table, inl, inr, str_eq,
}
use seckill_mall.Contracts.Events.{EventEnvelope}
use seckill_mall.Payment.Model.{Payment, Refund, Error, succeeded, pending, is_succeeded}
use seckill_mall.Payment.Repository.{
  Repository, new_memory_repository, publish, create, is_taken, succeed_at, mark_succeeded,
  refund_new, create_refund, succeeded_payment, put_succeeded, put_refund, payment_succeeded_event,
  payment_refunded_event,
}

-- A payment stands under its number, no order has two payments, no callback reference pays two
-- payments, and no order has two refunds.
pub record IsSound {S : Type 0} (r : Repository S) : Type 0 where
  pub own :
      (number : String) (p : Payment) → lookup number r.payments ≡ some p → p.payment_no ≡ number
  pub single :
      (number : String) (p : Payment)
      → lookup number r.payments ≡ some p
      → lookup p.order_id r.payment_by_order ≡ some number
  pub paid :
      (number : String) (p : Payment)
      → lookup number r.payments ≡ some p
      → p.status ≡ succeeded
      → lookup p.callback_ref r.callbacks ≡ some number
  pub refunded :
      (number : String) (f : Refund)
      → lookup number r.refunds ≡ some f
      → lookup f.order_id r.refund_by_order ≡ some number

module _ {S : Type 0} where
  pub new_memory_repository-IsSound : (sink : Option S) → IsSound (new_memory_repository sink)
  unfolding new_memory_repository lookup
  new_memory_repository-IsSound sink = record {
    own = λ number p h. cc;
    single = λ number p h. cc;
    paid = λ number p h s. cc;
    refunded = λ number f h. cc;
  }

  -- A new payment of an order that has none.
  added-IsSound :
      (value : Payment) (r : Repository S)
      → value.status ≡ pending
      → lookup value.order_id r.payment_by_order ≡ none
      → IsSound r
      → IsSound (record r {
        payments = insert value.payment_no value r.payments;
        payment_by_order = insert value.order_id value.payment_no r.payment_by_order;
      })
  added-IsSound value r status free s = record {
    own = λ number p h. ground (
      arith,
      lookup-insert value.payment_no number value r.payments,
      s.own number p,
      eq_iff value.payment_no number,
    );
    single = λ number p h. ground (
      arith,
      lookup-insert value.payment_no number value r.payments,
      lookup-insert value.order_id p.order_id value.payment_no r.payment_by_order,
      s.single number p,
      eq_iff value.payment_no number,
      eq_iff value.order_id p.order_id,
    );
    paid = λ number p h paid. ground (
      arith,
      lookup-insert value.payment_no number value r.payments,
      s.paid number p,
      eq_iff value.payment_no number,
    );
    refunded = s.refunded;
  }

  -- A payment that succeeds under a callback reference that no other payment has.
  succeeded-IsSound :
      (payment_no callback_ref : String) (now : ℕ) (value : Payment) (r : Repository S)
      → lookup payment_no r.payments ≡ some value
      → is_taken payment_no (lookup callback_ref r.callbacks) ≡ false
      → IsSound r
      → IsSound (record r {
        payments = insert payment_no (succeeded_payment value callback_ref now) r.payments;
        callbacks = insert callback_ref payment_no r.callbacks;
      })
  unfolding is_taken
  succeeded-IsSound payment_no callback_ref now value r found free s =
      let new = succeeded_payment value callback_ref now in
      record {
        own = λ number p h. ground (
          arith,
          lookup-insert payment_no number new r.payments,
          s.own number p,
          s.own payment_no value,
          eq_iff payment_no number,
        );
        single = λ number p h. ground (
          arith,
          lookup-insert payment_no number new r.payments,
          s.single number p,
          s.single payment_no value,
          eq_iff payment_no number,
        );
        paid = λ number p h paid. ground (
          arith,
          lookup-insert payment_no number new r.payments,
          s.paid number p,
          lookup-insert callback_ref p.callback_ref payment_no r.callbacks,
          eq_iff payment_no number,
          eq_iff callback_ref p.callback_ref,
          eq_iff number payment_no,
        );
        refunded = s.refunded;
      }

  -- A new refund of an order that has none.
  refunded-IsSound :
      (value : Refund) (r : Repository S)
      → lookup value.order_id r.refund_by_order ≡ none
      → IsSound r
      → IsSound (record r {
        refunds = insert value.refund_no value r.refunds;
        refund_by_order = insert value.order_id value.refund_no r.refund_by_order;
      })
  refunded-IsSound value r free s = record {
    own = s.own;
    single = s.single;
    paid = s.paid;
    refunded = λ number f h. ground (
      arith,
      lookup-insert value.refund_no number value r.refunds,
      lookup-insert value.order_id f.order_id value.refund_no r.refund_by_order,
      s.refunded number f,
      eq_iff value.refund_no number,
      eq_iff value.order_id f.order_id,
    );
  }

  pub create-IsSound :
      (value : Payment) (r : Repository S)
      → value.status ≡ pending
      → IsSound r
      → IsSound (create value r).1
  unfolding create
  create-IsSound value r status s = elim (Option-cases (lookup value.order_id r.payment_by_order)) [
    | inl free ↦ rw (free, create) (added-IsSound value r status free s)
    | inr (_, known) ↦ rw (known, create) s
  ]

module _ {S : Type 0} (append : EventEnvelope → Action S Error (Unit {0})) where
  -- Only the sink takes part in publishing.
  pub publish_rest :
      (event : Result String EventEnvelope) (r : Repository S)
      → let t = (publish append event r).1 in
        (t.payments ≡ r.payments)
        × (t.payment_by_order ≡ r.payment_by_order)
        × (t.callbacks ≡ r.callbacks)
        × (t.refunds ≡ r.refunds)
        × (t.refund_by_order ≡ r.refund_by_order)
  unfolding publish
  publish_rest event r = ground arith

  publish-IsSound :
      (event : Result String EventEnvelope) (r : Repository S)
      → IsSound r
      → IsSound (publish append event r).1
  unfolding publish
  publish-IsSound event r s = elim (Option-cases r.sink) [
    | inl unset ↦ rw (unset, publish) s
    | inr (_, set) ↦ elim (Result-cases event) [
      | inl (_, built) ↦
          rw (set, built, publish)
            (record { own = s.own; single = s.single; paid = s.paid; refunded = s.refunded })
      | inr (_, bad) ↦ rw (set, bad, publish) s
    ]
  ]

  succeed_at-IsSound :
      (payment_no callback_ref : String) (now : ℕ) (value : Payment) (r : Repository S)
      → lookup payment_no r.payments ≡ some value
      → is_taken payment_no (lookup callback_ref r.callbacks) ≡ false
      → IsSound r
      → IsSound (succeed_at append payment_no value callback_ref now r).1
  unfolding succeed_at
  succeed_at-IsSound payment_no callback_ref now value r found free s =
      let event = payment_succeeded_event value callback_ref now in
      let same = publish_rest event r in
      after_bind IsSound (publish append event)
        (λ _. put_succeeded payment_no value callback_ref now) r (λ _ _. publish-IsSound event r s)
        (λ _ _.
          succeeded-IsSound payment_no callback_ref now value (publish append event r).1
            (ap (lookup payment_no) same.0 ∙ found)
            (ap (λ (m : Table String). is_taken payment_no (lookup callback_ref m)) same.2 ∙ free)
            (publish-IsSound event r s))

  pub mark_succeeded-IsSound :
      (payment_no callback_ref : String) (now : ℕ) (r : Repository S)
      → IsSound r
      → IsSound (mark_succeeded append payment_no callback_ref now r).1
  unfolding mark_succeeded
  mark_succeeded-IsSound payment_no callback_ref now r s =
      elim (Option-cases (lookup payment_no r.payments)) [
        | inl missing ↦ rw (missing, mark_succeeded) s
        | inr (value, found) ↦
            elim (Bool-cases (is_taken payment_no (lookup callback_ref r.callbacks))) [
              | inl taken ↦ rw (found, mark_succeeded, taken) s
              | inr free ↦
                  rw (found, mark_succeeded, free)
                    (elim (Bool-cases (is_succeeded value.status)) [
                      | inl done ↦
                          rw done (elim (Bool-cases (str_eq value.callback_ref callback_ref)) [
                            | inl own ↦ rw own s
                            | inr other ↦ rw other s
                          ])
                      | inr open_ ↦
                          rw open_
                            (succeed_at-IsSound payment_no callback_ref now value r found free s)
                    ])
            ]
      ]

  pub create_refund-IsSound :
      (value : Refund) (r : Repository S) → IsSound r → IsSound (create_refund append value r).1
  unfolding refund_new create_refund
  create_refund-IsSound value r s = elim (Option-cases (lookup value.order_id r.refund_by_order)) [
    | inr (_, known) ↦ rw (known, create_refund) s
    | inl free ↦
        let event = payment_refunded_event value in
        rw (free, create_refund)
          (after_bind IsSound (publish append event) (λ _. put_refund value) r
            (λ _ _. publish-IsSound event r s)
            (λ _ _.
              refunded-IsSound value (publish append event r).1
                (ap (lookup value.order_id) (publish_rest event r).4 ∙ free)
                (publish-IsSound event r s)))
  ]
