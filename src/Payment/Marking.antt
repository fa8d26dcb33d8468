-- ===== src/Payment/Marking.antt =====
-- services/payment/internal/app/memory_repository.go: what MarkSucceeded does to the payments.
use seckill_mall.Base.{
  ℕ, String, ◌≡◌, refl, sym, ap, subst, Bool, true, false, none, some, Result, Action, after_bind,
  Bool-cases, Option-cases, ◌⊎◌, inl, inr, arith, Table, lookup, insert,
}
use seckill_mall.Contracts.Events.{EventEnvelope}
use seckill_mall.Payment.Model.{Payment, Error, is_succeeded}
use seckill_mall.Payment.Repository.{
  Repository, is_taken, mark_succeeded, succeed_at, put_succeeded, publish, payment_succeeded_event,
  succeeded_payment,
}
use seckill_mall.Payment.Keeping.{publish_rest}

-- One payment of a table, which had not succeeded, has succeeded under a callback reference.
abbrev pub Pays : String → String → Table Payment → Table Payment → Type 0
Pays number callback_ref before after =
    (value : Payment) × (now : ℕ) × (lookup number before ≡ some value)
    × (is_succeeded value.status ≡ false)
    × (after ≡ insert number (succeeded_payment value callback_ref now) before)

module _ {S : Type 0} (append : EventEnvelope → Action S Error (Unit {0})) where
  succeed_at-Pays :
      (number callback_ref : String) (now : ℕ) (value : Payment) (r : Repository S)
      → lookup number r.payments ≡ some value
      → is_succeeded value.status ≡ false
      → let after = (succeed_at append number value callback_ref now r).1.payments in
        (after ≡ r.payments) ⊎ Pays number callback_ref r.payments after
  unfolding succeed_at
  succeed_at-Pays number callback_ref now value r found waiting =
      let event = payment_succeeded_event value callback_ref now in
      let same = (publish_rest append event r).0 in
      after_bind (λ t. (t.payments ≡ r.payments) ⊎ Pays number callback_ref r.payments t.payments)
        (publish append event) (λ _. put_succeeded number value callback_ref now) r
        (λ _ _. inl same)
        (λ _ _. inr (
          value,
          now,
          found,
          waiting,
          ap (insert number (succeeded_payment value callback_ref now)) same,
        ))

  -- Marking a payment that waits, under a reference that is free.
  pub mark_waiting :
      (number callback_ref : String) (now : ℕ) (value : Payment) (r : Repository S)
      → lookup number r.payments ≡ some value
      → is_taken number (lookup callback_ref r.callbacks) ≡ false
      → is_succeeded value.status ≡ false
      → mark_succeeded append number callback_ref now r
        ≡ succeed_at append number value callback_ref now r
  unfolding mark_succeeded
  mark_waiting number callback_ref now value r found free waiting =
      rw (found, mark_succeeded, free, waiting) refl

  mark_refused :
      (number callback_ref : String) (now : ℕ) (value : Payment) (r : Repository S)
      → lookup number r.payments ≡ some value
      → (is_taken number (lookup callback_ref r.callbacks) ≡ true)
        ⊎ (is_succeeded value.status ≡ true)
      → (mark_succeeded append number callback_ref now r).1 ≡ r
  unfolding mark_succeeded
  mark_refused number callback_ref now value r found (inl taken) =
      rw (found, mark_succeeded, taken) refl
  mark_refused number callback_ref now value r found (inr done) =
      rw (found, mark_succeeded, done) (ground arith)

  mark_missing :
      (number callback_ref : String) (now : ℕ) (r : Repository S)
      → lookup number r.payments ≡ none
      → (mark_succeeded append number callback_ref now r).1 ≡ r
  unfolding mark_succeeded
  mark_missing number callback_ref now r missing = rw (missing, mark_succeeded) refl

  pub mark_succeeded-Pays :
      (number callback_ref : String) (now : ℕ) (r : Repository S)
      → let after = (mark_succeeded append number callback_ref now r).1.payments in
        (after ≡ r.payments) ⊎ Pays number callback_ref r.payments after
  mark_succeeded-Pays number callback_ref now r = elim (Option-cases (lookup number r.payments)) [
    | inl missing ↦ inl (ap payments_of (mark_missing number callback_ref now r missing))
    | inr (value, found) ↦ elim (Bool-cases (is_taken number (lookup callback_ref r.callbacks))) [
      | inl taken ↦
          inl (ap payments_of (mark_refused number callback_ref now value r found (inl taken)))
      | inr free ↦ elim (Bool-cases (is_succeeded value.status)) [
        | inl done ↦
            inl (ap payments_of (mark_refused number callback_ref now value r found (inr done)))
        | inr waiting ↦
            subst
              (λ (x : Result Error (Payment × Bool) × Repository S).
                (x.1.payments ≡ r.payments) ⊎ Pays number callback_ref r.payments x.1.payments)
              (sym (mark_waiting number callback_ref now value r found free waiting))
              (succeed_at-Pays number callback_ref now value r found waiting)
      ]
    ]
  ]
    where
      payments_of : Repository S → Table Payment
      payments_of t = t.payments
