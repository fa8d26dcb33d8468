-- ===== src/Inventory/Conservation.antt =====
-- services/inventory/internal/app/memory_store.go: the stock that is available and the stock that
-- reservations hold.
use seckill_mall.Base.{
  ℕ, ◌+◌, ◌<◌, ◌≡◌, refl, String, Bool, true, false, ◌&&◌, some, none, ℤ, pos, pos_part, neg_part,
  ltb_ℤ, int32_limit, sub32_exact, add32_exact, ◌==◌, if◌then◌else◌, arith, lookup, lookup-insert,
  sum_by, sum_by-insert_new, sum_by-insert_old, List, Action, insert, ap, Option,
}
use seckill_mall.Contracts.Events.{EventEnvelope}
use seckill_mall.Inventory.Model.{Status, reserved, confirmed, released, restocked, Reservation}
use seckill_mall.Inventory.Ledger.{
  Ledger, new_ledger, new_reservation, new_admission, confirmed_reservation, closed_reservation,
  hold, count_purchase, give_back, put,
}
use seckill_mall.Inventory.Store.{new_memory_store}
use seckill_mall.Inventory.Calls.{Call, run, run_invariant}
use seckill_mall.Inventory.Moves.{
  IsPositive, Move, keep, reserves, admits, confirms, releases, restocks,
}

-- A reservation in these states has its quantity taken out of the stock.
abbrev pub is_active : Status → Bool
is_active reserved = true
is_active confirmed = true
is_active _ = false

-- What a reservation holds of a SKU.
abbrev pub held : ℕ → Reservation → ℕ
held sku r = if is_active r.status && r.sku_id == sku then pos_part r.quantity else 0

-- `total` is the stock of each SKU that the store was created with.
pub record IsConserved (total : ℕ → ℕ) (l : Ledger) : Type 0 where
  pub no_debt : (sku : ℕ) → neg_part (l.stock sku) ≡ 0
  pub balanced : (sku : ℕ) → pos_part (l.stock sku) + sum_by (held sku) l.reservations ≡ total sku
  pub positive :
      (id : String) (r : Reservation) → lookup id l.reservations ≡ some r → IsPositive r.quantity

module _ (total : ℕ → ℕ) (bounded : (sku : ℕ) → total sku < int32_limit) where
  insert-IsPositive :
      (id : String) (r : Reservation) (l : Ledger)
      → IsPositive r.quantity
      → IsConserved total l
      → (j : String) (v : Reservation) → lookup j (insert id r l.reservations) ≡ some v
      → IsPositive v.quantity
  insert-IsPositive id r l p inv j v e =
      ground (arith, lookup-insert id j r l.reservations, inv.positive j v)

  hold-IsConserved :
      (r : Reservation) (l : Ledger)
      → r.status ≡ reserved
      → IsPositive r.quantity
      → lookup r.reservation_id l.reservations ≡ none
      → ltb_ℤ (l.stock r.sku_id) r.quantity ≡ false
      → IsConserved total l
      → IsConserved total (hold r l)
  unfolding hold
  hold-IsConserved r l st p new enough inv = record {
    no_debt = λ sku. ground (
      arith,
      inv.no_debt sku,
      inv.no_debt r.sku_id,
      inv.balanced r.sku_id,
      bounded r.sku_id,
      sub32_exact (l.stock r.sku_id) r.quantity,
    );
    balanced = λ sku. ground (
      arith,
      inv.no_debt sku,
      inv.balanced sku,
      bounded sku,
      sub32_exact (l.stock r.sku_id) r.quantity,
      sum_by-insert_new (held sku) r.reservation_id r l.reservations new,
    );
    positive = insert-IsPositive r.reservation_id r l p inv;
  }

  put-IsConserved :
      (id order_id : String) (now : ℕ) (r : Reservation) (l : Ledger)
      → lookup id l.reservations ≡ some r
      → r.status ≡ reserved
      → IsConserved total l
      → IsConserved total (put id (confirmed_reservation r order_id now) l)
  unfolding put confirmed_reservation
  put-IsConserved id order_id now r l found st inv = record {
    no_debt = inv.no_debt;
    balanced = λ sku. ground (
      arith,
      inv.balanced sku,
      sum_by-insert_old (held sku) id (confirmed_reservation r order_id now) r l.reservations found,
    );
    positive =
        insert-IsPositive id (confirmed_reservation r order_id now) l (inv.positive id r found) inv;
  }

  give_back-IsConserved :
      (id : String) (status : Status) (now : ℕ) (r : Reservation) (l : Ledger)
      → lookup id l.reservations ≡ some r
      → is_active r.status ≡ true
      → is_active status ≡ false
      → IsConserved total l
      → IsConserved total (give_back id (closed_reservation r status now) l)
  unfolding give_back closed_reservation
  give_back-IsConserved id status now r l found active closed inv = record {
    no_debt = λ sku. ground (
      arith,
      inv.no_debt sku,
      inv.no_debt r.sku_id,
      inv.balanced r.sku_id,
      bounded r.sku_id,
      inv.positive id r found,
      add32_exact (l.stock r.sku_id) r.quantity,
      sum_by-insert_old (held r.sku_id) id (closed_reservation r status now) r l.reservations found,
    );
    balanced = λ sku. ground (
      arith,
      inv.no_debt sku,
      inv.balanced sku,
      bounded sku,
      inv.positive id r found,
      add32_exact (l.stock r.sku_id) r.quantity,
      sum_by-insert_old (held sku) id (closed_reservation r status now) r l.reservations found,
    );
    positive =
        insert-IsPositive id (closed_reservation r status now) l (inv.positive id r found) inv;
  }

  pub Move-IsConserved : (l u : Ledger) → Move l u → IsConserved total l → IsConserved total u
  unfolding count_purchase new_reservation new_admission
  Move-IsConserved l u (keep e) inv = rw e inv
  Move-IsConserved l u (reserves c now p new enough e) inv =
      rw e (hold-IsConserved (new_reservation c now) l refl p new enough inv)
  Move-IsConserved l u (admits c now p _ new _ enough e) inv =
      let h = hold-IsConserved (new_admission c now) l refl p new enough inv in
      rw e (record { no_debt = h.no_debt; balanced = h.balanced; positive = h.positive })
  Move-IsConserved l u (confirms id order_id now r found st e) inv =
      rw e (put-IsConserved id order_id now r l found st inv)
  Move-IsConserved l u (releases id now r found st e) inv =
      rw e (give_back-IsConserved id released now r l found (ap is_active st) refl inv)
  Move-IsConserved l u (restocks id now r found st e) inv =
      rw e (give_back-IsConserved id restocked now r l found (ap is_active st) refl inv)

  pub new_ledger-IsConserved :
      (limit : ℤ) → IsConserved total (new_ledger (λ sku. pos (total sku)) limit)
  unfolding new_ledger lookup sum_by
  new_ledger-IsConserved limit = record {
    no_debt = λ _. refl;
    balanced = λ sku. omega arith;
    positive = λ id r e. cc;
  }

  -- After any history of calls on a new store, whatever the event stream answers, no stock is
  -- negative, and for every SKU the available stock and the quantities that reserved and confirmed
  -- reservations hold add up to the stock that the store was created with, if that was nowhere
  -- negative and below the int32 limit.
  pub run-IsConserved :
      {S : Type 0} (append : EventEnvelope → Action S String (Unit {0})) (limit : ℤ)
      (stream : Option S) (cs : List (ℕ × Call))
      → IsConserved total
          (run append cs (new_memory_store (λ sku. pos (total sku)) limit stream)).ledger
  unfolding new_memory_store
  run-IsConserved append limit stream cs =
      run_invariant append (IsConserved total) Move-IsConserved cs _ (new_ledger-IsConserved limit)
