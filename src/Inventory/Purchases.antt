-- ===== src/Inventory/Purchases.antt =====
-- services/inventory/internal/app/memory_store.go: the purchase limit of seckill admissions and
-- the counters of purchases.
use seckill_mall.Base.{
  ℕ, ◌+◌, ◌≤◌, ◌<◌, ◌≡◌, refl, ap, String, ◌<>◌, Bool, true, false, not, ◌&&◌, some, none, [], ◌∷◌,
  pos, pos_part, ltb_ℤ, add32, int32_limit, sub32_exact, sub32_below, add32_exact, ◌==◌,
  if◌then◌else◌, str_eq, arith, lookup, sum_by, sum_by-insert_new, sum_by-insert_old, eq_iff, List,
  Action, Table, insert, Option, Bool-cases, inl, inr, str_eq→eq, subst, eq_refl,
}
use seckill_mall.Base.Decimal.{show_uint-colon_inj}
use seckill_mall.Contracts.Events.{EventEnvelope}
use seckill_mall.Inventory.Model.{
  Status, reserved, released, restocked, Reservation, purchase_key, SeckillAdmissionCommand,
  ReserveCommand,
}
use seckill_mall.Inventory.Ledger.{
  Ledger, new_ledger, new_reservation, new_admission, confirmed_reservation, closed_reservation,
  key_of, hold, count_purchase, give_back, put,
}
use seckill_mall.Inventory.Store.{new_memory_store}
use seckill_mall.Inventory.Calls.{Call, run, run_invariant}
use seckill_mall.Inventory.Moves.{
  IsPositive, Move, keep, reserves, admits, confirms, releases, restocks,
}
use seckill_mall.Inventory.Conservation.{
  is_active, held, IsConserved, Move-IsConserved, new_ledger-IsConserved,
}

-- An active reservation of a seckill activity; a plain Reserve carries activity 0.
abbrev pub is_purchase : Reservation → Bool
is_purchase r = is_active r.status && (str_eq r.mode "seckill" && not (r.activity_id == 0))

-- What a reservation counts against a purchase key.
abbrev pub bought : String → Reservation → ℕ
bought key r = if is_purchase r && str_eq (key_of r) key then pos_part r.quantity else 0

abbrev pub Exact : Ledger → String → Type 0
Exact l key = l.purchased key ≡ pos (sum_by (bought key) l.reservations)

abbrev pub Within : ℕ → Ledger → String → Type 0
Within limit l key = sum_by (bought key) l.reservations ≤ limit

pub record IsCounted (limit : ℕ) (l : Ledger) : Type 0 where
  pub fixed_limit : l.limit ≡ pos limit
  pub exact : (key : String) → Exact l key
  pub within : (key : String) → Within limit l key

sum_by_zero :
    (f : Reservation → ℕ) (m : Table Reservation) → ((r : Reservation) → f r ≡ 0) → sum_by f m ≡ 0
unfolding sum_by
sum_by_zero f [] zeros = refl
sum_by_zero f ((_, r) ∷ m) zeros = omega (arith, zeros r, sum_by_zero f m zeros)

-- No purchase shares its key with a reservation of activity 0.
pub purchase_key-zero : (a u s v t : ℕ) → purchase_key a u s ≡ purchase_key 0 v t → a ≡ 0
unfolding purchase_key
purchase_key-zero a u s v t e = (show_uint-colon_inj a 0 _ _ e).0

bought-zero : (r p : Reservation) → r.activity_id ≡ 0 → bought (key_of r) p ≡ 0
unfolding key_of
bought-zero r p none_active = ground (
  arith,
  eq_iff (key_of p) (key_of r),
  purchase_key-zero p.activity_id p.user_id p.sku_id r.user_id r.sku_id,
  ap (λ (a : ℕ). purchase_key a r.user_id r.sku_id) none_active,
)

module _ (total : ℕ → ℕ) (limit : ℕ) (bounded : (sku : ℕ) → total sku + limit < int32_limit) where
  -- A quantity that is held is below the stock that was put in.
  held_bound :
      (id : String) (r : Reservation) (l : Ledger)
      → lookup id l.reservations ≡ some r
      → is_active r.status ≡ true
      → IsConserved total l
      → pos_part r.quantity ≤ total r.sku_id
  unfolding closed_reservation
  held_bound id r l found active inv = ground (
    arith,
    inv.balanced r.sku_id,
    sum_by-insert_old (held r.sku_id) id (closed_reservation r released 0) r l.reservations found,
  )

  hold-IsCounted :
      (c : ReserveCommand) (now : ℕ) (l : Ledger)
      → lookup c.reservation_id l.reservations ≡ none
      → IsCounted limit l
      → IsCounted limit (hold (new_reservation c now) l)
  unfolding hold new_reservation
  hold-IsCounted c now l new inv = record {
    fixed_limit = inv.fixed_limit;
    exact = λ key. ground (
      arith,
      inv.exact key,
      sum_by-insert_new (bought key) c.reservation_id (new_reservation c now) l.reservations new,
    );
    within = λ key. ground (
      arith,
      inv.within key,
      sum_by-insert_new (bought key) c.reservation_id (new_reservation c now) l.reservations new,
    );
  }

  -- The addition behind the limit test does not wrap, since the quantity is in stock.
  admit_adds :
      (c : SeckillAdmissionCommand) (now : ℕ) (l : Ledger)
      → IsPositive c.quantity
      → ltb_ℤ l.limit (add32 (l.purchased (key_of (new_admission c now))) c.quantity) ≡ false
      → ltb_ℤ (l.stock c.sku_id) c.quantity ≡ false
      → IsConserved total l
      → IsCounted limit l
      → let sum = sum_by (bought (key_of (new_admission c now))) l.reservations in
        (add32 (l.purchased (key_of (new_admission c now))) c.quantity
          ≡ pos (sum + pos_part c.quantity))
        × (sum + pos_part c.quantity ≤ limit)
  admit_adds c now l p below enough con inv = ground (
    arith,
    bounded c.sku_id,
    con.balanced c.sku_id,
    con.no_debt c.sku_id,
    inv.fixed_limit,
    inv.exact (key_of (new_admission c now)),
    inv.within (key_of (new_admission c now)),
    add32_exact (l.purchased (key_of (new_admission c now))) c.quantity,
  )

  admit-IsCounted :
      (c : SeckillAdmissionCommand) (now : ℕ) (l : Ledger)
      → IsPositive c.quantity
      → 0 < c.activity_id
      → lookup ("admit_" <> c.request_id) l.reservations ≡ none
      → ltb_ℤ l.limit (add32 (l.purchased (key_of (new_admission c now))) c.quantity) ≡ false
      → ltb_ℤ (l.stock c.sku_id) c.quantity ≡ false
      → IsConserved total l
      → IsCounted limit l
      → IsCounted limit (count_purchase (new_admission c now) (hold (new_admission c now) l))
  unfolding count_purchase hold new_admission
  admit-IsCounted c now l p a new below enough con inv = record {
    fixed_limit = inv.fixed_limit;
    exact = λ key. elim (Bool-cases (str_eq own key)) [
      | inl same ↦
          subst (Exact after) (str_eq→eq own key same)
            (ground (arith, eq_refl own, added, grown own))
      | inr other ↦ ground (arith, inv.exact key, grown key)
    ];
    within = λ key. elim (Bool-cases (str_eq own key)) [
      | inl same ↦
          subst (Within limit after) (str_eq→eq own key same)
            (ground (arith, eq_refl own, added, grown own))
      | inr other ↦ ground (arith, inv.within key, grown key)
    ];
  }
    where
      own : String
      own = key_of (new_admission c now)

      after : Ledger
      after = count_purchase (new_admission c now) (hold (new_admission c now) l)

      added :
          (add32 (l.purchased own) c.quantity
            ≡ pos (sum_by (bought own) l.reservations + pos_part c.quantity))
          × (sum_by (bought own) l.reservations + pos_part c.quantity ≤ limit)
      added = admit_adds c now l p below enough con inv

      grown :
          (key : String)
          → sum_by
              (bought key)
              (insert ("admit_" <> c.request_id) (new_admission c now) l.reservations)
            ≡ sum_by (bought key) l.reservations + bought key (new_admission c now)
      grown key =
          sum_by-insert_new (bought key) ("admit_" <> c.request_id) (new_admission c now)
            l.reservations new

  put-IsCounted :
      (id order_id : String) (now : ℕ) (r : Reservation) (l : Ledger)
      → lookup id l.reservations ≡ some r
      → r.status ≡ reserved
      → IsCounted limit l
      → IsCounted limit (put id (confirmed_reservation r order_id now) l)
  unfolding put confirmed_reservation key_of
  put-IsCounted id order_id now r l found st inv = record {
    fixed_limit = inv.fixed_limit;
    exact = λ key. ground (
      arith,
      inv.exact key,
      sum_by-insert_old (bought key) id (confirmed_reservation r order_id now) r l.reservations
          found,
    );
    within = λ key. ground (
      arith,
      inv.within key,
      sum_by-insert_old (bought key) id (confirmed_reservation r order_id now) r l.reservations
          found,
    );
  }

  give_back-IsCounted :
      (id : String) (status : Status) (now : ℕ) (r : Reservation) (l : Ledger)
      → lookup id l.reservations ≡ some r
      → is_active r.status ≡ true
      → is_active status ≡ false
      → IsConserved total l
      → IsCounted limit l
      → IsCounted limit (give_back id (closed_reservation r status now) l)
  unfolding give_back closed_reservation key_of
  give_back-IsCounted id status now r l found active closed con inv = record {
    fixed_limit = inv.fixed_limit;
    exact = λ key. elim (Bool-cases (str_eq own key)) [
      | inl same ↦ subst (Exact after) (str_eq→eq own key same) (
          ground (
            arith,
            eq_refl own,
            inv.exact own,
            inv.within own,
            shrunk own,
            con.positive id r found,
            held_bound id r l found active con,
            bounded r.sku_id,
            uncounted,
            sub32_exact (l.purchased own) r.quantity,
            sub32_below (l.purchased own) r.quantity,
          ))
      | inr other ↦ ground (arith, inv.exact key, shrunk key)
    ];
    within = λ key. ground (arith, inv.within key, shrunk key);
  }
    where
      own : String
      own = key_of r

      after : Ledger
      after = give_back id (closed_reservation r status now) l

      uncounted : r.activity_id ≡ 0 → sum_by (bought own) l.reservations ≡ 0
      uncounted e = sum_by_zero (bought own) l.reservations (λ p. bought-zero r p e)

      shrunk :
          (key : String)
          → sum_by (bought key) (insert id (closed_reservation r status now) l.reservations)
              + bought key r
            ≡ sum_by (bought key) l.reservations + bought key (closed_reservation r status now)
      shrunk key =
          sum_by-insert_old (bought key) id (closed_reservation r status now) r l.reservations found

  Move-IsCounted :
      (l u : Ledger)
      → Move l u
      → IsConserved total l × IsCounted limit l
      → IsConserved total u × IsCounted limit u
  Move-IsCounted l u m (con, inv) =
      (Move-IsConserved total (λ sku. omega (arith, bounded sku)) l u m con, counted m)
    where
      counted : Move l u → IsCounted limit u
      counted (keep e) = rw e inv
      counted (reserves c now _ new _ e) = rw e (hold-IsCounted c now l new inv)
      counted (admits c now p a new below enough e) =
          rw e (admit-IsCounted c now l p a new below enough con inv)
      counted (confirms id order_id now r found st e) =
          rw e (put-IsCounted id order_id now r l found st inv)
      counted (releases id now r found st e) =
          rw e (give_back-IsCounted id released now r l found (ap is_active st) refl con inv)
      counted (restocks id now r found st e) =
          rw e (give_back-IsCounted id restocked now r l found (ap is_active st) refl con inv)

  -- After any history of calls on a new store with a positive limit, whatever the event stream
  -- answers: each purchase counter is the sum of the quantities of the reserved and confirmed seckill
  -- admissions with its key, and no such sum passes the limit. The initial stock of each SKU and the
  -- limit together must be below the int32 limit.
  pub run-IsCounted :
      {S : Type 0} (append : EventEnvelope → Action S String (Unit {0})) (stream : Option S)
      (cs : List (ℕ × Call))
      → 0 < limit
      → IsCounted limit
          (run append cs (new_memory_store (λ sku. pos (total sku)) (pos limit) stream)).ledger
  unfolding new_memory_store new_ledger sum_by
  run-IsCounted append stream cs positive =
      (run_invariant append (λ l. IsConserved total l × IsCounted limit l) Move-IsCounted cs _
        (
          new_ledger-IsConserved total (λ sku. omega (arith, bounded sku)) (pos limit),
          record { fixed_limit = ground arith; exact = λ _. refl; within = λ _. omega arith },
        )).1
