-- ===== src/Inventory/Lifecycle.antt =====
-- services/inventory/internal/app/memory_store.go: the life of one reservation across the calls.
use seckill_mall.Base.{
  ℕ, ◌≡◌, refl, sym, ◌⊎◌, inl, inr, String, none, some, List, [], ◌∷◌, arith, lookup, lookup-insert,
  eq_iff, Action, insert, ◌<>◌, ◌≢◌, Bool-cases, subst, ◌≢◌, str_eq, str_eq→eq,
}
use seckill_mall.Contracts.Events.{EventEnvelope}
use seckill_mall.Inventory.Model.{
  Status, reserved, confirmed, released, restocked, expired, Reservation,
}
use seckill_mall.Inventory.Ledger.{
  Ledger, new_reservation, new_admission, confirmed_reservation, closed_reservation, hold,
  count_purchase, give_back, put,
}
use seckill_mall.Inventory.Store.{MemoryStore}
use seckill_mall.Inventory.Calls.{Call, perform, run, perform-Move}
use seckill_mall.Inventory.Moves.{Move, keep, reserves, admits, confirms, releases, restocks}

infix 40 ◌⟶◌ ◌⟶*◌
pub data ◌⟶◌ : Status → Status → Type 0 where
  confirm_edge : reserved ⟶ confirmed
  release_edge : reserved ⟶ released
  restock_edge : confirmed ⟶ restocked

pub data ◌⟶*◌ : Status → Status → Type 0 where
  here : {s : Status} → s ⟶* s
  next : {s t u : Status} → s ⟶ t → t ⟶* u → s ⟶* u

-- What a reservation is for.
pub record SameGoods (r q : Reservation) : Type 0 where
  pub same_id : q.reservation_id ≡ r.reservation_id
  pub same_user : q.user_id ≡ r.user_id
  pub same_activity : q.activity_id ≡ r.activity_id
  pub same_sku : q.sku_id ≡ r.sku_id
  pub same_quantity : q.quantity ≡ r.quantity
  pub same_mode : q.mode ≡ r.mode
  -- Confirm writes an order into a reservation that has none, and never another one.
  pub same_order : (q.order_id ≡ r.order_id) ⊎ (r.order_id ≡ "")
  pub created_once : q.created_at ≡ r.created_at

-- One call leaves a reservation as it is, or moves it along one edge.
pub data Stays (r q : Reservation) : Type 0 where
  unchanged : q ≡ r → Stays r q
  moved : SameGoods r q → r.status ⟶ q.status → Stays r q

abbrev Follows : String → Reservation → Ledger → Type 0
Follows id r u = (q : Reservation) × (lookup id u.reservations ≡ some q) × Stays r q

-- A key that an insertion writes, or another one.
insert_Follows :
    (id j : String) (r v : Reservation) (l : Ledger)
    → lookup id l.reservations ≡ some r
    → (j ≡ id → Stays r v)
    → (q : Reservation) × (lookup id (insert j v l.reservations) ≡ some q) × Stays r q
insert_Follows id j r v l found stays = elim (Bool-cases (str_eq j id)) [
  | inl same ↦ (v, rw (lookup-insert j id v l.reservations, same), stays (str_eq→eq j id same))
  | inr other ↦ (r, rw (lookup-insert j id v l.reservations, other) found, unchanged refl)
]

confirmed-Stays :
    (r : Reservation) (order_id : String) (now : ℕ)
    → r.status ≡ reserved
    → Stays r (confirmed_reservation r order_id now)
unfolding confirmed_reservation
confirmed-Stays r order_id now st =
    moved (ground (arith, eq_iff r.order_id "")) (subst (λ s. s ⟶ confirmed) (sym st) confirm_edge)

closed-Stays :
    (r : Reservation) (status : Status) (now : ℕ)
    → r.status ⟶ status
    → Stays r (closed_reservation r status now)
unfolding closed_reservation
closed-Stays r status now edge = moved (ground arith) edge

-- Two entries under one key are one.
one_entry :
    (id j : String) (p r : Reservation) (l : Ledger)
    → lookup id l.reservations ≡ some r
    → lookup j l.reservations ≡ some p
    → j ≡ id
    → p ≡ r
one_entry id j p r l found held same = cc

not_new :
    (id j : String) {r : Reservation} (l : Ledger)
    → lookup id l.reservations ≡ some r
    → lookup j l.reservations ≡ none
    → j ≢ id
not_new id j l found new same = cc

-- A reservation that the store holds is still held after a move.
Move-Follows :
    (id : String) (r : Reservation) (l u : Ledger)
    → lookup id l.reservations ≡ some r
    → Move l u
    → Follows id r u
unfolding hold count_purchase put give_back new_reservation new_admission
Move-Follows id r l u found (keep e) = (r, rw e found, unchanged refl)
Move-Follows id r l u found (reserves c now _ new _ e) = rw e (
    insert_Follows id c.reservation_id r (new_reservation c now) l found
      (λ same. absurd (not_new id c.reservation_id l found new same)))
Move-Follows id r l u found (admits c now _ _ new _ _ e) = rw e (
    insert_Follows id ("admit_" <> c.request_id) r (new_admission c now) l found
      (λ same. absurd (not_new id ("admit_" <> c.request_id) l found new same)))
Move-Follows id r l u found (confirms j order_id now p held st e) = rw e (
    insert_Follows id j r (confirmed_reservation p order_id now) l found (λ same.
      subst (λ x. Stays x (confirmed_reservation p order_id now))
        (one_entry id j p r l found held same) (confirmed-Stays p order_id now st)))
Move-Follows id r l u found (releases j now p held st e) = rw e (
    insert_Follows id j r (closed_reservation p released now) l found (λ same.
      subst (λ x. Stays x (closed_reservation p released now))
        (one_entry id j p r l found held same)
        (closed-Stays p released now (subst (λ s. s ⟶ released) (sym st) release_edge))))
Move-Follows id r l u found (restocks j now p held st e) = rw e (
    insert_Follows id j r (closed_reservation p restocked now) l found (λ same.
      subst (λ x. Stays x (closed_reservation p restocked now))
        (one_entry id j p r l found held same)
        (closed-Stays p restocked now (subst (λ s. s ⟶ restocked) (sym st) restock_edge))))

SameGoods-refl : (r : Reservation) → SameGoods r r
SameGoods-refl r = ground arith

SameGoods-trans : (r q p : Reservation) → SameGoods r q → SameGoods q p → SameGoods r p
SameGoods-trans r q p g h = ground arith

module _ {S : Type 0} (append : EventEnvelope → Action S String (Unit {0})) where
  -- After any history of calls, a reservation that the store held is held still, for the same goods
  -- and user, for the same order (unless it had none), and its status has moved along the edges
  -- reserved to confirmed, reserved to released and confirmed to restocked only.
  pub run_follows :
      (id : String) (r : Reservation) (cs : List (ℕ × Call)) (s : MemoryStore S)
      → lookup id s.reservations ≡ some r
      → (q : Reservation) × (lookup id (run append cs s).reservations ≡ some q)
        × SameGoods r q
        × (r.status ⟶* q.status)
  unfolding run
  run_follows id r [] s found = (r, found, SameGoods-refl r, here)
  run_follows id r ((now, c) ∷ cs) s found =
      let (p, held, stays) =
        Move-Follows id r s.ledger (perform append c now s).1.ledger found
          (perform-Move append c now s) in
      let (q, last, goods, path) = run_follows id p cs (perform append c now s).1 held in
      elim stays [
        | unchanged e ↦
            subst
              (λ x.
                (q : Reservation) × (lookup id
                    (run append cs (perform append c now s).1).reservations
                  ≡ some q)
                × SameGoods x q
                × (x.status ⟶* q.status))
              e (q, last, goods, path)
        | moved g edge ↦ (q, last, SameGoods-trans r p q g goods, next edge path)
      ]

-- No edge leaves the states released, restocked and expired.
pub final_released : {s t : Status} → s ⟶* t → s ≡ released → t ≡ released
final_released here e = e
final_released (next confirm_edge path) e = cc
final_released (next release_edge path) e = cc
final_released (next restock_edge path) e = cc

pub final_expired : {s t : Status} → s ⟶* t → s ≡ expired → t ≡ expired
final_expired here e = e
final_expired (next confirm_edge path) e = cc
final_expired (next release_edge path) e = cc
final_expired (next restock_edge path) e = cc
