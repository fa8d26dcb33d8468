-- ===== src/Inventory/Store.antt =====
-- services/inventory/internal/app/memory_store.go: the store and its operations. Each holds the
-- mutex from its first read to its last write, so a call is one step. The event stream is the
-- interface EventStream of repository.go: a state of type S and its `append`.
use seckill_mall.Base.{
  ℕ, String, ◌<>◌, ◌&&◌, not, Option, none, some, ℤ, pos, ltb_ℤ, add32, str_eq, if◌then◌else◌,
  Result, ok, err, Action, pure, fail, lift, gets, fail_if, ◌>>=◌, ◌>>◌, lookup,
}
use seckill_mall.Contracts.Events.{
  EventEnvelope, new_event_envelope, seckill_accepted, inventory_reserved, inventory_released,
  inventory_restocked,
}
use seckill_mall.Contracts.Payloads.{inventory_reservation_json}
use seckill_mall.Inventory.Ledger.{
  Ledger, new_ledger, new_reservation, new_admission, confirmed_reservation, closed_reservation,
  key_of, hold, count_purchase, give_back, put,
}
use seckill_mall.Inventory.Model.{
  Status, reserved, confirmed, released, restocked, expired, Reservation, ReserveCommand,
  SeckillAdmissionCommand, Error, invalid_request, not_found, out_of_stock, purchase_limit,
  conflict, event_error, valid_opaque_id, validate_reserve_command, validate_admission,
  same_reservation, same_admission, is_reserved,
}

pub record MemoryStore (S : Type 0) : Type 0 where
  pub ledger : Ledger
  pub open ledger use *
  pub event_stream : Option S

-- NewMemoryStore, and SetEventStream
unfoldable pub new_memory_store : {S : Type 0} → (ℕ → ℤ) → ℤ → Option S → MemoryStore S
new_memory_store stock limit stream = record {
  ledger = new_ledger stock limit;
  event_stream = stream;
}

-- The envelope that appendEvent builds.
unfoldable pub reservation_event : String → Reservation → ℕ → Result String EventEnvelope
reservation_event event_type r now =
    new_event_envelope (event_type <> (":" <> r.reservation_id)) event_type "reservation"
      r.reservation_id (pos 1)
      (inventory_reservation_json (record {
        reservation_id = r.reservation_id;
        order_id = r.order_id;
        user_id = r.user_id;
        sku_id = r.sku_id;
        quantity = r.quantity;
        mode = r.mode;
      }))
      now

module _ {S : Type 0} where
  -- The writes of an operation.
  abbrev write : (Ledger → Ledger) → Action (MemoryStore S) Error (Unit {0})
  write f s = (ok tt, record s { ledger = f s.ledger })

  -- findReservation
  unfoldable pub find_reservation : String → String → Action (MemoryStore S) Error Reservation
  find_reservation id order_id s =
      if not (valid_opaque_id id)
      then (err invalid_request, s)
      else elim (lookup id s.reservations) [
        | none ↦ (err not_found, s)
        | some r ↦
            if not (str_eq order_id "")
              && (not (str_eq r.order_id "") && not (str_eq r.order_id order_id))
            then (err conflict, s)
            else (ok r, s)
      ]

module _ {S : Type 0} (append : EventEnvelope → Action S String (Unit {0})) where
  -- The stream's answer, with the stream as it is afterwards.
  unfoldable pub appended :
      MemoryStore S → Result String (Unit {0}) × S → Result Error (Unit {0}) × MemoryStore S
  appended s (ok _, t) = (ok tt, record s { event_stream = some t })
  appended s (err reason, t) = (err (event_error reason), record s { event_stream = some t })

  -- appendEvent
  unfoldable pub append_event : String → Reservation → ℕ → Action (MemoryStore S) Error (Unit {0})
  unfolding appended
  append_event event_type r now s = elim s.event_stream [
    | none ↦ (ok tt, s)
    | some t ↦ elim (reservation_event event_type r now) [
      | err reason ↦ (err (event_error reason), s)
      | ok event ↦ appended s (append event t)
    ]
  ]

  -- The end that the operations share: the event goes out before the maps are written.
  unfoldable pub commit :
      String → Reservation → (Ledger → Ledger) → ℕ → Action (MemoryStore S) Error Reservation
  commit event_type r writes now = do append_event event_type r now; write writes; pure r

  unfoldable pub reserve_new : ReserveCommand → ℕ → Action (MemoryStore S) Error Reservation
  reserve_new c now = do
    let r = new_reservation c now
    available ← gets (λ s. s.stock c.sku_id)
    fail_if (ltb_ℤ available c.quantity) out_of_stock
    commit inventory_reserved r (hold r) now

  unfoldable pub reserve_again :
      ReserveCommand → Reservation → Action (MemoryStore S) Error Reservation
  reserve_again c existing = do
    fail_if (not (same_reservation existing c)) conflict
    fail_if (not (is_reserved existing.status)) conflict
    pure existing

  unfoldable pub reserve_found :
      ReserveCommand → ℕ → Option Reservation → Action (MemoryStore S) Error Reservation
  reserve_found c now none = reserve_new c now
  reserve_found c now (some existing) = reserve_again c existing

  -- Reserve
  unfoldable pub reserve : ReserveCommand → ℕ → Action (MemoryStore S) Error Reservation
  reserve c now = do
    lift (validate_reserve_command c)
    found ← gets (λ s. lookup c.reservation_id s.reservations)
    reserve_found c now found

  unfoldable pub confirm_found :
      String → String → ℕ → Status → Reservation → Action (MemoryStore S) Error Reservation
  confirm_found id order_id now confirmed r = pure r
  confirm_found id order_id now reserved r = do
    write (put id (confirmed_reservation r order_id now))
    pure (confirmed_reservation r order_id now)
  confirm_found id order_id now _ r = fail conflict

  -- Confirm
  unfoldable pub confirm : String → String → ℕ → Action (MemoryStore S) Error Reservation
  confirm id order_id now = do
    r ← find_reservation id order_id
    confirm_found id order_id now r.status r

  -- The branch of Release and of Restock that moves a reservation to its last status.
  unfoldable pub close_reservation :
      String → String → Status → ℕ → Reservation → Action (MemoryStore S) Error Reservation
  close_reservation id event_type status now r =
      let closed = closed_reservation r status now in
      commit event_type closed (give_back id closed) now

  unfoldable pub release_found :
      String → ℕ → Status → Reservation → Action (MemoryStore S) Error Reservation
  release_found id now released r = pure r
  release_found id now expired r = pure r
  release_found id now reserved r = close_reservation id inventory_released released now r
  release_found id now _ r = fail conflict

  -- Release
  unfoldable pub release : String → String → ℕ → Action (MemoryStore S) Error Reservation
  release id order_id now = do r ← find_reservation id order_id; release_found id now r.status r

  unfoldable pub restock_found :
      String → ℕ → Status → Reservation → Action (MemoryStore S) Error Reservation
  restock_found id now restocked r = pure r
  restock_found id now confirmed r = close_reservation id inventory_restocked restocked now r
  restock_found id now _ r = fail conflict

  -- Restock
  unfoldable pub restock : String → String → ℕ → Action (MemoryStore S) Error Reservation
  restock id order_id now = do r ← find_reservation id order_id; restock_found id now r.status r

  unfoldable pub admit_new : SeckillAdmissionCommand → ℕ → Action (MemoryStore S) Error Reservation
  admit_new c now = do
    let r = new_admission c now
    bought ← gets (λ s. s.purchased (key_of r))
    limit ← gets (λ s. s.limit)
    fail_if (ltb_ℤ limit (add32 bought c.quantity)) purchase_limit
    available ← gets (λ s. s.stock c.sku_id)
    fail_if (ltb_ℤ available c.quantity) out_of_stock
    append_event seckill_accepted r now
    commit inventory_reserved r (λ l. count_purchase r (hold r l)) now

  unfoldable pub admit_again :
      SeckillAdmissionCommand → Reservation → Action (MemoryStore S) Error Reservation
  admit_again c existing = do
    fail_if (not (same_admission existing c)) conflict
    fail_if (not (is_reserved existing.status)) conflict
    pure existing

  unfoldable pub admit_found :
      SeckillAdmissionCommand → ℕ → Option Reservation → Action (MemoryStore S) Error Reservation
  admit_found c now none = admit_new c now
  admit_found c now (some existing) = admit_again c existing

  -- AdmitSeckill
  unfoldable pub admit_seckill :
      SeckillAdmissionCommand → ℕ → Action (MemoryStore S) Error Reservation
  admit_seckill c now = do
    lift (validate_admission c)
    found ← gets (λ s. lookup ("admit_" <> c.request_id) s.reservations)
    admit_found c now found
