-- ===== src/Inventory/Moves.antt =====
-- What a call of the inventory store does to its maps, as a step relation: nothing, a new
-- reservation, or one edge of the reservation's life.
use seckill_mall.Base.{
  ℕ, ◌<◌, ◌≡◌, refl, ◌⊎◌, inl, inr, String, ◌<>◌, false, none, some, ℤ, pos_part, neg_part, ltb_ℤ,
  add32, arith, ok, Action, lookup, Option-cases, Bool-cases, Result-cases, is_ok, ap, ◌>>=◌, ◌>>◌,
  subst, sym, ◌∙◌, after_bind,
}
use seckill_mall.Contracts.Events.{EventEnvelope, inventory_reserved, seckill_accepted}
use seckill_mall.Inventory.Model.{
  Status, reserved, confirmed, released, restocked, Reservation, ReserveCommand, Error,
  SeckillAdmissionCommand, validate_reserve_command, validate_admission,
}
use seckill_mall.Inventory.Ledger.{
  Ledger, new_reservation, new_admission, confirmed_reservation, closed_reservation, key_of, hold,
  count_purchase, give_back, put,
}
use seckill_mall.Inventory.Store.{
  MemoryStore, append_event, find_reservation, commit, reserve_found, admit_found, reserve_new,
  reserve_again, confirm_found, close_reservation, release_found, restock_found, admit_new,
  admit_again, reserve, confirm, release, restock, admit_seckill,
}

abbrev pub IsPositive : ℤ → Type 0
IsPositive q = (neg_part q ≡ 0) × (0 < pos_part q)

pub data Move (l u : Ledger) : Type 0 where
  keep : u ≡ l → Move l u
  reserves :
      (c : ReserveCommand) (now : ℕ)
      → IsPositive c.quantity
      → lookup c.reservation_id l.reservations ≡ none
      → ltb_ℤ (l.stock c.sku_id) c.quantity ≡ false
      → u ≡ hold (new_reservation c now) l
      → Move l u
  admits :
      (c : SeckillAdmissionCommand) (now : ℕ)
      → IsPositive c.quantity
      → 0 < c.activity_id
      → lookup ("admit_" <> c.request_id) l.reservations ≡ none
      → ltb_ℤ l.limit (add32 (l.purchased (key_of (new_admission c now))) c.quantity) ≡ false
      → ltb_ℤ (l.stock c.sku_id) c.quantity ≡ false
      → u ≡ count_purchase (new_admission c now) (hold (new_admission c now) l)
      → Move l u
  confirms :
      (id order_id : String) (now : ℕ) (r : Reservation)
      → lookup id l.reservations ≡ some r
      → r.status ≡ reserved
      → u ≡ put id (confirmed_reservation r order_id now) l
      → Move l u
  releases :
      (id : String) (now : ℕ) (r : Reservation)
      → lookup id l.reservations ≡ some r
      → r.status ≡ reserved
      → u ≡ give_back id (closed_reservation r released now) l
      → Move l u
  restocks :
      (id : String) (now : ℕ) (r : Reservation)
      → lookup id l.reservations ≡ some r
      → r.status ≡ confirmed
      → u ≡ give_back id (closed_reservation r restocked now) l
      → Move l u

validate_reserve_command-IsPositive :
    (c : ReserveCommand) {u : Unit {0}} → validate_reserve_command c ≡ ok u → IsPositive c.quantity
unfolding validate_reserve_command
validate_reserve_command-IsPositive c h = ground arith

validate_admission-IsPositive :
    (c : SeckillAdmissionCommand) {u : Unit {0}}
    → validate_admission c ≡ ok u
    → IsPositive c.quantity × (0 < c.activity_id)
unfolding validate_admission
validate_admission-IsPositive c h = ground arith

module _ {S : Type 0} (append : EventEnvelope → Action S String (Unit {0})) where
  -- Appending an event touches the event stream alone.
  pub ledger-append_event :
      (t : String) (r : Reservation) (now : ℕ) (s : MemoryStore S)
      → (append_event append t r now s).1.ledger ≡ s.ledger
  unfolding append_event
  ledger-append_event t r now s = ground arith

  -- A commit fails and writes nothing, or makes its writes.
  pub commit_cases :
      (t : String) (r : Reservation) (f : Ledger → Ledger) (now : ℕ) (s : MemoryStore S)
      → let (result, s') = commit append t r f now s in
        ((s'.ledger ≡ s.ledger) × (is_ok result ≡ false))
        ⊎ ((s'.ledger ≡ f s.ledger) × (result ≡ ok r))
  unfolding commit append_event
  commit_cases t r f now s = ground arith

  after_commit :
      (P : Ledger → Type 0) (t : String) (r : Reservation) (f : Ledger → Ledger) (now : ℕ)
      (s : MemoryStore S)
      → P s.ledger
      → ((u : Ledger) → u ≡ f s.ledger → P u)
      → P (commit append t r f now s).1.ledger
  after_commit P t r f now s unchanged moved = elim (commit_cases t r f now s) [
    | inl (same, _) ↦ subst P (sym same) unchanged
    | inr (done, _) ↦ moved _ done
  ]

  reserve_new-Move :
      (c : ReserveCommand) (now : ℕ) (s : MemoryStore S)
      → IsPositive c.quantity
      → lookup c.reservation_id s.reservations ≡ none
      → Move s.ledger (reserve_new append c now s).1.ledger
  unfolding reserve_new
  reserve_new-Move c now s p new = elim (Bool-cases (ltb_ℤ (s.stock c.sku_id) c.quantity)) [
    | inl short ↦ rw short (keep refl)
    | inr enough ↦
        rw enough
          (after_commit (Move s.ledger) _ _ _ now s (keep refl) (λ _. reserves c now p new enough))
  ]

  -- A repeated Reserve changes nothing, whatever it answers.
  pub reserve_again_lem :
      (c : ReserveCommand) (r : Reservation) (s : MemoryStore S)
      → (reserve_again append c r s).1 ≡ s
  unfolding reserve_again
  reserve_again_lem c r s = ground arith

  pub reserve-Move :
      (c : ReserveCommand) (now : ℕ) (s : MemoryStore S)
      → Move s.ledger (reserve append c now s).1.ledger
  unfolding reserve reserve_found
  reserve-Move c now s = elim (Result-cases (validate_reserve_command c)) [
    | inr (_, bad) ↦ rw bad (keep refl)
    | inl (_, good) ↦ rw good (elim (Option-cases (lookup c.reservation_id s.reservations)) [
      | inl new ↦
          rw (new, reserve_found)
            (reserve_new-Move c now s (validate_reserve_command-IsPositive c good) new)
      | inr (r, old) ↦
          rw (old, reserve_found)
            (keep (ap (λ (t : MemoryStore S). t.ledger) (reserve_again_lem c r s)))
    ])
  ]

  -- A step after an announcement starts from the same maps.
  announced :
      (P : Ledger → Type 0) (t : String) (r : Reservation) (now : ℕ)
      (k : Action (MemoryStore S) Error Reservation) (s : MemoryStore S)
      → P s.ledger
      → ((s' : MemoryStore S) → s'.ledger ≡ s.ledger → P (k s').1.ledger)
      → P ((append_event append t r now >> k) s).1.ledger
  announced P t r now k s unchanged next =
      after_bind (λ s'. P s'.ledger) (append_event append t r now) (λ _. k) s
        (λ _ _. rw (ledger-append_event t r now s) unchanged)
        (λ _ _. next _ (ledger-append_event t r now s))

  admit_new-Move :
      (c : SeckillAdmissionCommand) (now : ℕ) (s : MemoryStore S)
      → IsPositive c.quantity
      → 0 < c.activity_id
      → lookup ("admit_" <> c.request_id) s.reservations ≡ none
      → Move s.ledger (admit_new append c now s).1.ledger
  unfolding admit_new
  admit_new-Move c now s p a new =
      elim (Bool-cases
        (ltb_ℤ s.limit (add32 (s.purchased (key_of (new_admission c now))) c.quantity))) [
          | inl over ↦ rw over (keep refl)
          | inr within ↦ rw within (elim (Bool-cases (ltb_ℤ (s.stock c.sku_id) c.quantity)) [
            | inl short ↦ rw short (keep refl)
            | inr enough ↦ rw enough (
                announced (λ l. Move s.ledger l) seckill_accepted (new_admission c now) now
                  (commit append inventory_reserved (new_admission c now) writes now) s (keep refl)
                  (λ s' same.
                    after_commit (λ l. Move s.ledger l) _ _ writes now s' (keep same)
                      (λ u moved. admits c now p a new within enough (moved ∙ ap writes same))))
          ])
        ]
    where
      writes : Ledger → Ledger
      writes l = count_purchase (new_admission c now) (hold (new_admission c now) l)

  pub admit_again_lem :
      (c : SeckillAdmissionCommand) (r : Reservation) (s : MemoryStore S)
      → (admit_again append c r s).1 ≡ s
  unfolding admit_again
  admit_again_lem c r s = ground arith

  pub admit_seckill-Move :
      (c : SeckillAdmissionCommand) (now : ℕ) (s : MemoryStore S)
      → Move s.ledger (admit_seckill append c now s).1.ledger
  unfolding admit_seckill admit_found
  admit_seckill-Move c now s = elim (Result-cases (validate_admission c)) [
    | inr (_, bad) ↦ rw bad (keep refl)
    | inl (_, good) ↦
        rw good (elim (Option-cases (lookup ("admit_" <> c.request_id) s.reservations)) [
          | inl new ↦
              let valid = validate_admission-IsPositive c good in
              rw (new, admit_found) (admit_new-Move c now s valid.0 valid.1 new)
          | inr (r, old) ↦
              rw (old, admit_found)
                (keep (ap (λ (t : MemoryStore S). t.ledger) (admit_again_lem c r s)))
        ])
  ]

  -- Looking a reservation up changes nothing, and finds one that the store holds.
  pub find_reservation-state :
      (id order_id : String) (s : MemoryStore S) → (find_reservation id order_id s).1 ≡ s
  unfolding find_reservation
  find_reservation-state id order_id s = ground arith

  find_reservation-held :
      (id order_id : String) (s : MemoryStore S) {r : Reservation}
      → (find_reservation id order_id s).0 ≡ ok r
      → lookup id s.reservations ≡ some r
  unfolding find_reservation
  find_reservation-held id order_id s e = ground arith

  confirm_found-Move :
      (id order_id : String) (now : ℕ) (r : Reservation) (s : MemoryStore S)
      → lookup id s.reservations ≡ some r
      → (st : Status) → r.status ≡ st
      → Move s.ledger (confirm_found append id order_id now st r s).1.ledger
  unfolding confirm_found
  confirm_found-Move id order_id now r s held confirmed e = keep refl
  confirm_found-Move id order_id now r s held reserved e = confirms id order_id now r held e refl
  confirm_found-Move id order_id now r s held _ e = keep refl

  release_found-Move :
      (id : String) (now : ℕ) (r : Reservation) (s : MemoryStore S)
      → lookup id s.reservations ≡ some r
      → (st : Status) → r.status ≡ st
      → Move s.ledger (release_found append id now st r s).1.ledger
  unfolding release_found close_reservation
  release_found-Move id now r s held reserved e =
      after_commit (Move s.ledger) _ _ _ now s (keep refl) (λ _. releases id now r held e)
  release_found-Move id now r s held _ e = keep refl

  restock_found-Move :
      (id : String) (now : ℕ) (r : Reservation) (s : MemoryStore S)
      → lookup id s.reservations ≡ some r
      → (st : Status) → r.status ≡ st
      → Move s.ledger (restock_found append id now st r s).1.ledger
  unfolding restock_found close_reservation
  restock_found-Move id now r s held confirmed e =
      after_commit (Move s.ledger) _ _ _ now s (keep refl) (λ _. restocks id now r held e)
  restock_found-Move id now r s held _ e = keep refl

  -- An operation that looks a reservation up first.
  found-Move :
      (id order_id : String) (f : Reservation → Action (MemoryStore S) Error Reservation)
      (s : MemoryStore S)
      → ((r : Reservation) → lookup id s.reservations ≡ some r → Move s.ledger (f r s).1.ledger)
      → Move s.ledger ((find_reservation id order_id >>= f) s).1.ledger
  found-Move id order_id f s move =
      after_bind (λ s'. Move s.ledger s'.ledger) (find_reservation id order_id) f s
        (λ _ _. rw (find_reservation-state id order_id s) (keep refl))
        (λ r found.
          rw (find_reservation-state id order_id s)
            (move r (find_reservation-held id order_id s found)))

  pub confirm-Move :
      (id order_id : String) (now : ℕ) (s : MemoryStore S)
      → Move s.ledger (confirm append id order_id now s).1.ledger
  unfolding confirm
  confirm-Move id order_id now s =
      found-Move id order_id (λ r. confirm_found append id order_id now r.status r) s
        (λ r held. confirm_found-Move id order_id now r s held r.status refl)

  pub release-Move :
      (id order_id : String) (now : ℕ) (s : MemoryStore S)
      → Move s.ledger (release append id order_id now s).1.ledger
  unfolding release
  release-Move id order_id now s =
      found-Move id order_id (λ r. release_found append id now r.status r) s
        (λ r held. release_found-Move id now r s held r.status refl)

  pub restock-Move :
      (id order_id : String) (now : ℕ) (s : MemoryStore S)
      → Move s.ledger (restock append id order_id now s).1.ledger
  unfolding restock
  restock-Move id order_id now s =
      found-Move id order_id (λ r. restock_found append id now r.status r) s
        (λ r held. restock_found-Move id now r s held r.status refl)
