-- ===== src/Inventory/Failures.antt =====
-- services/inventory/internal/app/memory_store.go: calls that fail.
use seckill_mall.Base.{
  ℕ, ◌≡◌, refl, inl, inr, ◌∙◌, String, ◌<>◌, arith, lookup, Action, Result, err, Result-cases,
  Option-cases, Bool-cases, ltb_ℤ, add32, ◌>>=◌, err_bind, ap,
}
use seckill_mall.Contracts.Events.{EventEnvelope, inventory_reserved, seckill_accepted}
use seckill_mall.Inventory.Model.{
  Status, reserved, confirmed, Reservation, ReserveCommand, Error, SeckillAdmissionCommand,
  validate_reserve_command, validate_admission,
}
use seckill_mall.Inventory.Ledger.{Ledger, new_admission, key_of, hold, count_purchase}
use seckill_mall.Inventory.Store.{
  MemoryStore, append_event, commit, find_reservation, reserve_found, admit_found, reserve_new,
  confirm_found, close_reservation, release_found, restock_found, admit_new, reserve, confirm,
  release, restock, admit_seckill,
}
use seckill_mall.Inventory.Moves.{
  commit_cases, ledger-append_event, reserve_again_lem, admit_again_lem, find_reservation-state,
}
use seckill_mall.Inventory.Calls.{Call, perform}

-- If the call fails, the maps are those of `l`.
abbrev pub Refuses : {S : Type 0} → Ledger → Result Error Reservation × MemoryStore S → Type 0
Refuses l x = (e : Error) → x.0 ≡ err e → x.1.ledger ≡ l

module _ {S : Type 0} (append : EventEnvelope → Action S String (Unit {0})) where
  commit-Refuses :
      (t : String) (r : Reservation) (f : Ledger → Ledger) (now : ℕ) (s : MemoryStore S)
      → Refuses s.ledger (commit append t r f now s)
  commit-Refuses t r f now s e h = elim (commit_cases append t r f now s) [
    | inl (same, _) ↦ same
    | inr (_, done) ↦ absurd (ground arith)
  ]

  reserve_new-Refuses :
      (c : ReserveCommand) (now : ℕ) (s : MemoryStore S)
      → Refuses s.ledger (reserve_new append c now s)
  unfolding reserve_new
  reserve_new-Refuses c now s = elim (Bool-cases (ltb_ℤ (s.stock c.sku_id) c.quantity)) [
    | inl short ↦ rw short (λ e h. refl)
    | inr enough ↦ rw enough (commit-Refuses _ _ _ now s)
  ]

  reserve-Refuses :
      (c : ReserveCommand) (now : ℕ) (s : MemoryStore S) → Refuses s.ledger (reserve append c now s)
  unfolding reserve reserve_found
  reserve-Refuses c now s = elim (Result-cases (validate_reserve_command c)) [
    | inr (_, bad) ↦ rw bad (λ e h. refl)
    | inl (_, good) ↦ rw good (elim (Option-cases (lookup c.reservation_id s.reservations)) [
      | inl new ↦ rw (new, reserve_found) (reserve_new-Refuses c now s)
      | inr (r, old) ↦
          rw (old, reserve_found)
            (λ e h. ap (λ (t : MemoryStore S). t.ledger) (reserve_again_lem append c r s))
    ])
  ]

  admit_new-Refuses :
      (c : SeckillAdmissionCommand) (now : ℕ) (s : MemoryStore S)
      → Refuses s.ledger (admit_new append c now s)
  unfolding admit_new
  admit_new-Refuses c now s =
      elim (Bool-cases
        (ltb_ℤ s.limit (add32 (s.purchased (key_of (new_admission c now))) c.quantity))) [
          | inl over ↦ rw over (λ e h. refl)
          | inr within ↦ rw within (elim (Bool-cases (ltb_ℤ (s.stock c.sku_id) c.quantity)) [
            | inl short ↦ rw short (λ e h. refl)
            | inr enough ↦ rw enough (
                err_bind (λ _ t. t.ledger ≡ s.ledger)
                  (append_event append seckill_accepted (new_admission c now) now)
                  (λ _.
                    commit append inventory_reserved (new_admission c now)
                      (λ l. count_purchase (new_admission c now) (hold (new_admission c now) l))
                      now)
                  s (λ _ _. ledger-append_event append _ _ _ s)
                  (λ _ _ e h.
                    commit-Refuses _ _ _ now _ e h
                    ∙ ledger-append_event append seckill_accepted (new_admission c now) now s))
          ])
        ]

  admit_seckill-Refuses :
      (c : SeckillAdmissionCommand) (now : ℕ) (s : MemoryStore S)
      → Refuses s.ledger (admit_seckill append c now s)
  unfolding admit_seckill admit_found
  admit_seckill-Refuses c now s = elim (Result-cases (validate_admission c)) [
    | inr (_, bad) ↦ rw bad (λ e h. refl)
    | inl (_, good) ↦
        rw good (elim (Option-cases (lookup ("admit_" <> c.request_id) s.reservations)) [
          | inl new ↦ rw (new, admit_found) (admit_new-Refuses c now s)
          | inr (r, old) ↦
              rw (old, admit_found)
                (λ e h. ap (λ (t : MemoryStore S). t.ledger) (admit_again_lem append c r s))
        ])
  ]

  confirm_found-Refuses :
      (id order_id : String) (now : ℕ) (r : Reservation) (s : MemoryStore S) (st : Status)
      → Refuses s.ledger (confirm_found append id order_id now st r s)
  unfolding confirm_found
  confirm_found-Refuses id order_id now r s reserved e h = cc
  confirm_found-Refuses id order_id now r s _ e h = refl

  release_found-Refuses :
      (id : String) (now : ℕ) (r : Reservation) (s : MemoryStore S) (st : Status)
      → Refuses s.ledger (release_found append id now st r s)
  unfolding release_found close_reservation
  release_found-Refuses id now r s reserved e h = commit-Refuses _ _ _ now s e h
  release_found-Refuses id now r s _ e h = refl

  restock_found-Refuses :
      (id : String) (now : ℕ) (r : Reservation) (s : MemoryStore S) (st : Status)
      → Refuses s.ledger (restock_found append id now st r s)
  unfolding restock_found close_reservation
  restock_found-Refuses id now r s confirmed e h = commit-Refuses _ _ _ now s e h
  restock_found-Refuses id now r s _ e h = refl

  found-Refuses :
      (id order_id : String) (f : Reservation → Action (MemoryStore S) Error Reservation)
      (s : MemoryStore S)
      → ((r : Reservation) → Refuses s.ledger (f r s))
      → Refuses s.ledger ((find_reservation id order_id >>= f) s)
  found-Refuses id order_id f s next =
      err_bind (λ _ t. t.ledger ≡ s.ledger) (find_reservation id order_id) f s
        (λ _ _. rw (find_reservation-state append id order_id s))
        (λ r _. rw (find_reservation-state append id order_id s) (next r))

  -- A call that fails, for whatever reason, has changed no stock, no reservation and no purchase
  -- counter.
  pub perform-Refuses :
      (c : Call) (now : ℕ) (s : MemoryStore S) → Refuses s.ledger (perform append c now s)
  unfolding perform confirm release restock
  perform-Refuses (Call.reserves c) now s = reserve-Refuses c now s
  perform-Refuses (Call.admits c) now s = admit_seckill-Refuses c now s
  perform-Refuses (Call.confirms id order_id) now s =
      found-Refuses id order_id (λ r. confirm_found append id order_id now r.status r) s
        (λ r. confirm_found-Refuses id order_id now r s r.status)
  perform-Refuses (Call.releases id order_id) now s =
      found-Refuses id order_id (λ r. release_found append id now r.status r) s
        (λ r. release_found-Refuses id now r s r.status)
  perform-Refuses (Call.restocks id order_id) now s =
      found-Refuses id order_id (λ r. restock_found append id now r.status r) s
        (λ r. restock_found-Refuses id now r s r.status)
