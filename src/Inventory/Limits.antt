-- ===== src/Inventory/Limits.antt =====
-- services/inventory/internal/app/memory_store.go: what Reserve does with the purchase limit and with the
-- counters of the purchases.
use seckill_mall.Base.{
  ℕ, ◌≡◌, refl, ap, ◌∙◌, ◌>>=◌, String, ℤ, Result, Action, lookup, Bool-cases, Option-cases,
  Result-cases, inl, inr, ltb_ℤ, not,
}
use seckill_mall.Contracts.Events.{EventEnvelope, inventory_reserved}
use seckill_mall.Inventory.Model.{
  Reservation, ReserveCommand, Error, validate_reserve_command, same_reservation, is_reserved,
}
use seckill_mall.Inventory.Ledger.{Ledger, hold, new_reservation}
use seckill_mall.Inventory.Moves.{ledger-append_event}
use seckill_mall.Inventory.Store.{
  MemoryStore, reservation_event, appended, append_event, commit, reserve_new, reserve_again,
  reserve_found, reserve,
}

-- The store with another purchase limit.
abbrev pub limited : {S : Type 0} → ℤ → MemoryStore S → MemoryStore S
limited limit s = record s { ledger = record s.ledger { limit = limit } }

-- The call answers the same, and leaves the same counters, under any limit.
abbrev pub IsUnlimited :
    {S : Type 0}
    → ℤ
    → MemoryStore S
    → (MemoryStore S → Result Error Reservation × MemoryStore S)
    → Type 0
IsUnlimited limit s call =
    ((call s).1.purchased ≡ s.purchased) × ((call (limited limit s)).0 ≡ (call s).0)

module _ {S : Type 0} (append : EventEnvelope → Action S String (Unit {0})) where
  append_same :
      (r : Reservation) (now : ℕ) (limit : ℤ) (s : MemoryStore S)
      → (append_event append inventory_reserved r now (limited limit s)).0
        ≡ (append_event append inventory_reserved r now s).0
  unfolding append_event appended
  append_same r now limit s = elim (Option-cases s.event_stream) [
    | inl nowhere ↦ rw (nowhere, append_event) refl
    | inr (t, there) ↦ elim (Result-cases (reservation_event inventory_reserved r now)) [
      | inr (reason, bad) ↦ rw (there, bad, append_event) refl
      | inl (event, good) ↦ elim (Result-cases (append event t).0) [
        | inr (reason, refused) ↦ rw (there, good, refused, append_event, appended) refl
        | inl (_, taken) ↦ rw (there, good, taken, append_event, appended) refl
      ]
    ]
  ]

  commit-IsUnlimited :
      (r : Reservation) (now : ℕ) (limit : ℤ) (s : MemoryStore S)
      → IsUnlimited limit s (commit append inventory_reserved r (hold r) now)
  unfolding commit hold
  commit-IsUnlimited r now limit s =
      let kept = ledger-append_event append inventory_reserved r now s in
      let counters = ap (λ (l : Ledger). l.purchased) kept in
      let same = append_same r now limit s in
      elim (Result-cases (append_event append inventory_reserved r now s).0) [
        | inr (e, bad) ↦ rw (bad, commit, ◌>>=◌) (counters, rw (same ∙ bad, ◌>>=◌) refl)
        | inl (_, good) ↦ rw (good, commit, ◌>>=◌) (counters, rw (same ∙ good, ◌>>=◌) refl)
      ]

  new-IsUnlimited :
      (c : ReserveCommand) (now : ℕ) (limit : ℤ) (s : MemoryStore S)
      → IsUnlimited limit s (reserve_new append c now)
  unfolding reserve_new
  new-IsUnlimited c now limit s = elim (Bool-cases (ltb_ℤ (s.stock c.sku_id) c.quantity)) [
    | inl short ↦ rw short (refl, refl)
    | inr enough ↦ rw enough (commit-IsUnlimited (new_reservation c now) now limit s)
  ]

  again-IsUnlimited :
      (c : ReserveCommand) (existing : Reservation) (limit : ℤ) (s : MemoryStore S)
      → IsUnlimited limit s (reserve_again append c existing)
  unfolding reserve_again
  again-IsUnlimited c existing limit s = elim (Bool-cases (not (same_reservation existing c))) [
    | inl other ↦ rw other (refl, refl)
    | inr same ↦ elim (Bool-cases (not (is_reserved existing.status))) [
      | inl over ↦ rw (same, over) (refl, refl)
      | inr held ↦ rw (same, held) (refl, refl)
    ]
  ]

  pub reserve-IsUnlimited :
      (c : ReserveCommand) (now : ℕ) (limit : ℤ) (s : MemoryStore S)
      → IsUnlimited limit s (reserve append c now)
  unfolding reserve reserve_found
  reserve-IsUnlimited c now limit s = elim (Result-cases (validate_reserve_command c)) [
    | inr (_, bad) ↦ rw bad (refl, refl)
    | inl (_, good) ↦ elim (Option-cases (lookup c.reservation_id s.reservations)) [
      | inl new ↦ rw (good, new, reserve_found) (new-IsUnlimited c now limit s)
      | inr (existing, known) ↦
          rw (good, known, reserve_found) (again-IsUnlimited c existing limit s)
    ]
  ]
