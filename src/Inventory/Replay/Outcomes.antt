-- ===== src/Inventory/Replay/Outcomes.antt =====
-- What a successful call of the inventory store answers and leaves behind.
use seckill_mall.Base.{
  ℕ, ◌≡◌, ◌⊎◌, inl, inr, String, true, some, arith, lookup, Action, Result, ok, str_eq, sym, subst₂,
}
use seckill_mall.Contracts.Events.{EventEnvelope}
use seckill_mall.Inventory.Model.{Status, released, expired, Reservation, Error, valid_opaque_id}
use seckill_mall.Inventory.Ledger.{Ledger}
use seckill_mall.Inventory.Store.{MemoryStore, commit}
use seckill_mall.Inventory.Moves.{commit_cases}

-- What a successful call answers, and leaves behind.
abbrev pub Answers :
    {S : Type 0}
    → (Reservation → MemoryStore S → Type 0)
    → Result Error Reservation × MemoryStore S
    → Type 0
Answers Q x = (r : Reservation) → x.0 ≡ ok r → Q r x.1

-- The reservation that a call answered stands in the store, in the given state.
abbrev pub Kept : {S : Type 0} → String → Status → Reservation → MemoryStore S → Type 0
Kept id status r s = (lookup id s.reservations ≡ some r) × (r.status ≡ status)

-- A reservation that a later lookup with the same arguments finds again.
abbrev pub Findable : {S : Type 0} → String → String → Reservation → MemoryStore S → Type 0
Findable id order_id r s =
    (valid_opaque_id id ≡ true)
    × (lookup id s.reservations ≡ some r)
    × ((str_eq order_id "" ≡ true)
        ⊎ ((str_eq r.order_id "" ≡ true) ⊎ (str_eq r.order_id order_id ≡ true)))

-- Release answers a reservation that is released, or was found expired.
abbrev pub IsOver : Status → Type 0
IsOver st = (st ≡ released) ⊎ (st ≡ expired)

module _ {S : Type 0} (append : EventEnvelope → Action S String (Unit {0})) where
  pub commit-Answers :
      (Q : Reservation → Ledger → Type 0) (t : String) (r : Reservation) (f : Ledger → Ledger)
      (now : ℕ) (s : MemoryStore S)
      → Q r (f s.ledger)
      → Answers (λ q s'. Q q s'.ledger) (commit append t r f now s)
  commit-Answers Q t r f now s q p h = elim (commit_cases append t r f now s) [
    | inl (_, failed) ↦ absurd (ground arith)
    | inr (written, done) ↦ subst₂ Q (ground arith) (sym written) q
  ]
