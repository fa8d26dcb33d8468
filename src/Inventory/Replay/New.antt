-- ===== src/Inventory/Replay/New.antt =====
-- Reserve and AdmitSeckill, delivered again.
use seckill_mall.Base.{
  ℕ, ◌≡◌, refl, inl, inr, String, ◌<>◌, true, some, arith, lookup, lookup-insert, eq_refl, Action,
  ok, Result-cases, Option-cases, Bool-cases, ltb_ℤ, add32, ok_bind,
}
use seckill_mall.Contracts.Events.{EventEnvelope, inventory_reserved, seckill_accepted}
use seckill_mall.Inventory.Model.{
  reserved, Reservation, ReserveCommand, SeckillAdmissionCommand, validate_reserve_command,
  validate_admission, same_reservation, same_admission,
}
use seckill_mall.Inventory.Ledger.{new_reservation, new_admission, key_of, hold, count_purchase}
use seckill_mall.Inventory.Store.{
  MemoryStore, append_event, commit, reserve_found, admit_found, reserve_new, reserve_again,
  admit_new, admit_again, reserve, admit_seckill,
}
use seckill_mall.Inventory.Replay.Outcomes.{Answers, Kept, commit-Answers}

module _ {S : Type 0} (append : EventEnvelope → Action S String (Unit {0})) where
  reserve_new-Answers :
      (c : ReserveCommand) (now : ℕ) (s : MemoryStore S)
      → Answers
          (λ r s'. Kept c.reservation_id reserved r s' × (same_reservation r c ≡ true))
          (reserve_new append c now s)
  unfolding reserve_new hold new_reservation same_reservation
  reserve_new-Answers c now s = elim (Bool-cases (ltb_ℤ (s.stock c.sku_id) c.quantity)) [
    | inl short ↦ rw short (λ r h. cc)
    | inr enough ↦ rw enough (
        commit-Answers append
          (λ r l.
            ((lookup c.reservation_id l.reservations ≡ some r) × (r.status ≡ reserved))
            × (same_reservation r c ≡ true))
          _ _ _ now s
          ((rw (lookup-insert, eq_refl), refl), ground (arith, eq_refl c.order_id, eq_refl c.mode)))
  ]

  reserve_again-Answers :
      (c : ReserveCommand) (q : Reservation) (s : MemoryStore S)
      → lookup c.reservation_id s.reservations ≡ some q
      → Answers
          (λ r s'. Kept c.reservation_id reserved r s' × (same_reservation r c ≡ true))
          (reserve_again append c q s)
  unfolding reserve_again
  reserve_again-Answers c q s found r h = ground arith

  pub reserve-Answers :
      (c : ReserveCommand) (now : ℕ) (s : MemoryStore S)
      → Answers
          (λ r s'.
            Kept c.reservation_id reserved r s'
            × (same_reservation r c ≡ true)
            × (validate_reserve_command c ≡ ok tt))
          (reserve append c now s)
  unfolding reserve reserve_found
  reserve-Answers c now s = elim (Result-cases (validate_reserve_command c)) [
    | inr (_, bad) ↦ rw bad (λ r h. cc)
    | inl (_, good) ↦ rw good (elim (Option-cases (lookup c.reservation_id s.reservations)) [
      | inl new ↦
          rw (new, reserve_found)
            (λ r h. let a = reserve_new-Answers c now s r h in (a.0, a.1, refl))
      | inr (q, old) ↦
          rw (old, reserve_found)
            (λ r h. let a = reserve_again-Answers c q s old r h in (a.0, a.1, refl))
    ])
  ]

  pub reserve_replay :
      (c : ReserveCommand) (later : ℕ) (r : Reservation) (s : MemoryStore S)
      → Kept c.reservation_id reserved r s
      → same_reservation r c ≡ true
      → validate_reserve_command c ≡ ok tt
      → reserve append c later s ≡ (ok r, s)
  unfolding reserve reserve_found reserve_again
  reserve_replay c later r s (found, st) same valid =
      rw (valid, found, reserve_found) (ground arith)

  admit_new-Answers :
      (c : SeckillAdmissionCommand) (now : ℕ) (s : MemoryStore S)
      → Answers
          (λ r s'. Kept ("admit_" <> c.request_id) reserved r s' × (same_admission r c ≡ true))
          (admit_new append c now s)
  unfolding admit_new hold count_purchase new_admission same_admission
  admit_new-Answers c now s =
      elim (Bool-cases
        (ltb_ℤ s.limit (add32 (s.purchased (key_of (new_admission c now))) c.quantity))) [
          | inl over ↦ rw over (λ r h. cc)
          | inr within ↦ rw within (elim (Bool-cases (ltb_ℤ (s.stock c.sku_id) c.quantity)) [
            | inl short ↦ rw short (λ r h. cc)
            | inr enough ↦ rw enough (
                ok_bind
                  (λ r s'.
                    Kept ("admit_" <> c.request_id) reserved r s' × (same_admission r c ≡ true))
                  (append_event append seckill_accepted (new_admission c now) now)
                  (λ _.
                    commit append inventory_reserved (new_admission c now)
                      (λ l. count_purchase (new_admission c now) (hold (new_admission c now) l))
                      now)
                  s
                  (λ _ _.
                    commit-Answers append
                      (λ r l.
                        ((lookup ("admit_" <> c.request_id) l.reservations ≡ some r)
                          × (r.status ≡ reserved))
                        × (same_admission r c ≡ true))
                      _ _ _ now _
                      ((rw (lookup-insert, eq_refl), refl), ground (arith, eq_refl c.order_id))))
          ])
        ]

  admit_again-Answers :
      (c : SeckillAdmissionCommand) (q : Reservation) (s : MemoryStore S)
      → lookup ("admit_" <> c.request_id) s.reservations ≡ some q
      → Answers
          (λ r s'. Kept ("admit_" <> c.request_id) reserved r s' × (same_admission r c ≡ true))
          (admit_again append c q s)
  unfolding admit_again
  admit_again-Answers c q s found r h = ground arith

  pub admit_seckill-Answers :
      (c : SeckillAdmissionCommand) (now : ℕ) (s : MemoryStore S)
      → Answers
          (λ r s'.
            Kept ("admit_" <> c.request_id) reserved r s'
            × (same_admission r c ≡ true)
            × (validate_admission c ≡ ok tt))
          (admit_seckill append c now s)
  unfolding admit_seckill admit_found
  admit_seckill-Answers c now s = elim (Result-cases (validate_admission c)) [
    | inr (_, bad) ↦ rw bad (λ r h. cc)
    | inl (_, good) ↦
        rw good (elim (Option-cases (lookup ("admit_" <> c.request_id) s.reservations)) [
          | inl new ↦
              rw (new, admit_found)
                (λ r h. let a = admit_new-Answers c now s r h in (a.0, a.1, refl))
          | inr (q, old) ↦
              rw (old, admit_found)
                (λ r h. let a = admit_again-Answers c q s old r h in (a.0, a.1, refl))
        ])
  ]

  pub admit_replay :
      (c : SeckillAdmissionCommand) (later : ℕ) (r : Reservation) (s : MemoryStore S)
      → Kept ("admit_" <> c.request_id) reserved r s
      → same_admission r c ≡ true
      → validate_admission c ≡ ok tt
      → admit_seckill append c later s ≡ (ok r, s)
  unfolding admit_seckill admit_found admit_again
  admit_replay c later r s (found, st) same valid = rw (valid, found, admit_found) (ground arith)
