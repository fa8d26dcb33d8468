-- ===== src/Inventory/Replay/Found.antt =====
-- Confirm, Release and Restock, delivered again.
use seckill_mall.Base.{
  ℕ, ◌≡◌, refl, ◌⊎◌, inl, inr, String, true, some, arith, lookup, lookup-insert, eq_refl, Action,
  ok, str_eq, ◌>>=◌, ok_bind, bind_ok, ◌∙◌,
}
use seckill_mall.Contracts.Events.{EventEnvelope}
use seckill_mall.Inventory.Model.{
  Status, reserved, confirmed, released, restocked, expired, Reservation, Error, valid_opaque_id,
}
use seckill_mall.Inventory.Ledger.{confirmed_reservation, closed_reservation, give_back, put}
use seckill_mall.Inventory.Store.{
  MemoryStore, find_reservation, confirm_found, close_reservation, release_found, restock_found,
  confirm, release, restock,
}
use seckill_mall.Inventory.Replay.Outcomes.{Answers, Findable, IsOver, commit-Answers}

module _ {S : Type 0} (append : EventEnvelope → Action S String (Unit {0})) where
  find_reservation-Answers :
      (id order_id : String) (s : MemoryStore S)
      → Answers (λ r s'. Findable id order_id r s × (s' ≡ s)) (find_reservation id order_id s)
  unfolding find_reservation
  find_reservation-Answers id order_id s r h = ground arith

  find_replay :
      (id order_id : String) (r : Reservation) (s : MemoryStore S)
      → Findable id order_id r s
      → find_reservation id order_id s ≡ (ok r, s)
  unfolding find_reservation
  find_replay id order_id r s f = ground arith

  found-Answers :
      (Q : Reservation → MemoryStore S → Type 0) (id order_id : String)
      (f : Reservation → Action (MemoryStore S) Error Reservation) (s : MemoryStore S)
      → ((r : Reservation) → Findable id order_id r s → Answers Q (f r s))
      → Answers Q ((find_reservation id order_id >>= f) s)
  found-Answers Q id order_id f s next = ok_bind Q (find_reservation id order_id) f s (λ r found.
      let (findable, same) = find_reservation-Answers id order_id s r found in
      rw same (next r findable))

  -- The record that closes a reservation is found by the same arguments.
  close-Answers :
      (id order_id t : String) (status : Status) (now : ℕ) (r : Reservation) (s : MemoryStore S)
      → Findable id order_id r s
      → Answers
          (λ q s'. Findable id order_id q s' × (q.status ≡ status))
          (close_reservation append id t status now r s)
  unfolding close_reservation give_back closed_reservation
  close-Answers id order_id t status now r s (valid, found, same) =
      commit-Answers append
        (λ q l.
          ((valid_opaque_id id ≡ true)
            × (lookup id l.reservations ≡ some q)
            × ((str_eq order_id "" ≡ true)
                ⊎ ((str_eq q.order_id "" ≡ true) ⊎ (str_eq q.order_id order_id ≡ true))))
          × (q.status ≡ status))
        _ _ _ now s ((valid, rw (lookup-insert, eq_refl), same), refl)

  confirm_found-Answers :
      (id order_id : String) (now : ℕ) (r : Reservation) (s : MemoryStore S)
      → Findable id order_id r s
      → (st : Status) → r.status ≡ st
      → Answers
          (λ q s'. Findable id order_id q s' × (q.status ≡ confirmed))
          (confirm_found append id order_id now st r s)
  unfolding confirm_found put confirmed_reservation
  confirm_found-Answers id order_id now r s f confirmed e q h = ground arith
  confirm_found-Answers id order_id now r s f reserved e q h = ground (
    arith,
    lookup-insert id id (confirmed_reservation r order_id now) s.reservations,
    eq_refl id,
    eq_refl order_id,
  )
  confirm_found-Answers id order_id now r s f _ e q h = cc

  release_found-Answers :
      (id order_id : String) (now : ℕ) (r : Reservation) (s : MemoryStore S)
      → Findable id order_id r s
      → (st : Status) → r.status ≡ st
      → Answers
          (λ q s'. Findable id order_id q s' × IsOver q.status)
          (release_found append id now st r s)
  unfolding release_found
  release_found-Answers id order_id now r s f released e q h = ground arith
  release_found-Answers id order_id now r s f expired e q h = ground arith
  release_found-Answers id order_id now r s f reserved e q h =
      let (findable, over) = close-Answers id order_id _ _ now r s f q h in (findable, inl over)
  release_found-Answers id order_id now r s f _ e q h = cc

  restock_found-Answers :
      (id order_id : String) (now : ℕ) (r : Reservation) (s : MemoryStore S)
      → Findable id order_id r s
      → (st : Status) → r.status ≡ st
      → Answers
          (λ q s'. Findable id order_id q s' × (q.status ≡ restocked))
          (restock_found append id now st r s)
  unfolding restock_found
  restock_found-Answers id order_id now r s f restocked e q h = ground arith
  restock_found-Answers id order_id now r s f confirmed e q h =
      close-Answers id order_id _ _ now r s f q h
  restock_found-Answers id order_id now r s f _ e q h = cc

  confirm_replay :
      (id order_id : String) (later : ℕ) (q : Reservation) (s : MemoryStore S)
      → Findable id order_id q s
      → q.status ≡ confirmed
      → confirm append id order_id later s ≡ (ok q, s)
  unfolding confirm confirm_found
  confirm_replay id order_id later q s findable done =
      bind_ok (find_reservation id order_id)
        (λ r. confirm_found append id order_id later r.status r) s
        (find_replay id order_id q s findable)
      ∙ ground arith

  pub confirm_twice :
      (id order_id : String) (now later : ℕ) (s : MemoryStore S)
      → Answers
          (λ r s'. confirm append id order_id later s' ≡ (ok r, s'))
          (confirm append id order_id now s)
  unfolding confirm
  confirm_twice id order_id now later s p e =
      let (findable, done) =
        found-Answers (λ q s'. Findable id order_id q s' × (q.status ≡ confirmed)) id order_id
          (λ r. confirm_found append id order_id now r.status r) s
          (λ r f. confirm_found-Answers id order_id now r s f r.status refl) p e in
      confirm_replay id order_id later p _ findable done

  release_replay :
      (id order_id : String) (later : ℕ) (q : Reservation) (s : MemoryStore S)
      → Findable id order_id q s
      → IsOver q.status
      → release append id order_id later s ≡ (ok q, s)
  unfolding release release_found
  release_replay id order_id later q s findable (inl done) =
      bind_ok (find_reservation id order_id) (λ r. release_found append id later r.status r) s
        (find_replay id order_id q s findable)
      ∙ ground arith
  release_replay id order_id later q s findable (inr done) =
      bind_ok (find_reservation id order_id) (λ r. release_found append id later r.status r) s
        (find_replay id order_id q s findable)
      ∙ ground arith

  pub release-Answers :
      (id order_id : String) (now : ℕ) (s : MemoryStore S)
      → Answers
          (λ q s'. Findable id order_id q s' × IsOver q.status)
          (release append id order_id now s)
  unfolding release
  release-Answers id order_id now s =
      found-Answers (λ q s'. Findable id order_id q s' × IsOver q.status) id order_id
        (λ r. release_found append id now r.status r) s
        (λ r f. release_found-Answers id order_id now r s f r.status refl)

  pub release_twice :
      (id order_id : String) (now later : ℕ) (s : MemoryStore S)
      → Answers
          (λ r s'. release append id order_id later s' ≡ (ok r, s'))
          (release append id order_id now s)
  release_twice id order_id now later s p e =
      let (findable, over) = release-Answers id order_id now s p e in
      release_replay id order_id later p _ findable over

  restock_replay :
      (id order_id : String) (later : ℕ) (q : Reservation) (s : MemoryStore S)
      → Findable id order_id q s
      → q.status ≡ restocked
      → restock append id order_id later s ≡ (ok q, s)
  unfolding restock restock_found
  restock_replay id order_id later q s findable done =
      bind_ok (find_reservation id order_id) (λ r. restock_found append id later r.status r) s
        (find_replay id order_id q s findable)
      ∙ ground arith

  pub restock_twice :
      (id order_id : String) (now later : ℕ) (s : MemoryStore S)
      → Answers
          (λ r s'. restock append id order_id later s' ≡ (ok r, s'))
          (restock append id order_id now s)
  unfolding restock
  restock_twice id order_id now later s p e =
      let (findable, done) =
        found-Answers (λ q s'. Findable id order_id q s' × (q.status ≡ restocked)) id order_id
          (λ r. restock_found append id now r.status r) s
          (λ r f. restock_found-Answers id order_id now r s f r.status refl) p e in
      restock_replay id order_id later p _ findable done
