-- ===== src/Inventory/Cancellation.antt =====
-- services/inventory/internal/app/events.go: the reservations of an order.cancelled.v1 event.
use seckill_mall.Base.{
  ℕ, ◌+◌, ◌≡◌, refl, inl, inr, ◌⊎◌, ◌∙◌, sym, subst, ap, ◌≢◌, String, none, some, List, [], ◌∷◌,
  arith, lookup, Action, Result, ok, err, Result-cases, Option-cases, err_bind,
}
use seckill_mall.Contracts.Events.{EventEnvelope}
use seckill_mall.Contracts.Payloads.{OrderCancelledPayload}
use seckill_mall.Contracts.Decode.{decode_order_cancelled}
use seckill_mall.Inventory.Model.{Status, reserved, Reservation, Error, not_found}
use seckill_mall.Inventory.Ledger.{Ledger}
use seckill_mall.Inventory.Store.{
  MemoryStore, find_reservation, release_found, release, close_reservation, commit, append_event,
}
use seckill_mall.Inventory.Calls.{Call, perform, run}
use seckill_mall.Inventory.Lifecycle.{run_follows, final_released, final_expired, ◌⟶*◌, here, next}
use seckill_mall.Inventory.Replay.{release-Answers, IsOver}
use seckill_mall.Inventory.Handlers.{
  decode_inventory_payload, stopping, each_reservation, order_cancelled,
}

-- An id that stands in a list.
abbrev pub Has : String → List String → Type 0
Has id [] = ⊥
Has id (x ∷ xs) = (x ≡ id) ⊎ Has id xs

pub IsOver-stays : {s t : Status} → s ⟶* t → IsOver s → IsOver t
IsOver-stays path (inl e) = inl (final_released path e)
IsOver-stays path (inr e) = inr (final_expired path e)

⟶*-trans : {s t u : Status} → s ⟶* t → t ⟶* u → s ⟶* u
⟶*-trans here path = path
⟶*-trans (next edge first) path = next edge (⟶*-trans first path)

stopping-none : (e : Error) → stopping (err e) ≡ none → e ≡ not_found
stopping-none not_found h = refl
stopping-none _ h = cc

decoded_payload :
    {A : Type 0} (decode : EventEnvelope → Result String A) (event : EventEnvelope) (q p : A)
    → decode_inventory_payload decode event ≡ ok q
    → decode event ≡ ok p
    → q ≡ p
unfolding decode_inventory_payload
decoded_payload decode event q p h k = ground arith

module _ {S : Type 0} (append : EventEnvelope → Action S String (Unit {0})) where
  -- Where a reservation has come to.
  abbrev Comes : String → Reservation → MemoryStore S → Type 0
  Comes id r s = (q : Reservation) × (lookup id s.reservations ≡ some q) × (r.status ⟶* q.status)

  release-Comes :
      (id : String) (r : Reservation) (x order_id : String) (now : ℕ) (s : MemoryStore S)
      → lookup id s.reservations ≡ some r
      → Comes id r (release append x order_id now s).1
  unfolding run perform
  release-Comes id r x order_id now s found =
      let (q, held, _, path) =
        run_follows append id r ((now, Call.releases x order_id) ∷ []) s found in
      (q, held, path)

  commit_error :
      (t : String) (r : Reservation) (f : Ledger → Ledger) (now : ℕ) (s : MemoryStore S) (e : Error)
      → (commit append t r f now s).0 ≡ err e
      → e ≢ not_found
  unfolding commit append_event
  commit_error t r f now s e h = ground arith

  release_found_error :
      (id : String) (now : ℕ) (r : Reservation) (s : MemoryStore S) (st : Status) (e : Error)
      → (release_found append id now st r s).0 ≡ err e
      → e ≢ not_found
  unfolding release_found close_reservation
  release_found_error id now r s reserved e h = commit_error _ _ _ now s e h
  release_found_error id now r s _ e h = ground arith

  find_error :
      (id order_id : String) (s : MemoryStore S) {r : Reservation} (e : Error)
      → lookup id s.reservations ≡ some r
      → (find_reservation id order_id s).0 ≡ err e
      → e ≢ not_found
  unfolding find_reservation
  find_error id order_id s e found h = ground arith

  -- A reservation that the store holds is never reported as not found.
  release_held :
      (id order_id : String) (now : ℕ) (s : MemoryStore S) {r : Reservation}
      → lookup id s.reservations ≡ some r
      → (e : Error) → (release append id order_id now s).0 ≡ err e
      → e ≢ not_found
  unfolding release
  release_held id order_id now s found =
      err_bind (λ e _. e ≢ not_found) (find_reservation id order_id)
        (λ r. release_found append id now r.status r) s (λ e h. find_error id order_id s e found h)
        (λ r _ e h. release_found_error id now r _ r.status e h)

  each-Comes :
      (order_id : String) (clock : ℕ → ℕ) (i : ℕ) (ids : List String) (id : String)
      (r : Reservation) (s : MemoryStore S)
      → lookup id s.reservations ≡ some r
      → Comes id r (each_reservation (λ x. release append x order_id) clock i ids s).1
  unfolding each_reservation
  each-Comes order_id clock i [] id r s found = (r, found, here)
  each-Comes order_id clock i (x ∷ xs) id r s found =
      let (p, held, first) = release-Comes id r x order_id (clock i) s found in
      let (q, last, path) =
        each-Comes order_id clock (i + 1) xs id p (release append x order_id (clock i) s).1 held in
      elim (Option-cases (stopping (release append x order_id (clock i) s).0)) [
        | inl on ↦ rw (on, each_reservation) (q, last, ⟶*-trans first path)
        | inr (e, off) ↦ rw (off, each_reservation) (p, held, first)
      ]

  -- The reservations that a loop has gone through.
  abbrev Closed : String → MemoryStore S → Type 0
  Closed id s = (q : Reservation) × (lookup id s.reservations ≡ some q) × IsOver q.status

  -- The call on the reservation itself succeeds, or the loop stops there.
  at_call :
      (order_id : String) (clock : ℕ → ℕ) (i : ℕ) (x : String) (xs : List String) (id : String)
      (r : Reservation) (s : MemoryStore S)
      → lookup id s.reservations ≡ some r
      → x ≡ id
      → stopping (release append x order_id (clock i) s).0 ≡ none
      → Closed id
          (each_reservation
            (λ y. release append y order_id)
            clock
            (i + 1)
            xs
            (release append x order_id (clock i) s).1).1
  at_call order_id clock i x xs id r s found same on =
      elim (Result-cases (release append x order_id (clock i) s).0) [
        | inr (e, failed) ↦ absurd (
            release_held x order_id (clock i) s
              (subst (λ k. lookup k s.reservations ≡ some r) (sym same) found) e failed
              (stopping-none e (ap stopping (sym failed) ∙ on)))
        | inl (q, answered) ↦
            let (findable, over) = release-Answers append x order_id (clock i) s q answered in
            let (p, last, path) =
              each-Comes order_id clock (i + 1) xs x q (release append x order_id (clock i) s).1
                findable.1 in
            (p, rw (← same) last, IsOver-stays path over)
      ]

  each-Closed :
      (order_id : String) (clock : ℕ → ℕ) (i : ℕ) (ids : List String) (id : String)
      (r : Reservation) (s : MemoryStore S)
      → lookup id s.reservations ≡ some r
      → Has id ids
      → (each_reservation (λ x. release append x order_id) clock i ids s).0 ≡ ok tt
      → Closed id (each_reservation (λ x. release append x order_id) clock i ids s).1
  unfolding each_reservation
  each-Closed order_id clock i [] id r s found has = elim has [ ]
  each-Closed order_id clock i (x ∷ xs) id r s found has =
      let (p, held, _) = release-Comes id r x order_id (clock i) s found in
      let rest =
        each-Closed order_id clock (i + 1) xs id p (release append x order_id (clock i) s).1 held in
      elim (Option-cases (stopping (release append x order_id (clock i) s).0)) [
        | inr (e, off) ↦ rw (off, each_reservation) (λ done. cc)
        | inl on ↦
            rw (on, each_reservation)
              (λ done. elim has [
                | inr later ↦ rest later done
                | inl same ↦ at_call order_id clock i x xs id r s found same on
              ])
      ]

  -- If order.cancelled.v1 is handled without an error, every reservation that the event names and
  -- that the store held before is released afterwards (or was found expired).
  pub order_cancelled_releases :
      (event : EventEnvelope) (clock : ℕ → ℕ) (s : MemoryStore S) (p : OrderCancelledPayload)
      (id : String) (r : Reservation)
      → decode_order_cancelled event.payload ≡ ok p
      → Has id p.reservation_ids
      → lookup id s.reservations ≡ some r
      → (order_cancelled append event clock s).0 ≡ ok tt
      → (q : Reservation) × (lookup id (order_cancelled append event clock s).1.reservations
          ≡ some q)
        × IsOver q.status
  unfolding order_cancelled
  order_cancelled_releases event clock s p id r decoded has found =
      elim (Result-cases (decode_inventory_payload (λ e. decode_order_cancelled e.payload) event)) [
        | inl (q, good) ↦
            let same =
              decoded_payload (λ e. decode_order_cancelled e.payload) event q p good decoded in
            rw (good, order_cancelled)
              (rw same (each-Closed p.order_id clock 0 p.reservation_ids id r s found has))
        | inr (_, bad) ↦ rw (bad, order_cancelled) (λ done. cc)
      ]
