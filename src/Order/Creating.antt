-- ===== src/Order/Creating.antt =====
-- services/order/internal/app/service.go: Create, by the steps of the repository.
use seckill_mall.Base.{
  ℕ, ◌≡◌, refl, inl, inr, String, true, Option, none, some, List, [], ◌∷◌, not, ◌||◌, ◌==◌, str_eq,
  leb, map, pos, arith, lookup, after_bind, pure, ◌>>=◌, Option-cases, Bool-cases, Result-cases,
  Action,
}
use seckill_mall.Contracts.Events.{EventEnvelope}
use seckill_mall.Order.Model.{
  Error, Order, Sku, Address, Reservation, CreateItem, CreateCommand, CreateIntent, validate_create,
  release, max_create_intent_attempts,
}
use seckill_mall.Order.Repository.{
  Repository, idempotency_key, create, find_by_idempotency, find_create_intent, save_create_intent,
  update_create_intent,
}
use seckill_mall.Order.Steps.{Step, IsFresh, keeps, create-Step}
use seckill_mall.Order.Amounts.{reserve_each-IsPriced, empty-IsPriced}
use seckill_mall.Order.World.{World, InventoryClient, stored, remote, call_of}
use seckill_mall.Order.Lifecycle.{pending_operation}
use seckill_mall.Order.Keeping.{then-Keeps, keep_operation-Keeps}
use seckill_mall.Order.Create.{
  Draft, new_order, price_line, find_sku, reserve_line, add_line, sort_items, compensate_one,
  compensate_reservations, reserve_each, store_order, place_order, place_at, reserve_and_store,
  settle, settled_intent, new_intent, create_started, create_unknown, reuse_intent, create_found,
  create_order, trimmed_key, done_intent, request_digest, same_digest, attempts_of,
}

module _ {S I : Type 0} (append : EventEnvelope → Action S Error (Unit {0}))
    (client : InventoryClient I) (clock : I → ℕ) (catalog : List ℕ → Action I Error (List Sku))
    (identity : ℕ → ℕ → Action I Error Address) (hash : String → String) (ttl : ℕ)
    (P : Repository S → Type 0) (preserved : (r u : Repository S) → Step r u → P r → P u) where
  abbrev Kept : {A : Type 0} → (World S I → A × World S I) → Type 0
  Kept m = (w : World S I) → P w.repository → P (m w).1.repository

  compensate_one-Keeps :
      (order_id id : String) (w : World S I)
      → P w.repository
      → P (compensate_one append client clock catalog identity hash ttl order_id id w).repository
  unfolding compensate_one
  compensate_one-Keeps order_id id w h =
      let result = call_of client release id order_id w.outside in
      elim (Result-cases result.0) [
        | inl (_, good) ↦ rw (good, compensate_one) h
        | inr (e, bad) ↦
            rw (bad, compensate_one)
              (keep_operation-Keeps append client clock P preserved
                (pending_operation release order_id id e (clock result.1))
                (record { repository = w.repository; outside = result.1 }) h)
      ]

  compensate-Keeps :
      (order_id : String) (reservations : List Reservation) (w : World S I)
      → P w.repository
      → P
          (compensate_reservations append client clock catalog identity hash ttl order_id
            reservations w).repository
  unfolding compensate_reservations
  compensate-Keeps order_id [] w h = h
  compensate-Keeps order_id (r ∷ rest) w h =
      compensate_one-Keeps order_id r.reservation_id _ (compensate-Keeps order_id rest w h)

  reserve_each-Keeps :
      (order_id : String) (c : CreateCommand) (skus : List Sku) (items : List CreateItem)
      (draft : Draft)
      → Kept
          (reserve_each append client clock catalog identity hash ttl order_id c skus items draft)
  unfolding reserve_each
  reserve_each-Keeps order_id c skus [] draft w h = h
  reserve_each-Keeps order_id c skus (requested ∷ rest) draft w h =
      elim (Result-cases (price_line requested (find_sku requested.sku_id skus) draft.total)) [
        | inr (_, bad) ↦ rw (bad, reserve_each) h
        | inl ((sku, line, sum), priced) ↦
            rw (priced, reserve_each)
              (elim (Result-cases
                (reserve_line append client clock catalog identity hash ttl order_id c requested
                  w.outside).0) [
                    | inr (_, bad) ↦
                        rw (bad, reserve_each) (compensate-Keeps order_id draft.reservations _ h)
                    | inl (reservation, good) ↦
                        rw (good, reserve_each)
                          (reserve_each-Keeps order_id c skus rest
                            (add_line draft requested sku line sum reservation) _ h)
                  ])
      ]

  store_order-Keeps :
      (order_id : String) (order : Order) (reservations : List Reservation)
      → IsFresh order
      → Kept (store_order append client clock catalog identity hash ttl order_id order reservations)
  unfolding store_order
  store_order-Keeps order_id order reservations fresh w h =
      let kept : P (create append order w.repository).1 =
        preserved _ _ (create-Step append order w.repository fresh) h in
      elim (Result-cases (create append order w.repository).0) [
        | inr (_, bad) ↦ rw (bad, store_order) (compensate-Keeps order_id reservations _ kept)
        | inl (_, good) ↦ rw (good, store_order) kept
      ]

  reserve_and_store-Keeps :
      (c : CreateCommand) (digest order_id : String) (now : ℕ) (skus : List Sku) (address : Address)
      → Kept (
          reserve_and_store append client clock catalog identity hash ttl c digest order_id now skus
            address)
  unfolding reserve_and_store new_order
  reserve_and_store-Keeps c digest order_id now skus address w h =
      let empty : Draft = record { total = pos 0; reservations = []; items = [] } in
      let kept = reserve_each-Keeps order_id c skus (sort_items c.items) empty w h in
      after_bind (λ v. P v.repository)
        (reserve_each append client clock catalog identity hash ttl order_id c skus
          (sort_items c.items) empty)
        (λ draft.
          store_order append client clock catalog identity hash ttl order_id
            (new_order c digest order_id now ttl address draft) draft.reservations)
        w (λ _ _. kept)
        (λ draft done.
          store_order-Keeps order_id (new_order c digest order_id now ttl address draft)
            draft.reservations
            (record {
              priced =
                  reserve_each-IsPriced append client clock catalog identity hash ttl order_id c
                    skus (sort_items c.items) empty draft w empty-IsPriced done;
              pending = refl;
              first_entry = (_, refl, refl, refl);
            })
            _ kept)

  place_at-Keeps :
      (c : CreateCommand) (digest order_id : String) (now : ℕ) (skus : List Sku) (address : Address)
      → Kept (
          place_at append client clock catalog identity hash ttl c digest order_id now skus address)
  unfolding place_at
  place_at-Keeps c digest order_id now skus address w h =
      elim (Bool-cases (not (address.id == c.address_id) || not (address.user_id == c.user_id))) [
        | inl other ↦ rw other h
        | inr own ↦ rw own (reserve_and_store-Keeps c digest order_id now skus address w h)
      ]

  place_order-Keeps :
      (c : CreateCommand) (digest order_id : String) (now : ℕ)
      → Kept (place_order append client clock catalog identity hash ttl c digest order_id now)
  unfolding place_order
  place_order-Keeps c digest order_id now w h =
      then-Keeps append client clock P preserved
        (remote (catalog (map (λ (item : CreateItem). item.sku_id) (sort_items c.items))))
        (λ skus. remote (identity c.user_id c.address_id) >>= λ address.
          place_at append client clock catalog identity hash ttl c digest order_id now skus address)
        (λ _ k. k)
        (λ skus.
          then-Keeps append client clock P preserved (remote (identity c.user_id c.address_id))
            (λ address.
              place_at append client clock catalog identity hash ttl c digest order_id now skus
                address)
            (λ _ k. k) (λ address. place_at-Keeps c digest order_id now skus address))
        w h

  intent_saved : (intent : CreateIntent) → Kept (stored {A = Unit {0}} (save_create_intent intent))
  unfolding save_create_intent
  intent_saved intent w h = preserved _ _ (keeps (ground arith) (ground arith)) h

  intent_updated :
      (intent : CreateIntent) → Kept (stored {A = Unit {0}} (update_create_intent intent))
  unfolding update_create_intent
  intent_updated intent w h = preserved _ _ (keeps (ground arith) (ground arith)) h

  create_started-Keeps :
      (c : CreateCommand) (digest : String) (found : Option CreateIntent)
      → Kept (create_started append client clock catalog identity hash ttl c digest found)
  unfolding create_started settle
  create_started-Keeps c digest found w h =
      let intent =
        new_intent append client clock catalog identity hash ttl c digest found (clock w.outside) in
      let saved : P (save_create_intent intent w.repository).1 = intent_saved intent w h in
      let ready : World S I = record w {
        repository = (save_create_intent intent w.repository).1;
      } in
      let placed =
        place_order append client clock catalog identity hash ttl c digest intent.order_id
          (clock w.outside) ready in
      elim (Result-cases (save_create_intent intent w.repository).0) [
        | inr (_, bad) ↦ rw (bad, create_started) saved
        | inl (_, good) ↦
            rw (good, create_started)
              (intent_updated (settled_intent intent placed.0 (clock placed.1.outside)) placed.1
                (place_order-Keeps c digest intent.order_id (clock w.outside) ready saved))
      ]

  create_unknown-Keeps :
      (c : CreateCommand) (digest : String)
      → Kept (create_unknown append client clock catalog identity hash ttl c digest)
  unfolding create_unknown find_create_intent
  create_unknown-Keeps c digest w h =
      let found = lookup (idempotency_key c.user_id c.idempotency_key) w.repository.intents in
      elim (Bool-cases (not (same_digest digest found))) [
        | inl other ↦ rw other h
        | inr same ↦
            rw same (elim (Bool-cases (leb max_create_intent_attempts (attempts_of found))) [
              | inl over ↦ rw over h
              | inr within ↦ rw within (create_started-Keeps c digest found w h)
            ])
      ]

  reuse_intent-Keeps :
      (existing : Order) (digest : String) (found : Option CreateIntent)
      → Kept (reuse_intent append client clock catalog identity hash ttl existing digest found)
  unfolding reuse_intent
  reuse_intent-Keeps existing digest none w h = h
  reuse_intent-Keeps existing digest (some intent) w h =
      let kept = done_intent intent (clock w.outside) in
      elim (Bool-cases (not (str_eq intent.request_digest digest))) [
        | inl other ↦ rw other h
        | inr same ↦ rw same (
            then-Keeps append client clock P preserved (stored (update_create_intent kept))
              (λ _. pure (existing, true)) (intent_updated kept) (λ _ _ k. k) w h)
      ]

  create_found-Keeps :
      (c : CreateCommand) (digest : String) (found : Option Order)
      → Kept (create_found append client clock catalog identity hash ttl c digest found)
  unfolding create_found find_create_intent
  create_found-Keeps c digest none w h = create_unknown-Keeps c digest w h
  create_found-Keeps c digest (some existing) w h =
      elim (Bool-cases (not (str_eq existing.request_digest digest))) [
        | inl other ↦ rw other h
        | inr same ↦ rw same (
            reuse_intent-Keeps existing digest
              (lookup (idempotency_key c.user_id c.idempotency_key) w.repository.intents) w h)
      ]

  find_by_idempotency-state :
      (user_id : ℕ) (key : String) (r : Repository S) → (find_by_idempotency user_id key r).1 ≡ r
  unfolding find_by_idempotency
  find_by_idempotency-state user_id key r =
      elim (Option-cases (lookup (idempotency_key user_id key) r.idempotency)) [
        | inl absent ↦ rw (absent, find_by_idempotency) refl
        | inr (order_id, taken) ↦
            rw (taken, find_by_idempotency)
              (elim (Option-cases (lookup order_id r.orders)) [
                | inl absent ↦ rw (absent, find_by_idempotency) refl
                | inr (value, found) ↦ rw (found, find_by_idempotency) refl
              ])
      ]

  pub create_order-Keeps :
      (command : CreateCommand)
      → Kept (create_order append client clock catalog identity hash ttl command)
  unfolding create_order
  create_order-Keeps command w h =
      let c = trimmed_key command in
      let digest = request_digest append client clock catalog identity hash ttl c in
      elim (Result-cases (validate_create c)) [
        | inr (_, bad) ↦ rw bad h
        | inl (_, good) ↦ rw good (
            after_bind (λ v. P v.repository)
              (stored (find_by_idempotency c.user_id c.idempotency_key))
              (λ found. create_found append client clock catalog identity hash ttl c digest found) w
              (λ _ _. rw (find_by_idempotency-state c.user_id c.idempotency_key w.repository) h)
              (λ found _.
                create_found-Keeps c digest found _
                  (rw (find_by_idempotency-state c.user_id c.idempotency_key w.repository) h)))
      ]
