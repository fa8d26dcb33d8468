-- ===== src/Order/Create.antt =====
-- services/order/internal/app/service.go: Create. The catalog and identity clients are calls on the
-- outside; `hash` is the hexadecimal SHA-256 of a text. The deadline of the calls is not modelled.
pub mod Drafts
unfoldable pub use Drafts.*
use seckill_mall.Base.{
  take_text, ℕ, suc, ◌-◌, ◌+◌, String, ◌<>◌, Bool, true, ◌||◌, not, Option, none, some, List, [],
  ◌∷◌, ◌++◌, map, ℤ, pos, negsuc, leb, ◌==◌, str_eq, if◌then◌else◌, trim_space, Result, ok, err,
  Action, pure, lift, gets, fail_if, ◌>>=◌, ◌>>◌,
}
use seckill_mall.Base.Decimal.{show_uint}
use seckill_mall.Contracts.Events.{EventEnvelope}
use seckill_mall.Order.Model.{
  pending_payment, Error, new_error, not_found, conflict, forbidden, unavailable, Sku, Address,
  Item, Order, CreateItem, CreateCommand, Reservation, ReserveCommand, CreateIntent, IntentStatus,
  release, error_text, max_create_intent_attempts, validate_create, subtotal, add_amount,
  retry_delay, order_type_seckill,
}
use seckill_mall.Order.Repository.{
  create, find_by_idempotency, find_create_intent, save_create_intent, update_create_intent,
}
use seckill_mall.Order.World.{World, InventoryClient, stored, remote, call_of}
use seckill_mall.Order.Lifecycle.{pending_operation, keep_operation}

module _ {S I : Type 0} (append : EventEnvelope → Action S Error (Unit {0}))
    (client : InventoryClient I) (clock : I → ℕ) (catalog : List ℕ → Action I Error (List Sku))
    (identity : ℕ → ℕ → Action I Error Address) (hash : String → String) (ttl : ℕ) where
  -- requestDigest
  unfoldable pub request_digest : CreateCommand → String
  request_digest c = hash (digest_text c)

  -- deterministicOrderID, without its prefix
  unfoldable pub order_hash : ℕ → String → String → String
  order_hash user_id key digest =
      take_text 32 (hash (show_uint user_id <> ("|" <> (trim_space key <> ("|" <> digest)))))

  -- One pass of compensateReservations: a release that fails is kept as a pending operation.
  unfoldable pub compensate_one : String → String → World S I → World S I
  compensate_one order_id id w =
      let (result, outside') = call_of client release id order_id w.outside in
      let w' : World S I = record w { outside = outside' } in
      elim result [
        | ok _ ↦ w'
        | err e ↦
            (keep_operation append client clock
              (pending_operation release order_id id e (clock outside')) w').1
      ]

  -- compensateReservations, which goes through the reservations from the last one to the first.
  unfoldable pub compensate_reservations : String → List Reservation → World S I → World S I
  compensate_reservations order_id [] w = w
  compensate_reservations order_id (r ∷ rest) w =
      compensate_one order_id r.reservation_id (compensate_reservations order_id rest w)

  -- A seckill order goes through the admission with its purchase limit.
  unfoldable pub reserve_line : String → CreateCommand → CreateItem → Action I Error Reservation
  reserve_line order_id c requested =
      if str_eq c.order_type order_type_seckill
      then client.admit_seckill (command_of order_id c requested)
      else client.reserve (command_of order_id c requested)

  -- The loop over the items of Create.
  unfoldable pub reserve_each :
      String → CreateCommand → List Sku → List CreateItem → Draft → Action (World S I) Error Draft
  reserve_each order_id c skus [] draft w = (ok draft, w)
  reserve_each order_id c skus (requested ∷ rest) draft w =
      elim (price_line requested (find_sku requested.sku_id skus) draft.total) [
        | err e ↦ (err e, w)
        | ok (sku, line, sum) ↦
            let (result, outside') = reserve_line order_id c requested w.outside in
            let w' : World S I = record w { outside = outside' } in
            elim result [
              | err e ↦ (err e, compensate_reservations order_id draft.reservations w')
              | ok reservation ↦
                  reserve_each order_id c skus rest
                    (add_line draft requested sku line sum reservation) w'
            ]
      ]

  -- The end of Create: the order is stored, or every reservation is given back.
  unfoldable pub store_order :
      String → Order → List Reservation → Action (World S I) Error (Order × Bool)
  store_order order_id order reservations w =
      let (result, w') = stored (create append order) w in
      elim result [
        | err e ↦ (err e, compensate_reservations order_id reservations w')
        | ok answer ↦ (ok answer, w')
      ]

  unfoldable pub reserve_and_store :
      CreateCommand
      → String
      → String
      → ℕ
      → List Sku
      → Address
      → Action (World S I) Error (Order × Bool)
  reserve_and_store c digest order_id now skus address = do
    draft ←
        reserve_each order_id c skus (sort_items c.items)
          (record { total = pos 0; reservations = []; items = [] })
    store_order order_id (new_order c digest order_id now ttl address draft) draft.reservations

  unfoldable pub place_at :
      CreateCommand
      → String
      → String
      → ℕ
      → List Sku
      → Address
      → Action (World S I) Error (Order × Bool)
  place_at c digest order_id now skus address = do
    fail_if (not (address.id == c.address_id) || not (address.user_id == c.user_id))
        (new_error forbidden "收货地址不属于当前用户")
    reserve_and_store c digest order_id now skus address

  -- Create after its intent is saved.
  unfoldable pub place_order :
      CreateCommand → String → String → ℕ → Action (World S I) Error (Order × Bool)
  place_order c digest order_id now = do
    skus ← remote (catalog (map (λ (item : CreateItem). item.sku_id) (sort_items c.items)))
    address ← remote (identity c.user_id c.address_id)
    place_at c digest order_id now skus address

  -- The deferred update of the intent, whose error is dropped.
  unfoldable pub settle :
      CreateIntent
      → Result Error (Order × Bool) × World S I
      → Result Error (Order × Bool) × World S I
  settle intent (result, w) =
      (result, (stored (update_create_intent (settled_intent intent result (clock w.outside))) w).1)

  unfoldable pub new_intent : CreateCommand → String → Option CreateIntent → ℕ → CreateIntent
  new_intent c digest found now = record {
    intent_id = "intent_" <> order_hash c.user_id c.idempotency_key digest;
    user_id = c.user_id;
    idempotency_key = c.idempotency_key;
    request_digest = digest;
    order_id = "ord_" <> order_hash c.user_id c.idempotency_key digest;
    status = IntentStatus.started;
    attempts = attempts_of found;
    payload = some c;
    last_error = "";
    next_retry_at = now;
    created_at = now;
    updated_at = now;
  }

  -- Create on a key that has no order yet: the intent is saved first, and settled last.
  unfoldable pub create_started :
      CreateCommand → String → Option CreateIntent → Action (World S I) Error (Order × Bool)
  create_started c digest found w =
      let now = clock w.outside in
      let intent = new_intent c digest found now in
      let (saved, w') = stored (save_create_intent intent) w in
      elim saved [
        | err e ↦ (err e, w')
        | ok _ ↦ settle intent (place_order c digest intent.order_id now w')
      ]

  unfoldable pub create_unknown : CreateCommand → String → Action (World S I) Error (Order × Bool)
  create_unknown c digest = do
    found ← stored (find_create_intent c.user_id c.idempotency_key)
    fail_if (not (same_digest digest found)) (new_error conflict "Idempotency-Key 对应的创建意图参数不一致")
    fail_if (leb max_create_intent_attempts (attempts_of found))
        (new_error unavailable "订单创建意图已达到重试上限")
    create_started c digest found

  -- The intent of an order that exists is marked done.
  unfoldable pub reuse_intent :
      Order → String → Option CreateIntent → Action (World S I) Error (Order × Bool)
  reuse_intent existing digest none = pure (existing, true)
  reuse_intent existing digest (some intent) = do
    fail_if (not (str_eq intent.request_digest digest))
        (new_error conflict "Idempotency-Key 对应的创建意图参数不一致")
    now ← gets (λ w. clock w.outside)
    stored (update_create_intent (done_intent intent now))
    pure (existing, true)

  unfoldable pub create_found :
      CreateCommand → String → Option Order → Action (World S I) Error (Order × Bool)
  create_found c digest none = create_unknown c digest
  create_found c digest (some existing) = do
    fail_if (not (str_eq existing.request_digest digest))
        (new_error conflict "Idempotency-Key 对应的请求参数不一致")
    intent ← stored (find_create_intent c.user_id c.idempotency_key)
    reuse_intent existing digest intent

  -- Create
  unfoldable pub create_order : CreateCommand → Action (World S I) Error (Order × Bool)
  create_order command = do
    let c = trimmed_key command
    lift (validate_create c)
    found ← stored (find_by_idempotency c.user_id c.idempotency_key)
    create_found c (request_digest c) found
