-- ===== src/Order/Repository.antt =====
-- services/order/internal/app/memory_repository.go: the repository over four maps and the outbox.
-- Each method holds the mutex from its first read to its last write. The event sink is a state of
-- type S and its `append`; `none` is a sink that was not set.
pub mod Records
unfoldable pub use Records.*
use seckill_mall.Base.{
  ℕ, ◌-◌, String, ◌<>◌, Bool, true, false, ◌&&◌, not, Option, none, some, List, [], ◌∷◌, ◌++◌, map,
  pos, leb, ◌==◌, str_eq, if◌then◌else◌, Result, ok, err, Action, Table, lookup, insert,
}
use seckill_mall.Base.Decimal.{show_uint}
use seckill_mall.Contracts.Events.{
  EventEnvelope, OrderItemPayload, new_event_envelope, order_created, order_cancelled,
}
use seckill_mall.Contracts.Payloads.{order_created_json, order_cancelled_json}
use seckill_mall.Order.Model.{
  Status, pending_payment, canceled, Error, new_error, not_found, conflict, invalid_transition,
  internal, Item, Order, Operation, OperationStatus, CreateIntent, can_transition, same_status,
}

module _ {S : Type 0} where
  -- FindByIdempotency
  unfoldable pub find_by_idempotency : ℕ → String → Action (Repository S) Error (Option Order)
  find_by_idempotency user_id key r = elim (lookup (idempotency_key user_id key) r.idempotency) [
    | none ↦ (ok none, r)
    | some order_id ↦ elim (lookup order_id r.orders) [
      | none ↦ (err (new_error conflict "订单幂等记录不完整"), r)
      | some order ↦ (ok (some order), r)
    ]
  ]

  -- FindCreateIntent
  unfoldable pub find_create_intent : ℕ → String → Action (Repository S) Error (Option CreateIntent)
  find_create_intent user_id key r = (ok (lookup (idempotency_key user_id key) r.intents), r)

  -- SaveCreateIntent
  unfoldable pub save_create_intent : CreateIntent → Action (Repository S) Error (Unit {0})
  save_create_intent value r =
      let key = idempotency_key value.user_id value.idempotency_key in
      let saved : Repository S = record r { intents = insert key value r.intents } in
      elim (lookup key r.intents) [
        | none ↦ (ok tt, saved)
        | some existing ↦
            if not (str_eq existing.request_digest value.request_digest)
            then (err (new_error conflict "创建意图参数不一致"), r)
            else (ok tt, saved)
      ]

  -- UpdateCreateIntent
  unfoldable pub update_create_intent : CreateIntent → Action (Repository S) Error (Unit {0})
  update_create_intent value r =
      let key = idempotency_key value.user_id value.idempotency_key in
      elim (lookup key r.intents) [
        | none ↦ (err (new_error not_found "创建意图不存在"), r)
        | some _ ↦ (ok tt, record r { intents = insert key value r.intents })
      ]

  -- Get
  unfoldable pub get : ℕ → String → Action (Repository S) Error Order
  get user_id order_id r = elim (lookup order_id r.orders) [
    | none ↦ (err no_order, r)
    | some value ↦ if not_owned user_id value then (err no_order, r) else (ok value, r)
  ]

  -- SaveOperation
  unfoldable pub save_operation : Operation → Action (Repository S) Error (Unit {0})
  save_operation value r =
      let saved : Repository S = record r { operations = insert value.id value r.operations } in
      elim (lookup value.id r.operations) [
        | none ↦ (ok tt, saved)
        | some existing ↦ elim existing.status [
          | OperationStatus.done ↦ (ok tt, r)
          | _ ↦ (ok tt, saved)
        ]
      ]

  -- UpdateOperation
  unfoldable pub update_operation : Operation → Action (Repository S) Error (Unit {0})
  update_operation value r = (ok tt, record r { operations = insert value.id value r.operations })

abbrev is_expired : ℕ → Order → Bool
is_expired now value = same_status value.status pending_payment && leb value.expires_at now

-- The loop of ListExpired: it stops once it has `limit` orders.
unfoldable pub list_expired_from : ℕ → ℕ → Table Order → List Order
list_expired_from now limit [] = []
list_expired_from now limit ((_, value) ∷ rest) =
    let all = list_expired_from now limit rest in
    let fewer = list_expired_from now (limit - 1) rest in
    if is_expired now value then (if leb limit 1 then value ∷ [] else value ∷ fewer) else all

-- ListExpired
unfoldable pub list_expired : {S : Type 0} → ℕ → ℕ → Repository S → List Order
list_expired now limit r = list_expired_from now limit r.orders

abbrev is_pending_operation : ℕ → Operation → Bool
is_pending_operation now value = elim value.status [
  | OperationStatus.pending_retry ↦ leb value.next_retry_at now
  | _ ↦ false
]

unfoldable pub list_operations_from : ℕ → ℕ → Table Operation → List Operation
list_operations_from now limit [] = []
list_operations_from now limit ((_, value) ∷ rest) =
    let all = list_operations_from now limit rest in
    let fewer = list_operations_from now (limit - 1) rest in
    if is_pending_operation now value
    then (if leb limit 1 then value ∷ [] else value ∷ fewer)
    else all

-- ListPendingOperations
unfoldable pub list_pending_operations : {S : Type 0} → ℕ → ℕ → Repository S → List Operation
list_pending_operations now limit r = list_operations_from now limit r.operations

module _ {S : Type 0} (append : EventEnvelope → Action S Error (Unit {0})) where
  -- NewEvent and AppendEvent, where a sink is set.
  unfoldable pub publish : Result String EventEnvelope → Action (Repository S) Error (Unit {0})
  publish event r = elim r.event_sink [
    | none ↦ (ok tt, r)
    | some t ↦ elim event [
      | err reason ↦ (err (new_error internal reason), r)
      | ok e ↦ let (result, t') = append e t in (result, record r { event_sink = some t' })
    ]
  ]

  -- The end of Create: the event goes out before the maps are written.
  unfoldable pub create_new : Order → Action (Repository S) Error (Order × Bool)
  create_new value r =
      let (result, r') = publish (created_event value) r in
      elim result [
        | err e ↦ (err e, r')
        | ok _ ↦ (
          ok (value, false),
          record r' {
            orders = insert value.order_id value r'.orders;
            idempotency =
                insert (idempotency_key value.user_id value.idempotency_key) value.order_id
                  r'.idempotency;
          },
        )
      ]

  -- Create on a key that is taken. A key whose order is missing reads the zero order.
  unfoldable pub create_again : Order → Option Order → Action (Repository S) Error (Order × Bool)
  create_again value none r =
      if not (str_eq "" value.request_digest)
      then (err (new_error conflict "Idempotency-Key 对应的请求参数不一致"), r)
      else (ok (zero_order, true), r)
  create_again value (some existing) r =
      if not (str_eq existing.request_digest value.request_digest)
      then (err (new_error conflict "Idempotency-Key 对应的请求参数不一致"), r)
      else (ok (existing, true), r)

  -- Create
  unfoldable pub create : Order → Action (Repository S) Error (Order × Bool)
  create value r =
      elim (lookup (idempotency_key value.user_id value.idempotency_key) r.idempotency) [
        | none ↦ create_new value r
        | some order_id ↦ create_again value (lookup order_id r.orders) r
      ]

  -- Only a cancellation is published.
  unfoldable pub announce : Order → Status → String → ℕ → Action (Repository S) Error (Unit {0})
  announce value target reason now r =
      if same_status target canceled
      then publish (cancelled_event value reason now) r
      else (ok tt, r)

  -- The branch of Transition that moves the order.
  unfoldable pub move :
      String → Order → Status → String → String → ℕ → ℕ → Action (Repository S) Error Order
  move order_id value target reason actor_type actor_id now r =
      let (result, r') = announce value target reason now r in
      let moved = moved_order value target reason actor_type actor_id now in
      elim result [
        | err e ↦ (err e, r')
        | ok _ ↦ (ok moved, record r' { orders = insert order_id moved r'.orders })
      ]

  unfoldable pub transition_found :
      String
      → ℕ
      → Status
      → String
      → String
      → ℕ
      → ℕ
      → Option Order
      → Action (Repository S) Error Order
  transition_found order_id user_id target reason actor_type actor_id now none r = (err no_order, r)
  transition_found order_id user_id target reason actor_type actor_id now (some value) r =
      if not_owned user_id value
      then (err no_order, r)
      else if same_status value.status target
      then (ok value, r)
      else if not (can_transition value.status target)
      then (err (new_error invalid_transition "当前订单状态不能执行该操作"), r)
      else move order_id value target reason actor_type actor_id now r

  -- Transition
  unfoldable pub transition :
      String → ℕ → Status → String → String → ℕ → ℕ → Action (Repository S) Error Order
  transition order_id user_id target reason actor_type actor_id now r =
      transition_found order_id user_id target reason actor_type actor_id now
        (lookup order_id r.orders) r
