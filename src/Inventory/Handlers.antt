-- ===== src/Inventory/Handlers.antt =====
-- services/inventory/internal/app/events.go and memory_stream.go: the handlers of order.cancelled.v1
-- and payment.refunded.v1, over the memory store, and the event stream that keeps a list.
use seckill_mall.Base.{
  ℕ, ◌+◌, String, Option, none, some, List, [], ◌∷◌, ◌++◌, if◌then◌else◌, str_eq, Table, Action,
  Result, ok, err,
}
use seckill_mall.Contracts.Events.{EventEnvelope}
use seckill_mall.Contracts.Payloads.{validate_event_payload}
use seckill_mall.Contracts.Decode.{decode_order_cancelled, decode_payment_refunded}
use seckill_mall.Inventory.Model.{Reservation, Error, not_found}
use seckill_mall.Inventory.Store.{MemoryStore, release, restock}

pub record StreamEvent : Type 0 where
  pub id : String
  pub event : EventEnvelope

-- MemoryEventStream.Append
unfoldable pub stream_append : EventEnvelope → Action (List StreamEvent) String (Unit {0})
stream_append event events = (ok tt, events ++ record { id = event.event_id; event = event } ∷ [])

-- MemoryEventStream.Events
unfoldable pub stream_events : List StreamEvent → List StreamEvent
stream_events events = events

-- ReservationIDsByOrder
unfoldable pub reservation_ids_by_order : String → Table Reservation → List String
reservation_ids_by_order order_id [] = []
reservation_ids_by_order order_id ((id, r) ∷ m) =
    let rest = reservation_ids_by_order order_id m in
    if str_eq r.order_id order_id then id ∷ rest else rest

pub data HandlerError : Type 0 where
  decode_error : String → HandlerError
  store_error : Error → HandlerError

-- decodeInventoryPayload
unfoldable pub decode_inventory_payload :
    {A : Type 0} → (EventEnvelope → Result String A) → EventEnvelope → Result HandlerError A
decode_inventory_payload decode event = elim (validate_event_payload event) [
  | err reason ↦ err (decode_error reason)
  | ok _ ↦ elim (decode event) [ err reason ↦ err (decode_error reason) | ok payload ↦ ok payload ]
]

-- `err != nil && err != ErrNotFound`: the error at which a handler's loop stops.
abbrev pub stopping : Result Error Reservation → Option Error
stopping (ok _) = none
stopping (err not_found) = none
stopping (err e) = some e

module _ {S : Type 0} where
  -- The loop over the reservations. The i-th call of the handler is made at the time `clock i`.
  unfoldable pub each_reservation :
      (String → ℕ → Action (MemoryStore S) Error Reservation)
      → (ℕ → ℕ)
      → ℕ
      → List String
      → Action (MemoryStore S) HandlerError (Unit {0})
  each_reservation call clock i [] s = (ok tt, s)
  each_reservation call clock i (id ∷ ids) s =
      let (result, s') = call id (clock i) s in
      elim (stopping result) [
        | none ↦ each_reservation call clock (i + 1) ids s'
        | some e ↦ (err (store_error e), s')
      ]

module _ {S : Type 0} (append : EventEnvelope → Action S String (Unit {0})) where
  -- orderCancelled
  unfoldable pub order_cancelled :
      EventEnvelope → (ℕ → ℕ) → Action (MemoryStore S) HandlerError (Unit {0})
  order_cancelled event clock s =
      elim (decode_inventory_payload (λ e. decode_order_cancelled e.payload) event) [
        | err e ↦ (err e, s)
        | ok p ↦ each_reservation (λ id. release append id p.order_id) clock 0 p.reservation_ids s
      ]

  -- paymentRefunded; the memory store has ReservationIDsByOrder.
  unfoldable pub payment_refunded :
      EventEnvelope → (ℕ → ℕ) → Action (MemoryStore S) HandlerError (Unit {0})
  payment_refunded event clock s =
      elim (decode_inventory_payload (λ e. decode_payment_refunded e.payload) event) [
        | err e ↦ (err e, s)
        | ok p ↦
            each_reservation (λ id. restock append id p.order_id) clock 0
              (reservation_ids_by_order p.order_id s.reservations) s
      ]
