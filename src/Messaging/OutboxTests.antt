-- ===== src/Messaging/OutboxTests.antt =====
-- The outbox and its publishing on small inputs.
use seckill_mall.Base.{
  ℕ, ◌≡◌, true, refl, subst, String, List, [], ◌∷◌, pos, Result, ok, err, Action, arith, lookup,
  insert,
}
use seckill_mall.Contracts.Events.{EventEnvelope, Payload, contains, order_cancelled, validate}
use seckill_mall.Contracts.Payloads.{
  order_cancelled_json, required_fields, check_object, validate_event_payload,
}
use seckill_mall.Messaging.Outbox.{
  new_outbox, append_event, append_new, new_outbox_event, candidates, envelope, rebuilt, checked,
}
use seckill_mall.Messaging.Worker.{publish_outbox_batch}
use seckill_mall.Messaging.Delivery.{IsOutbox, run-IsOutbox, Call, append, perform, run}
use seckill_mall.Messaging.Sending.{IsDelivered}
use seckill_mall.Messaging.Batches.{batch_delivers}

abbrev event : EventEnvelope
event = record {
  event_id = "e1";
  event_type = order_cancelled;
  event_version = pos 1;
  aggregate_type = "order";
  aggregate_id = "o1";
  occurred_at = 3;
  trace_id = "";
  payload =
      order_cancelled_json
        (record { order_id = "o1"; user_id = 7; reason = "late"; reservation_ids = [] });
}

abbrev calls : List (Call (Unit {0}))
calls = append event tt 5 ∷ []

run-IsOutbox_example : IsOutbox (run calls new_outbox)
unfolding new_outbox
run-IsOutbox_example = run-IsOutbox calls new_outbox (omega arith, tt) tt

-- A payload that is no envelope, and a broker that takes every event and lists their ids.
abbrev bare : Payload → Result String EventEnvelope
bare payload = err "no envelope"

abbrev sent : EventEnvelope → Unit {0} → Action (List String) String (Unit {0})
sent event _ log = (ok tt, event.event_id ∷ log)

abbrev nine : List String → ℕ
nine _ = 9

abbrev HasE1 : List String → Type 0
HasE1 log = contains "e1" log ≡ true

lists_e1 :
    (event' : EventEnvelope) (log : List String)
    → envelope bare (new_outbox_event 1 event tt 5) ≡ ok event'
    → HasE1 (event'.event_id ∷ log)
unfolding envelope new_outbox_event rebuilt validate checked order_cancelled_json
lists_e1 event' log good =
    subst
      (λ (r : Result String EventEnvelope). elim r [
        | ok made ↦ HasE1 (made.event_id ∷ log)
        | err _ ↦ Unit {0}
      ])
      good refl

batch_delivers_example :
    IsDelivered "e1" HasE1
      (publish_outbox_batch bare sent nine
        (pos 10)
        (record { outbox = run calls new_outbox; outside = [] })).1
unfolding new_outbox_event lookup run perform append_event append_new validate_event_payload
    validate new_outbox order_cancelled_json required_fields check_object insert candidates
batch_delivers_example =
    batch_delivers bare sent nine calls [] (pos 10) "e1" (new_outbox_event 1 event tt 5) HasE1
      (omega arith, tt) refl refl refl (omega arith) (λ _ _ _. refl) lists_e1
      (λ event' _ log h. ground arith)
