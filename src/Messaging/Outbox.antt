-- ===== src/Messaging/Outbox.antt =====
-- shared/platform/messaging/memory_store.go: MemoryStore.AppendEvent and MemoryOutboxStore, and
-- OutboxEvent.Envelope of types.go. Each method holds the mutex from its first read to its last write.
-- Headers are of a type H. Times count nanoseconds, and so does a lease, where 0 stands for any that is
-- not positive. `embedded` is json.Unmarshal of a payload into an envelope.
use Prim.Native.Nat.{Ordering}
use Prim.Native.String.{compare}
use seckill_mall.Base.{
  ℕ, ◌+◌, ◌%◌, ◌^◌, String, ◌<>◌, Bool, true, false, ◌&&◌, not, none, some, List, [], ◌∷◌, map, ℤ,
  pos, pos_part, leb_ℤ, ltb, leb, ◌==◌, take_bytes, if◌then◌else◌, Result, ok, err, Action, Table,
  lookup, insert,
}
use seckill_mall.Base.Slices.{take}
use seckill_mall.Base.Sorting.{sort_by}
use seckill_mall.Contracts.Events.{EventEnvelope, Payload, empty, invalid, validate}
use seckill_mall.Contracts.Payloads.{validate_event_payload}
use seckill_mall.Messaging.Inbox.{lease_of}

pub data OutboxStatus : Type 0 where
  pending publishing published failed : OutboxStatus

pub record OutboxEvent (H : Type 0) : Type 0 where
  pub id : ℕ
  pub event_id : String
  pub aggregate_type : String
  pub aggregate_id : String
  pub event_type : String
  pub event_version : ℤ
  pub payload : Payload
  pub headers : H
  pub status : OutboxStatus
  pub attempts : ℕ
  pub next_retry_at : ℕ
  pub last_error : String
  pub created_at : ℕ
  pub updated_at : ℕ

pub record Outbox (H : Type 0) : Type 0 where
  pub next_id : ℕ
  pub events : Table (OutboxEvent H)

-- truncateError
unfoldable pub truncate_error : String → String
truncate_error reason = take_bytes 255 reason

abbrev is_open : OutboxStatus → Bool
is_open pending = true
is_open publishing = true
is_open _ = false

abbrev text_before : String → String → Bool
text_before s t = elim (compare s t) [ Ordering.lt ↦ true | _ ↦ false ]

abbrev pub batch_limit : ℤ → ℕ
batch_limit limit = if leb_ℤ limit (pos 0) then 100 else pos_part limit

abbrev pub is_empty : Payload → Bool
is_empty empty = true
is_empty _ = false

-- json.Valid
abbrev pub is_json : Payload → Bool
is_json empty = false
is_json invalid = false
is_json _ = true

-- UnmarshalEnvelope, of a payload that json.Unmarshal has read
unfoldable pub checked : Result String EventEnvelope → Result String EventEnvelope
checked (err reason) = err reason
checked (ok event) = elim (validate event) [ err reason ↦ err reason | ok _ ↦ ok event ]

module _ {H : Type 0} where
  -- NewMemoryStore
  unfoldable pub new_outbox : Outbox H
  new_outbox = record { next_id = 1; events = [] }

  unfoldable pub new_outbox_event : ℕ → EventEnvelope → H → ℕ → OutboxEvent H
  new_outbox_event id event headers now = record {
    id = id;
    event_id = event.event_id;
    aggregate_type = event.aggregate_type;
    aggregate_id = event.aggregate_id;
    event_type = event.event_type;
    event_version = event.event_version;
    payload = event.payload;
    headers = headers;
    status = pending;
    attempts = 0;
    next_retry_at = now;
    last_error = "";
    created_at = now;
    updated_at = now;
  }

  unfoldable pub append_new : EventEnvelope → H → ℕ → Outbox H → Outbox H
  append_new event headers now o = record {
    next_id = (o.next_id + 1) % 2 ^ 64;
    events = insert event.event_id (new_outbox_event o.next_id event headers now) o.events;
  }

  -- AppendEvent
  unfoldable pub append_event : EventEnvelope → H → ℕ → Action (Outbox H) String (Unit {0})
  append_event event headers now o = elim (validate_event_payload event) [
    | err reason ↦ (err reason, o)
    | ok _ ↦ elim (lookup event.event_id o.events) [
      | some _ ↦ (ok tt, o)
      | none ↦ (ok tt, append_new event headers now o)
    ]
  ]

  abbrev pub is_due : ℕ → OutboxEvent H → Bool
  is_due now value = is_open value.status && leb value.next_retry_at now

  -- The loop of Claim over the map.
  unfoldable pub candidates : ℕ → Table (OutboxEvent H) → List (OutboxEvent H)
  candidates now [] = []
  candidates now ((_, value) ∷ rest) =
      let others = candidates now rest in if is_due now value then value ∷ others else others

  -- The order in which Claim takes them: by the time of the next try, the time of creation, the id.
  unfoldable pub precedes : OutboxEvent H → OutboxEvent H → Bool
  precedes a b =
      if not (a.next_retry_at == b.next_retry_at)
      then ltb a.next_retry_at b.next_retry_at
      else if not (a.created_at == b.created_at)
      then ltb a.created_at b.created_at
      else if not (a.id == b.id)
      then ltb a.id b.id
      else text_before a.event_id b.event_id

  unfoldable pub claimed_event : ℕ → ℕ → OutboxEvent H → OutboxEvent H
  claimed_event now lease value = record value {
    status = publishing;
    attempts = value.attempts + 1;
    next_retry_at = now + lease;
    updated_at = now;
  }

  -- The loop of Claim over the chosen events.
  unfoldable pub claim_each :
      ℕ → ℕ → List (OutboxEvent H) → Table (OutboxEvent H) → Table (OutboxEvent H)
  claim_each now lease [] events = events
  claim_each now lease (value ∷ rest) events =
      claim_each now lease rest (insert value.event_id (claimed_event now lease value) events)

  unfoldable pub chosen : ℕ → ℤ → Outbox H → List (OutboxEvent H)
  chosen now limit o = take (batch_limit limit) (sort_by precedes (candidates now o.events))

  -- Claim, which does not fail
  unfoldable pub claim_batch : ℕ → ℤ → ℕ → Outbox H → List (OutboxEvent H) × Outbox H
  claim_batch now limit lease o =
      let values = chosen now limit o in
      (
        map (claimed_event now (lease_of lease)) values,
        record o { events = claim_each now (lease_of lease) values o.events },
      )

  -- updateOutbox
  unfoldable pub update_outbox :
      String → (OutboxEvent H → OutboxEvent H) → ℕ → Action (Outbox H) String (Unit {0})
  update_outbox event_id update now o = elim (lookup event_id o.events) [
    | none ↦ (err "outbox event not found", o)
    | some value ↦ (
      ok tt,
      record o { events = insert event_id (record (update value) { updated_at = now }) o.events },
    )
  ]

  -- MarkPublished
  unfoldable pub mark_published : String → ℕ → Action (Outbox H) String (Unit {0})
  mark_published event_id =
      update_outbox event_id (λ value. record value { status = published; last_error = "" })

  -- MarkRetry
  unfoldable pub mark_retry : String → ℕ → String → ℕ → Action (Outbox H) String (Unit {0})
  mark_retry event_id next reason = update_outbox event_id (λ value. record value {
    status = pending;
    next_retry_at = next;
    last_error = truncate_error reason;
  })

  -- MarkFailed
  unfoldable pub mark_failed : String → String → ℕ → Action (Outbox H) String (Unit {0})
  mark_failed event_id reason =
      update_outbox event_id
        (λ value. record value { status = failed; last_error = truncate_error reason })

  -- OutboxEvents
  unfoldable pub outbox_events : Outbox H → List (OutboxEvent H)
  outbox_events o =
      sort_by (λ a b. ltb a.id b.id) (map (λ (entry : String × OutboxEvent H). entry.1) o.events)

  -- The envelope that Envelope rebuilds from the columns.
  unfoldable pub rebuilt : OutboxEvent H → EventEnvelope
  rebuilt e = record {
    event_id = e.event_id;
    event_type = e.event_type;
    event_version = e.event_version;
    aggregate_type = e.aggregate_type;
    aggregate_id = e.aggregate_id;
    occurred_at = e.created_at;
    trace_id = "";
    payload = e.payload;
  }

  -- Envelope: an old row holds the whole envelope as its payload.
  unfoldable pub envelope :
      (Payload → Result String EventEnvelope) → OutboxEvent H → Result String EventEnvelope
  envelope embedded e = elim (checked (embedded e.payload)) [
    | ok event ↦ ok event
    | err _ ↦
        if not (is_json e.payload)
        then err "outbox payload must be valid JSON"
        else elim (validate (rebuilt e)) [
          | err reason ↦ err ("rebuild outbox event envelope: " <> reason)
          | ok _ ↦ ok (rebuilt e)
        ]
  ]
