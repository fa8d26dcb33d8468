-- ===== src/Messaging/Inbox.antt =====
-- shared/platform/messaging/memory_store.go: MemoryInboxStore. Each method holds the mutex while it
-- works on the map. Times count nanoseconds, and so does a lease, where 0 stands for any that is not
-- positive.
use seckill_mall.Base.{
  ℕ, ◌+◌, ◌*◌, String, ◌<>◌, Bool, true, false, Option, none, some, Table, lookup, insert, ltb,
  ◌==◌, if◌then◌else◌, ok, err, Action,
}
use seckill_mall.Contracts.Events.{EventEnvelope, validate, inbox_key}

pub data InboxStatus : Type 0 where
  processing processed : InboxStatus

pub record InboxRecord : Type 0 where
  pub consumer : String
  pub event_id : String
  pub status : InboxStatus
  pub attempts : ℕ
  pub updated : ℕ

pub record InboxClaim : Type 0 where
  pub claimed : Bool
  pub already_processed : Bool
  pub attempts : ℕ

abbrev pub Inbox : Type 0
Inbox = Table InboxRecord

abbrev second : ℕ
second = 1000000000

-- A lease that is not positive is thirty seconds.
abbrev pub lease_of : ℕ → ℕ
lease_of lease = if lease == 0 then 30 * second else lease

-- The branch of Claim on an event that was not seen before.
unfoldable pub claim_new : String → String → String → ℕ → Action Inbox String InboxClaim
claim_new key consumer event_id now inbox = (
  ok (record { claimed = true; already_processed = false; attempts = 1 }),
  insert key
      (record {
        consumer = consumer;
        event_id = event_id;
        status = processing;
        attempts = 1;
        updated = now;
      })
      inbox,
)

-- The branch on an event in work: its lease holds, or is taken over.
unfoldable pub claim_working : String → ℕ → ℕ → InboxRecord → Action Inbox String InboxClaim
claim_working key lease now value inbox =
    if ltb now (value.updated + lease)
    then (
      ok (record { claimed = false; already_processed = false; attempts = value.attempts }),
      inbox,
    )
    else (
      ok (record { claimed = true; already_processed = false; attempts = value.attempts + 1 }),
      insert key
          (record value { status = processing; attempts = value.attempts + 1; updated = now })
          inbox,
    )

unfoldable pub claim_known :
    String → ℕ → ℕ → InboxStatus → InboxRecord → Action Inbox String InboxClaim
claim_known key lease now processed value inbox =
    (ok (record { claimed = false; already_processed = true; attempts = value.attempts }), inbox)
claim_known key lease now processing value inbox = claim_working key lease now value inbox

unfoldable pub claim_at :
    String → String → String → ℕ → ℕ → Option InboxRecord → Action Inbox String InboxClaim
claim_at key consumer event_id lease now none inbox = claim_new key consumer event_id now inbox
claim_at key consumer event_id lease now (some value) inbox =
    claim_known key lease now value.status value inbox

-- Claim
unfoldable pub claim : String → EventEnvelope → ℕ → ℕ → Action Inbox String InboxClaim
claim consumer event lease now inbox = elim (validate event) [
  | err reason ↦ (err reason, inbox)
  | ok _ ↦ elim (inbox_key event consumer) [
    | err reason ↦ (err reason, inbox)
    | ok key ↦ claim_at key consumer event.event_id (lease_of lease) now (lookup key inbox) inbox
  ]
]

-- updateInbox. Its key has the consumer as it is, where Claim trims it.
unfoldable pub update_inbox : String → String → InboxStatus → ℕ → Action Inbox String (Unit {0})
update_inbox consumer event_id status now inbox =
    elim (lookup (consumer <> (":" <> event_id)) inbox) [
      | none ↦ (err "inbox event not found", inbox)
      | some value ↦ (
        ok tt,
        insert (consumer <> (":" <> event_id)) (record value { status = status; updated = now })
            inbox,
      )
    ]

-- MarkProcessed
unfoldable pub mark_processed : String → String → ℕ → Action Inbox String (Unit {0})
mark_processed consumer event_id now = update_inbox consumer event_id processed now

-- MarkFailed
unfoldable pub mark_failed : String → String → ℕ → Action Inbox String (Unit {0})
mark_failed consumer event_id now = update_inbox consumer event_id processing now
