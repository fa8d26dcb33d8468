-- ===== src/Messaging/Tests.antt =====
-- The inbox on small inputs, and its theorems at inputs that meet their conditions.
use seckill_mall.Base.{
  ℕ, ◌≡◌, ◌≢◌, refl, String, true, false, List, [], ◌∷◌, pos, arith, lookup, eq_iff, trim_space,
  leb_ℤ, pos_part, if◌then◌else◌, ◌^◌, ◌*◌, ◌-◌,
}
use seckill_mall.Contracts.Events.{EventEnvelope, object, validate, inbox_key}
use seckill_mall.Messaging.Inbox.{
  Inbox, InboxRecord, InboxClaim, processed, claim, claim_at, claim_new, claim_known, mark_failed,
  update_inbox,
}
use seckill_mall.Messaging.Leases.{Refused, claim_excludes}
use seckill_mall.Messaging.Processed.{Call, fails, claims, handle, handle_all, never_again}
use seckill_mall.Messaging.Delays.{retry_delay, retry_delay_closed, five_minutes, second, min}

abbrev event : EventEnvelope
event = record {
  event_id = "e1";
  event_type = "t";
  event_version = pos 1;
  aggregate_type = "order";
  aggregate_id = "o1";
  occurred_at = 1;
  trace_id = "";
  payload = object [];
}

abbrev granted : InboxClaim
granted = record { claimed = true; already_processed = false; attempts = 1 }

claim_excludes_example :
    Refused
      (claim "order" event 10 100 []).1
      (claim "order" event 10 105 (claim "order" event 10 100 []).1)
unfolding claim validate inbox_key trim_space claim_at claim_new lookup
claim_excludes_example =
    claim_excludes "order" event 10 100 [] granted 10 105 refl refl (omega arith)

abbrev finished : InboxRecord
finished = record {
  consumer = "order";
  event_id = "e1";
  status = processed;
  attempts = 1;
  updated = 100;
}

abbrev inbox : Inbox
inbox = ("order:e1", finished) ∷ []

abbrev history : List (ℕ × Call)
history = (200, claims "order" event 10) ∷ (201, fails "order" "e2") ∷ []

abbrev answer : InboxClaim
answer = record { claimed = false; already_processed = true; attempts = 1 }

other_key : ◌≢◌ {A = String} "order:e2" "order:e1"
other_key = ground (arith, eq_iff "order:e2" "order:e1")

never_again_example : (answer.claimed ≡ false) × (answer.already_processed ≡ true)
unfolding handle_all claim validate inbox_key trim_space claim_at claim_known lookup handle
    mark_failed update_inbox
never_again_example =
    never_again "order:e1" "order" event 10 300 history inbox refl (finished, refl, refl)
      (other_key, tt) answer refl

retry_delay_closed_example :
    retry_delay 9 (pos 0)
    ≡ pos (
        min five_minutes
          (2 ^ min 5 (9 - 1) * (if leb_ℤ (pos 0) (pos 0) then second else pos_part (pos 0))))
retry_delay_closed_example = retry_delay_closed 9 (pos 0) (omega arith)
