-- ===== src/Messaging/Delivery.antt =====
-- shared/platform/messaging/memory_store.go: the calls of the outbox, their histories, and the
-- records that the outbox has.
use seckill_mall.Base.{
  ℕ, ◌<◌, ◌≡◌, refl, sym, subst, String, false, some, List, [], ◌∷◌, ℤ, ok, arith, eq_iff,
  Bool-cases, Option-cases, Result-cases, inl, inr, Table, lookup, insert, EachEntry,
  EachEntry-insert, str_eq,
}
use seckill_mall.Base.Slices.{All, All-take}
use seckill_mall.Base.Sorting.{sort_by, All-sort_by}
use seckill_mall.Contracts.Events.{EventEnvelope, validate}
use seckill_mall.Contracts.Payloads.{validate_event_payload}
use seckill_mall.Messaging.Inbox.{lease_of}
use seckill_mall.Messaging.Outbox.{
  OutboxEvent, Outbox, new_outbox_event, append_new, append_event, is_due, is_empty, candidates,
  precedes, batch_limit, claimed_event, claim_each, chosen, claim_batch, update_outbox,
  mark_published, mark_retry, mark_failed, rebuilt,
}

-- An event stands under its id, and its envelope can be rebuilt.
pub record IsRecord {H : Type 0} (key : String) (e : OutboxEvent H) : Type 0 where
  pub keyed : e.event_id ≡ key
  pub valid : validate (rebuilt e) ≡ ok tt
  pub present : is_empty e.payload ≡ false

abbrev pub IsOutbox : {H : Type 0} → Outbox H → Type 0
IsOutbox o = EachEntry IsRecord o.events

-- The calls of the store.
pub data Call (H : Type 0) : Type 0 where
  append : EventEnvelope → H → ℕ → Call H
  claim : ℕ → ℤ → ℕ → Call H
  publish : String → ℕ → Call H
  retry : String → ℕ → String → ℕ → Call H
  fail : String → String → ℕ → Call H

-- No event is appended at the zero time.
abbrev pub IsTimed : {H : Type 0} → Call H → Type 0
IsTimed (append event headers now) = 0 < now
IsTimed _ = Unit {0}

module _ {H : Type 0} where
  unfoldable pub perform : Call H → Outbox H → Outbox H
  perform (append event headers now) o = (append_event event headers now o).1
  perform (claim now limit lease) o = (claim_batch now limit lease o).1
  perform (publish event_id now) o = (mark_published event_id now o).1
  perform (retry event_id next reason now) o = (mark_retry event_id next reason now o).1
  perform (fail event_id reason now) o = (mark_failed event_id reason now o).1

  unfoldable pub run : List (Call H) → Outbox H → Outbox H
  run [] o = o
  run (call ∷ rest) o = run rest (perform call o)

  new_outbox_event-IsRecord :
      (id : ℕ) (event : EventEnvelope) (headers : H) (now : ℕ)
      → 0 < now
      → validate_event_payload event ≡ ok tt
      → IsRecord event.event_id (new_outbox_event id event headers now)
  unfolding new_outbox_event rebuilt validate validate_event_payload
  new_outbox_event-IsRecord id event headers now positive h = record {
    keyed = refl;
    valid = ground arith;
    present = ground arith;
  }

  append_event-IsOutbox :
      (event : EventEnvelope) (headers : H) (now : ℕ) (o : Outbox H)
      → 0 < now
      → IsOutbox o
      → IsOutbox (append_event event headers now o).1
  unfolding append_event append_new
  append_event-IsOutbox event headers now o positive s =
      elim (Result-cases (validate_event_payload event)) [
        | inr (_, bad) ↦ rw (bad, append_event) s
        | inl (_, good) ↦ elim (Option-cases (lookup event.event_id o.events)) [
          | inr (_, known) ↦ rw (good, known, append_event) s
          | inl new ↦
              rw (good, new, append_event)
                (EachEntry-insert IsRecord event.event_id
                  (new_outbox_event o.next_id event headers now) o.events
                  (new_outbox_event-IsRecord o.next_id event headers now positive good) s)
        ]
      ]

  pub lookup-IsRecord :
      (events : Table (OutboxEvent H)) (key : String) (e : OutboxEvent H)
      → EachEntry IsRecord events
      → lookup key events ≡ some e
      → IsRecord key e
  unfolding lookup
  lookup-IsRecord [] key e s = λ h. absurd (cc h)
  lookup-IsRecord ((first, value) ∷ rest) key e s = elim (Bool-cases (str_eq first key)) [
    | inl same ↦ rw same (λ h.
        subst (λ k. IsRecord k e) ((eq_iff first key).0 same)
          (subst (λ (v : OutboxEvent H). IsRecord first v) (some_inj value e h) s.0))
    | inr other ↦ rw other (λ h. lookup-IsRecord rest key e s.1 h)
  ]
    where
      some_inj : (a b : OutboxEvent H) → some a ≡ some b → a ≡ b
      some_inj a b h = cc

  update_outbox-IsOutbox :
      (event_id : String) (update : OutboxEvent H → OutboxEvent H) (now : ℕ) (o : Outbox H)
      → ((e : OutboxEvent H)
          → IsRecord event_id e
          → IsRecord event_id (record (update e) { updated_at = now }))
      → IsOutbox o
      → IsOutbox (update_outbox event_id update now o).1
  unfolding update_outbox
  update_outbox-IsOutbox event_id update now o keep s =
      elim (Option-cases (lookup event_id o.events)) [
        | inl missing ↦ rw (missing, update_outbox) s
        | inr (e, found) ↦
            rw (found, update_outbox)
              (EachEntry-insert IsRecord event_id (record (update e) { updated_at = now }) o.events
                (keep e (lookup-IsRecord o.events event_id e s found)) s)
      ]

  candidates-IsRecord :
      (now : ℕ) (events : Table (OutboxEvent H))
      → EachEntry IsRecord events
      → All (λ e. IsRecord e.event_id e) (candidates now events)
  unfolding candidates
  candidates-IsRecord now [] s = tt
  candidates-IsRecord now ((key, e) ∷ rest) s = elim (Bool-cases (is_due now e)) [
    | inl due ↦
        rw due (subst (λ k. IsRecord k e) (sym s.0.keyed) s.0, candidates-IsRecord now rest s.1)
    | inr later ↦ rw later (candidates-IsRecord now rest s.1)
  ]

  pub chosen-IsRecord :
      (now : ℕ) (limit : ℤ) (o : Outbox H)
      → IsOutbox o
      → All (λ e. IsRecord e.event_id e) (chosen now limit o)
  unfolding chosen
  chosen-IsRecord now limit o s =
      All-take (λ e. IsRecord e.event_id e) (batch_limit limit)
        (sort_by precedes (candidates now o.events))
        (All-sort_by precedes (λ e. IsRecord e.event_id e) (candidates now o.events)
          (candidates-IsRecord now o.events s))

  pub claimed_event-IsRecord :
      (now lease : ℕ) (key : String) (e : OutboxEvent H)
      → IsRecord key e
      → IsRecord key (claimed_event now lease e)
  unfolding claimed_event rebuilt
  claimed_event-IsRecord now lease key e s = record {
    keyed = s.keyed;
    valid = s.valid;
    present = s.present;
  }

  claim_each-IsOutbox :
      (now lease : ℕ) (values : List (OutboxEvent H)) (events : Table (OutboxEvent H))
      → All (λ e. IsRecord e.event_id e) values
      → EachEntry IsRecord events
      → EachEntry IsRecord (claim_each now lease values events)
  unfolding claim_each
  claim_each-IsOutbox now lease [] events all s = s
  claim_each-IsOutbox now lease (e ∷ rest) events all s =
      claim_each-IsOutbox now lease rest (insert e.event_id (claimed_event now lease e) events)
        all.1
        (EachEntry-insert IsRecord e.event_id (claimed_event now lease e) events
          (claimed_event-IsRecord now lease e.event_id e all.0) s)

  perform-IsOutbox :
      (call : Call H) (o : Outbox H) → IsTimed call → IsOutbox o → IsOutbox (perform call o)
  unfolding perform mark_published mark_retry mark_failed claim_batch rebuilt
  perform-IsOutbox (append event headers now) o timed s =
      append_event-IsOutbox event headers now o timed s
  perform-IsOutbox (claim now limit lease) o timed s =
      claim_each-IsOutbox now (lease_of lease) (chosen now limit o) o.events
        (chosen-IsRecord now limit o s) s
  perform-IsOutbox (publish event_id now) o timed s =
      update_outbox-IsOutbox event_id _ now o
        (λ e r. record { keyed = r.keyed; valid = r.valid; present = r.present }) s
  perform-IsOutbox (retry event_id next reason now) o timed s =
      update_outbox-IsOutbox event_id _ now o
        (λ e r. record { keyed = r.keyed; valid = r.valid; present = r.present }) s
  perform-IsOutbox (fail event_id reason now) o timed s =
      update_outbox-IsOutbox event_id _ now o
        (λ e r. record { keyed = r.keyed; valid = r.valid; present = r.present }) s

  -- After any calls, none of which appends at the zero time, a store that started so still holds every
  -- event under its own id, with a payload, and with columns from which a valid envelope is rebuilt.
  pub run-IsOutbox :
      (calls : List (Call H)) (o : Outbox H)
      → All IsTimed calls
      → IsOutbox o
      → IsOutbox (run calls o)
  unfolding run
  run-IsOutbox [] o timed s = s
  run-IsOutbox (call ∷ rest) o timed s =
      run-IsOutbox rest (perform call o) timed.1 (perform-IsOutbox call o timed.0 s)
