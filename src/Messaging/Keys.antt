-- ===== src/Messaging/Keys.antt =====
-- shared/platform/messaging/memory_store.go: the keys of the map of the outbox.
use seckill_mall.Base.{
  ℕ, ◌≡◌, refl, sym, ap, ◌∙◌, String, true, none, some, List, [], ◌∷◌, arith, eq_iff, Bool-cases,
  Option-cases, Result-cases, inl, inr, Table, lookup, insert, lookup-insert, EachEntry, str_eq,
}
use seckill_mall.Contracts.Events.{EventEnvelope}
use seckill_mall.Contracts.Payloads.{validate_event_payload}
use seckill_mall.Messaging.Inbox.{lease_of}
use seckill_mall.Messaging.Outbox.{
  OutboxEvent, Outbox, new_outbox_event, append_new, append_event, claimed_event, claim_each,
  chosen, claim_batch, update_outbox, mark_published, mark_retry, mark_failed,
}
use seckill_mall.Messaging.Delivery.{Call, append, claim, publish, retry, fail, perform, run}

-- No key occurs twice.
abbrev pub IsMap : {V : Type 0} → Table V → Type 0
IsMap [] = Unit {0}
IsMap ((key, _) ∷ rest) = (lookup key rest ≡ none) × IsMap rest

module _ {V : Type 0} where
  insert-IsMap : (key : String) (value : V) (m : Table V) → IsMap m → IsMap (insert key value m)
  unfolding insert lookup
  insert-IsMap key value [] d = (refl, tt)
  insert-IsMap key value ((first, old) ∷ rest) d = elim (Bool-cases (str_eq first key)) [
    | inl same ↦ rw same (ap (λ k. lookup k rest) (sym ((eq_iff first key).0 same)) ∙ d.0, d.1)
    | inr other ↦ rw other (
      lookup-insert key first value rest ∙ ground (arith, eq_iff first key, eq_iff key first),
      insert-IsMap key value rest d.1,
    )
  ]

  some_inj : (a b : V) → some a ≡ some b → a ≡ b
  some_inj a b h = cc

  -- What stands under a key that is missing.
  absent_each :
      (key : String) (m : Table V) (P : String → V → Type 0)
      → lookup key m ≡ none
      → EachEntry (λ k v. str_eq k key ≡ true → P k v) m
  unfolding lookup
  absent_each key [] P = λ h. tt
  absent_each key ((first, value) ∷ rest) P = elim (Bool-cases (str_eq first key)) [
    | inl same ↦ rw same (λ h. absurd (cc h))
    | inr other ↦ rw other (λ h. (λ same. absurd (ground arith), absent_each key rest P h))
  ]

  -- What stands under a key is what is found there.
  pub found_each :
      (key : String) (v : V) (m : Table V)
      → IsMap m
      → lookup key m ≡ some v
      → EachEntry (λ k u. str_eq k key ≡ true → v ≡ u) m
  unfolding lookup
  found_each key v [] d = λ h. absurd (cc h)
  found_each key v ((first, value) ∷ rest) d = elim (Bool-cases (str_eq first key)) [
    | inl same ↦
        let gone = ap (λ k. lookup k rest) (sym ((eq_iff first key).0 same)) ∙ d.0 in
        rw same (λ h. (λ _. sym (some_inj value v h), absent_each key rest (λ k u. v ≡ u) gone))
    | inr other ↦ rw other (λ h. (λ same. absurd (ground arith), found_each key v rest d.1 h))
  ]

module _ {H : Type 0} where
  claim_each-IsMap :
      (now lease : ℕ) (values : List (OutboxEvent H)) (m : Table (OutboxEvent H))
      → IsMap m
      → IsMap (claim_each now lease values m)
  unfolding claim_each
  claim_each-IsMap now lease [] m d = d
  claim_each-IsMap now lease (e ∷ rest) m d =
      claim_each-IsMap now lease rest (insert e.event_id (claimed_event now lease e) m)
        (insert-IsMap e.event_id (claimed_event now lease e) m d)

  append_event-IsMap :
      (event : EventEnvelope) (headers : H) (now : ℕ) (o : Outbox H)
      → IsMap o.events
      → IsMap (append_event event headers now o).1.events
  unfolding append_event append_new
  append_event-IsMap event headers now o d = elim (Result-cases (validate_event_payload event)) [
    | inr (_, bad) ↦ rw (bad, append_event) d
    | inl (_, good) ↦ elim (Option-cases (lookup event.event_id o.events)) [
      | inr (_, known) ↦ rw (good, known, append_event) d
      | inl new ↦
          rw (good, new, append_event)
            (insert-IsMap event.event_id (new_outbox_event o.next_id event headers now) o.events d)
    ]
  ]

  update_outbox-IsMap :
      (event_id : String) (update : OutboxEvent H → OutboxEvent H) (now : ℕ) (o : Outbox H)
      → IsMap o.events
      → IsMap (update_outbox event_id update now o).1.events
  unfolding update_outbox
  update_outbox-IsMap event_id update now o d = elim (Option-cases (lookup event_id o.events)) [
    | inl missing ↦ rw (missing, update_outbox) d
    | inr (e, found) ↦
        rw (found, update_outbox)
          (insert-IsMap event_id (record (update e) { updated_at = now }) o.events d)
  ]

  perform-IsMap : (call : Call H) (o : Outbox H) → IsMap o.events → IsMap (perform call o).events
  unfolding perform mark_published mark_retry mark_failed claim_batch
  perform-IsMap (append event headers now) o d = append_event-IsMap event headers now o d
  perform-IsMap (claim now limit lease) o d =
      claim_each-IsMap now (lease_of lease) (chosen now limit o) o.events d
  perform-IsMap (publish event_id now) o d = update_outbox-IsMap event_id _ now o d
  perform-IsMap (retry event_id next reason now) o d = update_outbox-IsMap event_id _ now o d
  perform-IsMap (fail event_id reason now) o d = update_outbox-IsMap event_id _ now o d

  pub run-IsMap :
      (calls : List (Call H)) (o : Outbox H) → IsMap o.events → IsMap (run calls o).events
  unfolding run
  run-IsMap [] o d = d
  run-IsMap (call ∷ rest) o d = run-IsMap rest (perform call o) (perform-IsMap call o d)
