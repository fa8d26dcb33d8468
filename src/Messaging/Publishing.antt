-- ===== src/Messaging/Publishing.antt =====
-- shared/platform/messaging/worker.go: the publishing of one event, the records of the outbox and
-- the outside.
use seckill_mall.Base.{
  ℕ, ◌≡◌, refl, ap, sym, subst, ◌∙◌, String, true, false, Option, some, List, [], ◌∷◌, Result, ok,
  Action, eq_iff, Bool-cases, Option-cases, Result-cases, inl, inr, ◌⊎◌, leb, Table, lookup, insert,
  lookup-insert, str_eq, if◌then◌else◌,
}
use seckill_mall.Contracts.Events.{EventEnvelope, Payload}
use seckill_mall.Messaging.Outbox.{
  OutboxEvent, Outbox, published, claimed_event, claim_each, update_outbox, mark_published,
  mark_retry, mark_failed, rebuilt, checked, envelope, is_json,
}
use seckill_mall.Messaging.Worker.{World, publish_failed, publish_done, publish_one}
use seckill_mall.Messaging.Delivery.{IsRecord}

module _ {H : Type 0} where
  -- The outbox has a record of this id.
  abbrev pub IsKnown : String → Outbox H → Type 0
  IsKnown key o = (f : OutboxEvent H) × (lookup key o.events ≡ some f)

  -- The record of this id is published.
  abbrev pub IsDone : String → Outbox H → Type 0
  IsDone key o = (f : OutboxEvent H) × (lookup key o.events ≡ some f) × (f.status ≡ published)

  -- A record of this id is among the events.
  abbrev pub Occurs : String → List (OutboxEvent H) → Type 0
  Occurs key [] = ⊥
  Occurs key (e ∷ rest) = (str_eq e.event_id key ≡ true) ⊎ Occurs key rest

  -- The same record before and after.
  abbrev Same : String → Outbox H → Outbox H → Type 0
  Same key o o' = lookup key o'.events ≡ lookup key o.events

  update_outbox_other :
      (event_id key : String) (update : OutboxEvent H → OutboxEvent H) (now : ℕ) (o : Outbox H)
      → str_eq event_id key ≡ false
      → Same key o (update_outbox event_id update now o).1
  unfolding update_outbox
  update_outbox_other event_id key update now o other =
      elim (Option-cases (lookup event_id o.events)) [
        | inl missing ↦ rw (missing, update_outbox) refl
        | inr (e, found) ↦
            rw (found, update_outbox)
              (lookup-insert event_id key (record (update e) { updated_at = now }) o.events
                ∙ ap
                    (λ b.
                      if b
                      then some (record (update e) { updated_at = now })
                      else lookup key o.events)
                    other)
      ]

  pub mark_published-IsDone :
      (event_id key : String) (now : ℕ) (o : Outbox H)
      → str_eq event_id key ≡ true
      → IsKnown key o
      → IsDone key (mark_published event_id now o).1
  unfolding mark_published update_outbox
  mark_published-IsDone event_id key now o same (f, found) =
      let stands : lookup event_id o.events ≡ some f =
        ap (λ k. lookup k o.events) ((eq_iff event_id key).0 same) ∙ found in
      let done : OutboxEvent H = record f {
        status = published;
        last_error = "";
        updated_at = now;
      } in
      rw (stands, update_outbox)
        (
          done,
          lookup-insert event_id key done o.events
              ∙ ap (λ b. if b then some done else lookup key o.events) same,
          refl,
        )

  pub claim_each-IsKnown :
      (now lease : ℕ) (key : String) (values : List (OutboxEvent H))
      (events : Table (OutboxEvent H))
      → ((f : OutboxEvent H) × (lookup key events ≡ some f))
      → (f : OutboxEvent H) × (lookup key (claim_each now lease values events) ≡ some f)
  unfolding claim_each
  claim_each-IsKnown now lease key [] events known = known
  claim_each-IsKnown now lease key (e ∷ rest) events (f, found) =
      let kept = claimed_event now lease e in
      let inserted = lookup-insert e.event_id key kept events in
      claim_each-IsKnown now lease key rest (insert e.event_id kept events)
        (elim (Bool-cases (str_eq e.event_id key)) [
          | inl same ↦ (kept, inserted ∙ ap (λ b. if b then some kept else lookup key events) same)
          | inr other ↦
              (f, inserted ∙ (ap (λ b. if b then some kept else lookup key events) other ∙ found))
        ])

  -- An envelope can be made of a record whose payload is JSON.
  pub envelope_ok :
      (embedded : Payload → Result String EventEnvelope) (key : String) (e : OutboxEvent H)
      → IsRecord key e
      → is_json e.payload ≡ true
      → (event : EventEnvelope) × (envelope embedded e ≡ ok event)
  unfolding envelope
  envelope_ok embedded key e s json = elim (Result-cases (checked (embedded e.payload))) [
    | inl (event, good) ↦ (event, rw (good, envelope) refl)
    | inr (_, bad) ↦ (rebuilt e, rw (bad, envelope, json, s.valid) refl)
  ]

module _ {H P : Type 0} (embedded : Payload → Result String EventEnvelope)
    (publish : EventEnvelope → H → Action P String (Unit {0})) (clock : P → ℕ) where
  publish_failed_other :
      (key : String) (e : OutboxEvent H) (reason : String) (w : World H P)
      → str_eq e.event_id key ≡ false
      → Same key w.outbox (publish_failed embedded publish clock e reason w).outbox
  unfolding publish_failed mark_failed mark_retry
  publish_failed_other key e reason w other = elim (Bool-cases (leb 5 e.attempts)) [
    | inl last ↦
        rw (last, publish_failed)
          (update_outbox_other e.event_id key _ (clock w.outside) w.outbox other)
    | inr again ↦
        rw (again, publish_failed)
          (update_outbox_other e.event_id key _ (clock w.outside) w.outbox other)
  ]

  publish_failed_outside :
      (e : OutboxEvent H) (reason : String) (w : World H P)
      → (publish_failed embedded publish clock e reason w).outside ≡ w.outside
  unfolding publish_failed
  publish_failed_outside e reason w = elim (Bool-cases (leb 5 e.attempts)) [
    | inl last ↦ rw (last, publish_failed) refl
    | inr again ↦ rw (again, publish_failed) refl
  ]

  pub publish_one_other :
      (key : String) (e : OutboxEvent H) (seen : Option String) (w : World H P)
      → str_eq e.event_id key ≡ false
      → Same key w.outbox (publish_one embedded publish clock e seen w).1.outbox
  unfolding publish_one publish_done mark_failed mark_published
  publish_one_other key e seen w other = elim (Result-cases (envelope embedded e)) [
    | inr (_, bad) ↦
        rw (bad, publish_one)
          (update_outbox_other e.event_id key _ (clock w.outside) w.outbox other)
    | inl (event, good) ↦ elim (Result-cases (publish event e.headers w.outside).0) [
      | inr (reason, refused) ↦
          rw (good, refused, publish_one)
            (publish_failed_other key e reason
              (record w { outside = (publish event e.headers w.outside).1 }) other)
      | inl (_, sent) ↦
          rw (good, sent, publish_one)
            (update_outbox_other e.event_id key _ (clock (publish event e.headers w.outside).1)
              w.outbox other)
    ]
  ]

  -- What no publication undoes is still so after the body of the loop.
  pub publish_one_stays :
      (Q : P → Type 0) (e : OutboxEvent H) (seen : Option String) (w : World H P)
      → ((event : EventEnvelope) (headers : H) (p : P) → Q p → Q (publish event headers p).1)
      → Q w.outside
      → Q (publish_one embedded publish clock e seen w).1.outside
  unfolding publish_one publish_done
  publish_one_stays Q e seen w stays q = elim (Result-cases (envelope embedded e)) [
    | inr (_, bad) ↦ rw (bad, publish_one) q
    | inl (event, good) ↦
        let after = stays event e.headers w.outside q in
        elim (Result-cases (publish event e.headers w.outside).0) [
          | inr (reason, refused) ↦
              let refusal = record w { outside = (publish event e.headers w.outside).1 } in
              rw (good, refused, publish_one)
                (subst Q (sym (publish_failed_outside e reason refusal)) after)
          | inl (_, sent) ↦ rw (good, sent, publish_one) after
        ]
  ]
