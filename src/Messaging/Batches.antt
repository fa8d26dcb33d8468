-- ===== src/Messaging/Batches.antt =====
-- shared/platform/messaging/worker.go: the events of one batch.
use seckill_mall.Base.{
  ℕ, ◌≤◌, ◌*◌, ◌≡◌, refl, sym, ap, ◌∙◌, subst, String, true, false, Option, none, some, List, [],
  ◌∷◌, map, ℤ, Result, ok, Action, arith, Bool-cases, inl, inr, ◌⊎◌, Table, lookup, EachEntry,
  str_eq,
}
use seckill_mall.Base.Slices.{length, take, take-all, All, All-take}
use seckill_mall.Base.Sorting.{sort_by, length-sort_by, All-of_sort, All-sort_by}
use seckill_mall.Contracts.Events.{EventEnvelope, Payload}
use seckill_mall.Messaging.Delays.{second}
use seckill_mall.Messaging.Inbox.{lease_of}
use seckill_mall.Messaging.Outbox.{
  OutboxEvent, Outbox, new_outbox, is_due, candidates, precedes, batch_limit, claimed_event,
  claim_each, chosen, claim_batch, rebuilt, envelope, is_json,
}
use seckill_mall.Messaging.Keys.{IsMap, found_each, run-IsMap}
use seckill_mall.Messaging.Worker.{World, publish_outbox_batch}
use seckill_mall.Messaging.Delivery.{
  IsRecord, IsOutbox, Call, IsTimed, run, run-IsOutbox, lookup-IsRecord,
}
use seckill_mall.Messaging.Publishing.{Occurs, claim_each-IsKnown, envelope_ok}
use seckill_mall.Messaging.Sending.{IsReady, IsDelivered, publish_each-IsDelivered}

module _ {H : Type 0} where
  -- None of the events has this id.
  abbrev IsAbsent : String → List (OutboxEvent H) → Type 0
  IsAbsent key = All (λ e. str_eq e.event_id key ≡ false)

  Occurs-or_IsAbsent :
      (key : String) (events : List (OutboxEvent H)) → Occurs key events ⊎ IsAbsent key events
  Occurs-or_IsAbsent key [] = inr tt
  Occurs-or_IsAbsent key (e ∷ rest) = elim (Bool-cases (str_eq e.event_id key)) [
    | inl same ↦ inl (inl same)
    | inr other ↦ elim (Occurs-or_IsAbsent key rest) [
      | inl later ↦ inl (inr later)
      | inr absent ↦ inr (other, absent)
    ]
  ]

  candidates_found :
      (key : String) (e : OutboxEvent H) (now : ℕ) (events : Table (OutboxEvent H))
      → EachEntry IsRecord events
      → lookup key events ≡ some e
      → is_due now e ≡ true
      → IsAbsent key (candidates now events)
      → ⊥
  unfolding candidates lookup
  candidates_found key e now [] s = λ h due absent. absurd (cc h)
  candidates_found key e now ((first, value) ∷ rest) s = elim (Bool-cases (str_eq first key)) [
    | inl same ↦ rw same (λ h due.
        let value_due : is_due now value ≡ true =
          subst
            (λ (v : Option (OutboxEvent H)). elim v [ none ↦ true | some x ↦ is_due now x ] ≡ true)
            (sym h) due in
        rw value_due (λ absent.
          let known : str_eq value.event_id key ≡ true = ap (λ k. str_eq k key) s.0.keyed ∙ same in
          absurd (ground (arith, absent.0))))
    | inr other ↦ rw other (λ h due. elim (Bool-cases (is_due now value)) [
      | inl now_due ↦ rw now_due (λ absent. candidates_found key e now rest s.1 h due absent.1)
      | inr later ↦ rw later (λ absent. candidates_found key e now rest s.1 h due absent)
    ])
  ]

  chosen-Occurs :
      (key : String) (e : OutboxEvent H) (now : ℕ) (limit : ℤ) (o : Outbox H)
      → IsOutbox o
      → lookup key o.events ≡ some e
      → is_due now e ≡ true
      → length (candidates now o.events) ≤ batch_limit limit
      → Occurs key (chosen now limit o)
  unfolding chosen
  chosen-Occurs key e now limit o s found due few =
      let all = candidates now o.events in
      let sorted = sort_by precedes all in
      let whole : take (batch_limit limit) sorted ≡ sorted =
        take-all (batch_limit limit) sorted
          (subst (λ n. n ≤ batch_limit limit) (sym (length-sort_by precedes all)) few) in
      elim (Occurs-or_IsAbsent key (take (batch_limit limit) sorted)) [
        | inl occurs ↦ occurs
        | inr absent ↦ absurd (
            candidates_found key e now o.events s found due (
              All-of_sort precedes (λ e. str_eq e.event_id key ≡ false) all
                (subst (IsAbsent key) whole absent)))
      ]

  claimed-Occurs :
      (now lease : ℕ) (key : String) (events : List (OutboxEvent H))
      → Occurs key events
      → Occurs key (map (claimed_event now lease) events)
  unfolding claimed_event
  claimed-Occurs now lease key [] occurs = occurs
  claimed-Occurs now lease key (e ∷ rest) (inl same) = inl same
  claimed-Occurs now lease key (e ∷ rest) (inr later) =
      inr (claimed-Occurs now lease key rest later)

  -- The envelope of a claimed event is that of its record.
  claimed_same :
      (embedded : Payload → Result String EventEnvelope) (now lease : ℕ) (e : OutboxEvent H)
      → envelope embedded (claimed_event now lease e) ≡ envelope embedded e
  unfolding envelope rebuilt claimed_event
  claimed_same embedded now lease e = refl

  claimed-IsReady :
      (embedded : Payload → Result String EventEnvelope) (key : String) (event : EventEnvelope)
      (headers : H) (now lease : ℕ) (events : List (OutboxEvent H))
      → All (IsReady embedded key event headers) events
      → All (IsReady embedded key event headers) (map (claimed_event now lease) events)
  unfolding claimed_event
  claimed-IsReady embedded key event headers now lease [] all = tt
  claimed-IsReady embedded key event headers now lease (e ∷ rest) all = (
    λ same. (claimed_same embedded now lease e ∙ (all.0 same).0, (all.0 same).1),
    claimed-IsReady embedded key event headers now lease rest all.1,
  )

  candidates-IsReady :
      (embedded : Payload → Result String EventEnvelope) (key : String) (event : EventEnvelope)
      (e : OutboxEvent H) (now : ℕ) (m : Table (OutboxEvent H))
      → envelope embedded e ≡ ok event
      → EachEntry IsRecord m
      → EachEntry (λ k u. str_eq k key ≡ true → e ≡ u) m
      → All (IsReady embedded key event e.headers) (candidates now m)
  unfolding candidates
  candidates-IsReady embedded key event e now [] good s found = tt
  candidates-IsReady embedded key event e now ((first, value) ∷ rest) good s found =
      let ready : IsReady embedded key event e.headers value = λ same.
        let it = found.0 (ap (λ k. str_eq k key) (sym s.0.keyed) ∙ same) in
        (ap (envelope embedded) (sym it) ∙ good, ap (λ u. u.headers) (sym it)) in
      let others = candidates-IsReady embedded key event e now rest good s.1 found.1 in
      elim (Bool-cases (is_due now value)) [
        | inl due ↦ rw due (ready, others)
        | inr later ↦ rw later others
      ]

  chosen-IsReady :
      (embedded : Payload → Result String EventEnvelope) (key : String) (event : EventEnvelope)
      (e : OutboxEvent H) (now : ℕ) (limit : ℤ) (o : Outbox H)
      → envelope embedded e ≡ ok event
      → IsOutbox o
      → IsMap o.events
      → lookup key o.events ≡ some e
      → All (IsReady embedded key event e.headers) (chosen now limit o)
  unfolding chosen
  chosen-IsReady embedded key event e now limit o good s d found =
      let Fit = IsReady embedded key event e.headers in
      All-take Fit (batch_limit limit) (sort_by precedes (candidates now o.events)) (
        All-sort_by precedes Fit (candidates now o.events) (
          candidates-IsReady embedded key event e now o.events good s
            (found_each key e o.events d found)))

module _ {H P : Type 0} (embedded : Payload → Result String EventEnvelope)
    (publish : EventEnvelope → H → Action P String (Unit {0})) (clock : P → ℕ) where
  batch-IsDelivered :
      (batch_size : ℤ) (w : World H P) (key : String) (e : OutboxEvent H) (event : EventEnvelope)
      (Q : P → Type 0)
      → IsOutbox w.outbox
      → IsMap w.outbox.events
      → lookup key w.outbox.events ≡ some e
      → is_due (clock w.outside) e ≡ true
      → length (candidates (clock w.outside) w.outbox.events) ≤ batch_limit batch_size
      → envelope embedded e ≡ ok event
      → ((p : P) → (publish event e.headers p).0 ≡ ok tt)
      → ((p : P) → Q (publish event e.headers p).1)
      → ((event : EventEnvelope) (headers : H) (p : P) → Q p → Q (publish event headers p).1)
      → IsDelivered key Q (publish_outbox_batch embedded publish clock batch_size w).1
  unfolding publish_outbox_batch claim_batch
  batch-IsDelivered batch_size w key e event Q s d found due few good accepts done stays =
      let now = clock w.outside in
      let lease = lease_of (30 * second) in
      let values = chosen now batch_size w.outbox in
      publish_each-IsDelivered embedded publish clock key event e.headers Q accepts done stays
        (map (claimed_event now lease) values) none
        (record w {
          outbox = record w.outbox { events = claim_each now lease values w.outbox.events };
        })
        (claimed-IsReady embedded key event e.headers now lease values
          (chosen-IsReady embedded key event e now batch_size w.outbox good s d found))
        (claim_each-IsKnown now lease key values w.outbox.events (e, found))
        (claimed-Occurs now lease key values
          (chosen-Occurs key e now batch_size w.outbox s found due few))

  -- Whatever has happened to a new outbox, where no event was appended at the zero time: a batch that is
  -- large enough for all that are due publishes every event that is due, whose payload is JSON and whose
  -- envelope the publisher accepts, whatever it does with the others. In the end its record is there and
  -- is published, and so holds every Q of the outside that a publication of this envelope, with the
  -- headers of the record, brings about and that no publication undoes, such as that the publisher
  -- was called with it.
  pub batch_delivers :
      (calls : List (Call H)) (outside : P) (batch_size : ℤ) (key : String) (e : OutboxEvent H)
      (Q : P → Type 0)
      → All IsTimed calls
      → lookup key (run calls new_outbox).events ≡ some e
      → is_due (clock outside) e ≡ true
      → is_json e.payload ≡ true
      → length (candidates (clock outside) (run calls new_outbox).events) ≤ batch_limit batch_size
      → ((event : EventEnvelope) (p : P)
          → envelope embedded e ≡ ok event
          → (publish event e.headers p).0 ≡ ok tt)
      → ((event : EventEnvelope) (p : P)
          → envelope embedded e ≡ ok event
          → Q (publish event e.headers p).1)
      → ((event : EventEnvelope) (headers : H) (p : P) → Q p → Q (publish event headers p).1)
      → IsDelivered key Q
          (publish_outbox_batch embedded publish clock batch_size
            (record { outbox = run calls new_outbox; outside = outside })).1
  unfolding new_outbox
  batch_delivers calls outside batch_size key e Q timed found due json few accepts done stays =
      let s = run-IsOutbox calls new_outbox timed tt in
      let (event, good) =
        envelope_ok embedded key e (lookup-IsRecord (run calls new_outbox).events key e s found)
          json in
      batch-IsDelivered batch_size (record { outbox = run calls new_outbox; outside = outside }) key
        e event Q s (run-IsMap calls new_outbox tt) found due few good (λ p. accepts event p good)
        (λ p. done event p good) stays
