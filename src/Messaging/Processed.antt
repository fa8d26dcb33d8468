-- ===== src/Messaging/Processed.antt =====
-- shared/platform/messaging/memory_store.go: MarkProcessed, and the calls of the inbox after it.
use seckill_mall.Base.{
  ℕ, ◌+◌, ◌<>◌, ◌≡◌, ◌≢◌, refl, inl, inr, ◌⊎◌, sym, ap, subst, ◌∙◌, String, true, false, Option,
  none, some, List, [], ◌∷◌, arith, lookup, insert, lookup-insert, eq_refl, eq_iff, str_eq,
  str_eq→eq, Result, ok, Option-cases, Bool-cases, ltb, ok_inj,
}
use seckill_mall.Contracts.Events.{EventEnvelope, inbox_key}
use seckill_mall.Messaging.Leases.{claim_cases}
use seckill_mall.Messaging.Inbox.{
  InboxStatus, processing, processed, InboxRecord, InboxClaim, lease_of, claim_new, claim_working,
  claim_known, claim_at, claim, Inbox, update_inbox, mark_processed, mark_failed,
}

pub data Call : Type 0 where
  claims : String → EventEnvelope → ℕ → Call
  processes fails : String → String → Call

unfoldable pub handle : Call → ℕ → Inbox → Inbox
handle (claims consumer event lease) now inbox = (claim consumer event lease now inbox).1
handle (processes consumer event_id) now inbox = (mark_processed consumer event_id now inbox).1
handle (fails consumer event_id) now inbox = (mark_failed consumer event_id now inbox).1

unfoldable pub handle_all : List (ℕ × Call) → Inbox → Inbox
handle_all [] inbox = inbox
handle_all ((now, c) ∷ cs) inbox = handle_all cs (handle c now inbox)

-- No call marks the event of the key as failed.
abbrev pub Spares : String → List (ℕ × Call) → Type 0
Spares key [] = Unit {0}
Spares key ((_, fails consumer event_id) ∷ cs) =
    ((consumer <> (":" <> event_id)) ≢ key) × Spares key cs
Spares key ((_, _) ∷ cs) = Spares key cs

abbrev pub IsProcessed : String → Inbox → Type 0
IsProcessed key inbox = (v : InboxRecord) × (lookup key inbox ≡ some v) × (v.status ≡ processed)

-- Another key is not touched.
insert_other :
    (key other : String) (v : InboxRecord) (inbox : Inbox)
    → other ≢ key
    → IsProcessed key inbox
    → IsProcessed key (insert other v inbox)
insert_other key other v inbox apart (w, found, st) =
    (w, ground (arith, eq_iff other key, lookup-insert other key v inbox), st)

-- Marking another event, or marking as processed.
update-IsProcessed :
    (key consumer event_id : String) (st : InboxStatus) (now : ℕ) (inbox : Inbox)
    → (st ≡ processed) ⊎ ((consumer <> (":" <> event_id)) ≢ key)
    → IsProcessed key inbox
    → IsProcessed key (update_inbox consumer event_id st now inbox).1
unfolding update_inbox
update-IsProcessed key consumer event_id st now inbox cause (w, found, good) =
    let at = consumer <> (":" <> event_id) in
    elim (Option-cases (lookup at inbox)) [
      | inl absent ↦ rw (absent, update_inbox) (w, found, good)
      | inr (value, there) ↦
          let new : InboxRecord = record value { status = st; updated = now } in
          rw (there, update_inbox)
            (elim (Bool-cases (str_eq at key)) [
              | inr other ↦ (w, ground (arith, lookup-insert at key new inbox), good)
              | inl same ↦
                  let here : lookup key (insert at new inbox) ≡ some new =
                    ground (arith, lookup-insert at key new inbox) in
                  elim cause [
                    | inl marks ↦ (new, here, marks)
                    | inr apart ↦ absurd (apart (str_eq→eq at key same))
                  ]
            ])
    ]

processed_answer :
    (key consumer event_id : String) (lease now : ℕ) (w : InboxRecord) (inbox : Inbox)
    (c : InboxClaim)
    → w.status ≡ processed
    → (claim_at key consumer event_id lease now (some w) inbox).0 ≡ ok c
    → (c.claimed ≡ false) × (c.already_processed ≡ true)
unfolding claim_at claim_known
processed_answer key consumer event_id lease now w inbox c good = rw good (λ h. ground arith)

-- A claim changes nothing of a processed event.
known_keeps :
    (key consumer event_id : String) (lease now : ℕ) (w : InboxRecord) (inbox : Inbox)
    → w.status ≡ processed
    → (claim_at key consumer event_id lease now (some w) inbox).1 ≡ inbox
unfolding claim_at claim_known
known_keeps key consumer event_id lease now w inbox good = rw good refl

working_other :
    (key other : String) (lease now : ℕ) (v : InboxRecord) (inbox : Inbox)
    → other ≢ key
    → IsProcessed key inbox
    → IsProcessed key (claim_working other lease now v inbox).1
unfolding claim_working
working_other key other lease now v inbox apart h =
    elim (Bool-cases (ltb now (v.updated + lease))) [
      | inl on ↦ rw on h
      | inr off ↦ rw off (insert_other key other _ inbox apart h)
    ]

claim_other :
    (key other consumer event_id : String) (lease now : ℕ) (found : Option InboxRecord)
    (inbox : Inbox)
    → other ≢ key
    → IsProcessed key inbox
    → IsProcessed key (claim_at other consumer event_id lease now found inbox).1
unfolding claim_at claim_new claim_known
claim_other key other consumer event_id lease now none inbox apart h =
    insert_other key other _ inbox apart h
claim_other key other consumer event_id lease now (some v) inbox apart h = known_other v.status
  where
    known_other : (st : InboxStatus) → IsProcessed key (claim_known other lease now st v inbox).1
    known_other processed = h
    known_other processing = working_other key other lease now v inbox apart h

claim-IsProcessed :
    (key consumer : String) (event : EventEnvelope) (lease now : ℕ) (inbox : Inbox)
    → IsProcessed key inbox
    → IsProcessed key (claim consumer event lease now inbox).1
claim-IsProcessed key consumer event lease now inbox (w, found, good) =
    elim (claim_cases consumer event) [
      | inl (_, refused) ↦
          subst (λ (x : Result String InboxClaim × Inbox). IsProcessed key x.1)
            (sym (refused lease now inbox)) (w, found, good)
      | inr (own, _, works) ↦
          subst (λ (x : Result String InboxClaim × Inbox). IsProcessed key x.1)
            (sym (works lease now inbox))
            (elim (Bool-cases (str_eq own key)) [
              | inl same ↦
                  subst
                    (λ (o : Option InboxRecord).
                      IsProcessed key
                        (claim_at own consumer event.event_id (lease_of lease) now o inbox).1)
                    (sym (ap (λ k. lookup k inbox) (str_eq→eq own key same) ∙ found))
                    (subst (λ i. IsProcessed key i)
                      (sym
                        (known_keeps own consumer event.event_id (lease_of lease) now w inbox good))
                      (w, found, good))
              | inr other ↦
                  claim_other key own consumer event.event_id (lease_of lease) now
                    (lookup own inbox) inbox (ground (arith, eq_refl key)) (w, found, good)
            ])
    ]

handle_all-IsProcessed :
    (key : String) (cs : List (ℕ × Call)) (inbox : Inbox)
    → Spares key cs
    → IsProcessed key inbox
    → IsProcessed key (handle_all cs inbox)
unfolding handle_all handle mark_processed mark_failed
handle_all-IsProcessed key [] inbox spares h = h
handle_all-IsProcessed key ((now, claims consumer event lease) ∷ cs) inbox spares h =
    handle_all-IsProcessed key cs _ spares (claim-IsProcessed key consumer event lease now inbox h)
handle_all-IsProcessed key ((now, processes consumer event_id) ∷ cs) inbox spares h =
    handle_all-IsProcessed key cs _ spares
      (update-IsProcessed key consumer event_id processed now inbox (inl refl) h)
handle_all-IsProcessed key ((now, fails consumer event_id) ∷ cs) inbox (apart, spares) h =
    handle_all-IsProcessed key cs _ spares
      (update-IsProcessed key consumer event_id processing now inbox (inr apart) h)

-- Once an event is processed for a consumer, and as long as it is not marked as failed, no claim of
-- it by that consumer is granted, whatever claims and marks of this and other events came between.
pub never_again :
    (key consumer : String) (event : EventEnvelope) (lease later : ℕ) (cs : List (ℕ × Call))
    (inbox : Inbox)
    → inbox_key event consumer ≡ ok key
    → IsProcessed key inbox
    → Spares key cs
    → (c : InboxClaim) → (claim consumer event lease later (handle_all cs inbox)).0 ≡ ok c
    → (c.claimed ≡ false) × (c.already_processed ≡ true)
never_again key consumer event lease later cs inbox named h spares c answered =
    let (w, found, good) = handle_all-IsProcessed key cs inbox spares h in
    elim (claim_cases consumer event) [
      | inl (reason, refused) ↦ absurd (cc (refused lease later (handle_all cs inbox), answered))
      | inr (own, known, works) ↦
          let same : own ≡ key = ok_inj (sym known ∙ named) in
          processed_answer own consumer event.event_id (lease_of lease) later w
            (handle_all cs inbox) c good
            (subst
              (λ (o : Option InboxRecord).
                (claim_at own consumer event.event_id (lease_of lease) later o
                  (handle_all cs inbox)).0
                ≡ ok c)
              (ap (λ k. lookup k (handle_all cs inbox)) same ∙ found)
              (ap (λ (x : Result String InboxClaim × Inbox). x.0)
                  (sym (works lease later (handle_all cs inbox)))
                ∙ answered))
    ]
