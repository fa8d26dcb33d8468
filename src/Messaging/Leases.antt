-- ===== src/Messaging/Leases.antt =====
-- shared/platform/messaging/memory_store.go: claims of an event while a lease runs.
use seckill_mall.Base.{
  ℕ, ◌+◌, ◌<◌, ◌≡◌, refl, inl, inr, ◌⊎◌, sym, ap, subst, ◌∙◌, String, true, false, Option, none,
  some, arith, lookup, lookup-insert, eq_refl, Result, ok, err, Result-cases, Bool-cases, ltb,
}
use seckill_mall.Contracts.Events.{EventEnvelope, validate, inbox_key}
use seckill_mall.Messaging.Inbox.{
  InboxStatus, processing, processed, InboxRecord, InboxClaim, lease_of, claim_new, claim_working,
  claim_known, claim_at, claim, Inbox,
}

-- What a successful claim leaves behind: the event is in work since `now`.
abbrev InWork : String → ℕ → Inbox → Type 0
InWork key now inbox =
    (v : InboxRecord) × (lookup key inbox ≡ some v) × (v.status ≡ processing) × (v.updated ≡ now)

claim_working-InWork :
    (key : String) (lease now : ℕ) (v : InboxRecord) (inbox : Inbox) (c : InboxClaim)
    → (claim_working key lease now v inbox).0 ≡ ok c
    → c.claimed ≡ true
    → InWork key now (claim_working key lease now v inbox).1
unfolding claim_working
claim_working-InWork key lease now v inbox c = elim (Bool-cases (ltb now (v.updated + lease))) [
  | inl on ↦ rw on (λ h taken. absurd (ground arith))
  | inr off ↦ rw off (λ h taken. (
    record v { status = processing; attempts = v.attempts + 1; updated = now },
    ground (
      arith,
      eq_refl key,
      lookup-insert key key
          (record v { status = processing; attempts = v.attempts + 1; updated = now }) inbox,
    ),
    refl,
    refl,
  ))
]

claim_new-InWork :
    (key consumer event_id : String) (now : ℕ) (inbox : Inbox)
    → InWork key now (claim_new key consumer event_id now inbox).1
unfolding claim_new
claim_new-InWork key consumer event_id now inbox =
    let v : InboxRecord = record {
      consumer = consumer;
      event_id = event_id;
      status = processing;
      attempts = 1;
      updated = now;
    } in
    (v, ground (arith, eq_refl key, lookup-insert key key v inbox), refl, refl)

claim_known-InWork :
    (key : String) (lease now : ℕ) (st : InboxStatus) (v : InboxRecord) (inbox : Inbox)
    (c : InboxClaim)
    → (claim_known key lease now st v inbox).0 ≡ ok c
    → c.claimed ≡ true
    → InWork key now (claim_known key lease now st v inbox).1
unfolding claim_known
claim_known-InWork key lease now processed v inbox c h taken = absurd (ground arith)
claim_known-InWork key lease now processing v inbox c h taken =
    claim_working-InWork key lease now v inbox c h taken

claim_at-InWork :
    (key consumer event_id : String) (lease now : ℕ) (found : Option InboxRecord) (inbox : Inbox)
    (c : InboxClaim)
    → (claim_at key consumer event_id lease now found inbox).0 ≡ ok c
    → c.claimed ≡ true
    → InWork key now (claim_at key consumer event_id lease now found inbox).1
unfolding claim_at
claim_at-InWork key consumer event_id lease now none inbox c h taken =
    claim_new-InWork key consumer event_id now inbox
claim_at-InWork key consumer event_id lease now (some v) inbox c h taken =
    claim_known-InWork key lease now v.status v inbox c h taken

-- The answer to a claim that comes while a lease holds.
abbrev pub Refused : Inbox → Result String InboxClaim × Inbox → Type 0
Refused inbox x =
    (x.1 ≡ inbox)
    × ((d : InboxClaim) × (x.0 ≡ ok d) × (d.claimed ≡ false) × (d.already_processed ≡ false))

working_Refused :
    (key consumer event_id : String) (lease now later : ℕ) (v : InboxRecord) (inbox : Inbox)
    → v.status ≡ processing
    → v.updated ≡ now
    → later < now + lease
    → Refused inbox (claim_at key consumer event_id lease later (some v) inbox)
unfolding claim_at claim_known claim_working
working_Refused key consumer event_id lease now later v inbox st since soon =
    let on : ltb later (now + lease) ≡ true = ground arith in
    rw (st, since, on) (refl, (_, refl, refl, refl))

not_ok :
    {reason : String} {c : InboxClaim} → Path (Result String InboxClaim) (err reason) (ok c) → ⊥
not_ok h = cc

-- A claim is refused for its event or its consumer, or it works under their key.
pub claim_cases :
    (consumer : String) (event : EventEnvelope)
    → ((reason : String) × ((lease now : ℕ) (inbox : Inbox)
          → claim consumer event lease now inbox ≡ (err reason, inbox)))
      ⊎ ((key : String) × (inbox_key event consumer ≡ ok key)
          × ((lease now : ℕ) (inbox : Inbox)
              → claim consumer event lease now inbox
                ≡ claim_at key consumer event.event_id
                    (lease_of lease)
                    now
                    (lookup key inbox)
                    inbox))
unfolding claim
claim_cases consumer event = elim (Result-cases (validate event)) [
  | inr (reason, bad) ↦ inl (reason, λ lease now inbox. rw (bad, claim) refl)
  | inl (_, good) ↦ elim (Result-cases (inbox_key event consumer)) [
    | inr (reason, bad) ↦ inl (reason, λ lease now inbox. rw (good, claim, bad) refl)
    | inl (key, known) ↦ inr (key, known, λ lease now inbox. rw (good, claim, known) refl)
  ]
]

-- After a claim that was granted at `now`, a claim of the same event by the same consumer with a
-- lease that reaches from `now` beyond its own time is refused and changes nothing.
pub claim_excludes :
    (consumer : String) (event : EventEnvelope) (lease now : ℕ) (inbox : Inbox) (c : InboxClaim)
    (lease' later : ℕ)
    → (claim consumer event lease now inbox).0 ≡ ok c
    → c.claimed ≡ true
    → later < now + lease_of lease'
    → Refused
        (claim consumer event lease now inbox).1
        (claim consumer event lease' later (claim consumer event lease now inbox).1)
claim_excludes consumer event lease now inbox c lease' later h taken soon =
    elim (claim_cases consumer event) [
      | inl (reason, fails) ↦ absurd (
          not_ok
            (ap (λ (x : Result String InboxClaim × Inbox). x.0) (sym (fails lease now inbox)) ∙ h))
      | inr (key, _, works) ↦
          let first =
            claim_at key consumer event.event_id (lease_of lease) now (lookup key inbox) inbox in
          let (v, found, st, since) =
            claim_at-InWork key consumer event.event_id (lease_of lease) now (lookup key inbox)
              inbox c
              (ap (λ (x : Result String InboxClaim × Inbox). x.0) (sym (works lease now inbox)) ∙ h)
              taken in
          subst
            (λ (x : Result String InboxClaim × Inbox).
              Refused x.1 (claim consumer event lease' later x.1))
            (sym (works lease now inbox))
            (subst (λ (y : Result String InboxClaim × Inbox). Refused first.1 y)
              (sym (works lease' later first.1))
              (subst
                (λ (o : Option InboxRecord).
                  Refused first.1
                    (claim_at key consumer event.event_id (lease_of lease') later o first.1))
                (sym found)
                (working_Refused key consumer event.event_id (lease_of lease') now later v first.1
                  st since soon)))
    ]
