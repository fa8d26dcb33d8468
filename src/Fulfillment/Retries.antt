-- ===== src/Fulfillment/Retries.antt =====
-- services/fulfillment/internal/app/service.go: Ship, repeated after a failure of the order
-- service.
use seckill_mall.Base.{
  ℕ, String, ◌≡◌, refl, sym, ap, ◌∙◌, subst, Bool, true, false, none, some, Result, ok, Action,
  pure, ◌>>=◌, after_bind, bind_ok, map_answer, then_pure, trim_space, Result-cases, Option-cases,
  inl, inr, eq_refl, lookup, lookup-insert, if◌then◌else◌,
}
use seckill_mall.Contracts.Events.{EventEnvelope}
use seckill_mall.Fulfillment.Model.{Shipment, Error}
use seckill_mall.Fulfillment.Repository.{
  Repository, tracking_key, is_taken, create, create_new, put_shipment, publish, created_event,
}
use seckill_mall.Fulfillment.Service.{
  World, OrderClient, OrderTransition, stored, remote, refuses, new_shipment, ship_found,
  ship_trimmed, ship,
}

module _ {S : Type 0} (append : EventEnvelope → Action S Error (Unit {0})) where
  -- The events leave the next id as it is.
  publish_next_id :
      (event : Result String EventEnvelope) (r : Repository S)
      → (publish append event r).1.next_id ≡ r.next_id
  unfolding publish
  publish_next_id event r = elim (Option-cases r.sink) [
    | inl unset ↦ rw (unset, publish) refl
    | inr (s, set) ↦ elim (Result-cases event) [
      | inr (_, bad) ↦ rw (set, bad, publish) refl
      | inl (_, built) ↦ rw (set, built, publish) refl
    ]
  ]

  create_stores :
      (value : Shipment) (r : Repository S)
      → lookup value.order_id r.shipments ≡ none
      → is_taken value.order_id (lookup (tracking_key value.carrier value.tracking_no) r.tracking)
        ≡ false
      → (publish append (created_event value) r).0 ≡ ok tt
      → lookup value.order_id (create append value r).1.shipments
        ≡ some (record value { id = r.next_id })
  unfolding create create_new
  create_stores value r new free published =
      let t = (publish append (created_event value) r).1 in
      let kept : Shipment = record value { id = t.next_id } in
      rw (new, free, create)
        (subst
          (λ (x : Result Error (Shipment × Bool) × Repository S).
            lookup value.order_id x.1.shipments ≡ some (record value { id = r.next_id }))
          (sym (
            bind_ok (publish append (created_event value)) (λ _. put_shipment value) r
              (ap (λ (x : Result Error (Unit {0})). (x, t)) published)))
          (lookup-insert value.order_id value.order_id kept t.shipments
            ∙ (ap (λ b. if b then some kept else lookup value.order_id t.shipments)
                  (eq_refl value.order_id)
                ∙ ap (λ n. some (record value { id = n }))
                    (publish_next_id (created_event value) r))))

module _ {S I : Type 0} (append : EventEnvelope → Action S Error (Unit {0}))
    (client : OrderClient I) (clock : I → ℕ) where
  ship_trimmed_found :
      (actor_id : ℕ) (order_id carrier tracking_no : String) (w : World S I)
      → refuses actor_id order_id carrier tracking_no ≡ false
      → ship_trimmed append client clock actor_id order_id carrier tracking_no w
        ≡ ship_found append client clock actor_id order_id carrier tracking_no
            (lookup order_id w.repository.shipments)
            w
  unfolding ship_trimmed
  ship_trimmed_found actor_id order_id carrier tracking_no w good = rw good refl

  ship_found_stores :
      (actor_id : ℕ) (order_id carrier tracking_no : String) (w : World S I) (kept : Shipment)
      → lookup order_id
          (create append
            (new_shipment order_id carrier tracking_no (clock w.outside))
            w.repository).1.shipments
        ≡ some kept
      → lookup order_id
          (ship_found append client clock actor_id order_id carrier tracking_no none
            w).1.repository.shipments
        ≡ some kept
  unfolding ship_found
  ship_found_stores actor_id order_id carrier tracking_no w kept stands =
      let call = remote (client.ship actor_id order_id carrier tracking_no) in
      let make =
        stored {I = I}
          (create append (new_shipment order_id carrier tracking_no (clock w.outside))) in
      let rest = λ (made : Shipment × Bool) (transition : OrderTransition).
        pure (made.0, transition, made.1) in
      after_bind (λ v. lookup order_id v.repository.shipments ≡ some kept) make
        (λ made. call >>= rest made) w (λ _ _. stands)
        (λ made _.
          after_bind (λ v. lookup order_id v.repository.shipments ≡ some kept) call (rest made)
            (make w).1 (λ _ _. stands) (λ _ _. stands))

  ship_known :
      (actor_id : ℕ) (order_id : String) (kept : Shipment) (v : World S I)
      → ship_found append client clock actor_id order_id kept.carrier kept.tracking_no (some kept) v
        ≡ map_answer
            (λ t. (kept, t, true))
            (remote (client.ship actor_id order_id kept.carrier kept.tracking_no))
            v
  unfolding ship_found
  ship_known actor_id order_id kept v =
      rw (eq_refl kept.carrier, eq_refl kept.tracking_no)
        (then_pure (remote (client.ship actor_id order_id kept.carrier kept.tracking_no))
          (λ t. (kept, t, true)) v)

  -- A first shipment of an order, whose request is well formed, whose carrier has no other parcel of its
  -- number and whose event is published, is not lost where the order service fails: whatever that
  -- service answers, the shipment is stored, and as long as the repository is as the request left it,
  -- the same request asks the order service again and answers with that shipment.
  pub ship_retried :
      (actor_id : ℕ) (order_id carrier tracking_no : String) (w : World S I)
      → refuses actor_id (trim_space order_id) (trim_space carrier) (trim_space tracking_no) ≡ false
      → lookup (trim_space order_id) w.repository.shipments ≡ none
      → is_taken (trim_space order_id) (
          lookup (tracking_key (trim_space carrier) (trim_space tracking_no)) w.repository.tracking)
        ≡ false
      → (publish append
          (created_event (
            new_shipment
              (trim_space order_id)
              (trim_space carrier)
              (trim_space tracking_no)
              (clock w.outside)))
          w.repository).0
        ≡ ok tt
      → let order = trim_space order_id in
        let by = trim_space carrier in
        let number = trim_space tracking_no in
        let kept : Shipment = record (new_shipment order by number (clock w.outside)) {
          id = w.repository.next_id;
        } in
        let after = (ship append client clock actor_id order_id carrier tracking_no w).1 in
        (lookup order after.repository.shipments ≡ some kept)
        × ((v : World S I)
            → v.repository ≡ after.repository
            → ship append client clock actor_id order_id carrier tracking_no v
              ≡ map_answer
                  (λ transition. (kept, transition, true))
                  (remote (client.ship actor_id order by number))
                  v)
  unfolding ship new_shipment
  ship_retried actor_id order_id carrier tracking_no w good new free published =
      let order = trim_space order_id in
      let by = trim_space carrier in
      let number = trim_space tracking_no in
      let value = new_shipment order by number (clock w.outside) in
      let kept : Shipment = record value { id = w.repository.next_id } in
      let first =
        ship_trimmed_found actor_id order by number w good
        ∙ ap (λ found. ship_found append client clock actor_id order by number found w) new in
      let stands =
        subst
          (λ (x : Result Error (Shipment × OrderTransition × Bool) × World S I).
            lookup order x.1.repository.shipments ≡ some kept)
          (sym first)
          (ship_found_stores actor_id order by number w kept
            (create_stores append value w.repository new free published)) in
      (
        stands,
        λ v same.
            ship_trimmed_found actor_id order by number v good
            ∙ (ap (λ found. ship_found append client clock actor_id order by number found v)
                  (ap (λ (r : Repository S). lookup order r.shipments) same ∙ stands)
                ∙ ship_known actor_id order kept v),
      )
