-- ===== src/Fulfillment/Keeping.antt =====
-- services/fulfillment/internal/app: what every request keeps of the shipments.
use seckill_mall.Base.{
  ℕ, String, ◌≡◌, sym, ap, ◌∙◌, false, Option, some, Result, Action, after_bind, Keeps, arith,
  eq_iff, Table, lookup, lookup-insert, Option-cases, Bool-cases, inl, inr,
}
use seckill_mall.Contracts.Events.{EventEnvelope}
use seckill_mall.Fulfillment.Model.{Shipment, Status, shipped, received, Error}
use seckill_mall.Fulfillment.Repository.{
  Repository, tracking_key, received_at, is_taken, differs, new_memory_repository, put_shipment,
  put_received, publish, create_new, create, receive, receive_found, mark_received, created_event,
  delivered_event,
}

-- A shipment stands under its order, and its carrier's number belongs to this order and no other.
pub record IsSound {S : Type 0} (r : Repository S) : Type 0 where
  pub own :
      (order_id : String) (s : Shipment)
      → lookup order_id r.shipments ≡ some s
      → s.order_id ≡ order_id
  pub tracked :
      (order_id : String) (s : Shipment)
      → lookup order_id r.shipments ≡ some s
      → lookup (tracking_key s.carrier s.tracking_no) r.tracking ≡ some order_id

module _ {S : Type 0} where
  pub new_memory_repository-IsSound : (sink : Option S) → IsSound (new_memory_repository sink)
  unfolding new_memory_repository lookup
  new_memory_repository-IsSound sink = record { own = λ k s h. cc; tracked = λ k s h. cc }

  put_shipment-IsSound :
      (value : Shipment) (r : Repository S)
      → is_taken value.order_id (lookup (tracking_key value.carrier value.tracking_no) r.tracking)
        ≡ false
      → IsSound r
      → IsSound (put_shipment value r).1
  unfolding is_taken
  put_shipment-IsSound value r free s =
      let kept : Shipment = record value { id = r.next_id } in
      let key = tracking_key value.carrier value.tracking_no in
      record {
        own = λ k x h. ground (
          arith,
          lookup-insert value.order_id k kept r.shipments,
          s.own k x,
          eq_iff value.order_id k,
        );
        tracked = λ k x h. ground (
          arith,
          lookup-insert value.order_id k kept r.shipments,
          s.tracked k x,
          lookup-insert key (tracking_key x.carrier x.tracking_no) value.order_id r.tracking,
          eq_iff value.order_id k,
          eq_iff key (tracking_key x.carrier x.tracking_no),
          eq_iff k value.order_id,
        );
      }

  put_received-IsSound :
      (order_id : String) (value : Shipment) (now : ℕ) (r : Repository S)
      → lookup order_id r.shipments ≡ some value
      → IsSound r
      → IsSound (put_received order_id (received_at value now) r).1
  put_received-IsSound order_id value now r found s =
      let kept = received_at value now in
      record {
        own = λ k x h. ground (
          arith,
          lookup-insert order_id k kept r.shipments,
          s.own k x,
          s.own order_id value,
          eq_iff order_id k,
        );
        tracked = λ k x h. ground (
          arith,
          lookup-insert order_id k kept r.shipments,
          s.tracked k x,
          s.tracked order_id value,
          eq_iff order_id k,
        );
      }

module _ {S : Type 0} (append : EventEnvelope → Action S Error (Unit {0})) where
  publish-rest :
      (event : Result String EventEnvelope) (r : Repository S)
      → let t = (publish append event r).1 in
        (t.shipments ≡ r.shipments) × (t.tracking ≡ r.tracking)
  unfolding publish
  publish-rest event r = ground arith

  publish-IsSound :
      (event : Result String EventEnvelope) (r : Repository S)
      → IsSound r
      → IsSound (publish append event r).1
  publish-IsSound event r s =
      let (ships, tracks) = publish-rest event r in
      record {
        own = λ k x h. s.own k x (sym (ap (lookup k) ships) ∙ h);
        tracked = λ k x h.
            ap (lookup (tracking_key x.carrier x.tracking_no)) tracks
            ∙ s.tracked k x (sym (ap (lookup k) ships) ∙ h);
      }

  create_new-IsSound :
      (value : Shipment) (r : Repository S)
      → is_taken value.order_id (lookup (tracking_key value.carrier value.tracking_no) r.tracking)
        ≡ false
      → IsSound r
      → IsSound (create_new append value r).1
  unfolding create_new
  create_new-IsSound value r free s =
      let event = created_event value in
      let key = tracking_key value.carrier value.tracking_no in
      after_bind IsSound (publish append event) (λ _. put_shipment value) r
        (λ _ _. publish-IsSound event r s)
        (λ _ _.
          put_shipment-IsSound value (publish append event r).1
            (ap (λ (m : Table String). is_taken value.order_id (lookup key m))
                (publish-rest event r).1
              ∙ free)
            (publish-IsSound event r s))

  pub create-IsSound : (value : Shipment) → Keeps IsSound (create append value)
  unfolding create
  create-IsSound value r s = elim (Option-cases (lookup value.order_id r.shipments)) [
    | inr (existing, found) ↦ elim (Bool-cases (differs existing value.carrier value.tracking_no)) [
      | inl other ↦ rw (found, create, other) s
      | inr same ↦ rw (found, create, same) s
    ]
    | inl new ↦
        elim (Bool-cases (
          is_taken value.order_id
            (lookup (tracking_key value.carrier value.tracking_no) r.tracking))) [
              | inl taken ↦ rw (new, create, taken) s
              | inr free ↦ rw (new, create, free) (create_new-IsSound value r free s)
            ]
  ]

  receive_found-IsSound :
      (order_id : String) (now : ℕ) (value : Shipment) (st : Status) (r : Repository S)
      → lookup order_id r.shipments ≡ some value
      → IsSound r
      → IsSound (receive_found append order_id now value st r).1
  unfolding receive_found receive
  receive_found-IsSound order_id now value received r found s = s
  receive_found-IsSound order_id now value shipped r found s =
      let event = delivered_event (received_at value now) now in
      after_bind IsSound (publish append event) (λ _. put_received order_id (received_at value now))
        r (λ _ _. publish-IsSound event r s)
        (λ _ _.
          put_received-IsSound order_id value now (publish append event r).1
            (ap (lookup order_id) (publish-rest event r).0 ∙ found) (publish-IsSound event r s))

  pub mark_received-IsSound :
      (order_id : String) (now : ℕ) → Keeps IsSound (mark_received append order_id now)
  unfolding mark_received
  mark_received-IsSound order_id now r s = elim (Option-cases (lookup order_id r.shipments)) [
    | inl missing ↦ rw (missing, mark_received) s
    | inr (value, found) ↦
        rw (found, mark_received) (receive_found-IsSound order_id now value value.status r found s)
  ]
