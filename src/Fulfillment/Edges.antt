-- ===== src/Fulfillment/Edges.antt =====
-- services/fulfillment/internal/app/memory_repository.go: the keys of tracking numbers.
use seckill_mall.Base.{
  String, ◌<>◌, ◌≡◌, ◌≢◌, refl, sym, ap, ◌∙◌, none, some, err, str_eq-false, lookup,
}
use text.Mathlib.TextLemmas.{append_assoc}
use seckill_mall.Contracts.Events.{EventEnvelope}
use seckill_mall.Base.{Action}
use seckill_mall.Fulfillment.Model.{Shipment, Error, conflict}
use seckill_mall.Fulfillment.Repository.{Repository, tracking_key, is_taken, create}

tracking_key_shift :
    (a b c : String) → tracking_key (a <> (":" <> b)) c ≡ tracking_key a (b <> (":" <> c))
unfolding tracking_key
tracking_key_shift a b c = simp (append_assoc)

module _ {S : Type 0} (append : EventEnvelope → Action S Error (Unit {0})) where
  -- While an order has a shipment by the carrier `a:b` with the number `c`, a first shipment of another
  -- order by the carrier `a` with the number `b:c` is refused as a conflict, and changes nothing.
  pub tracking_ambiguous :
      (a b c owner : String) (value : Shipment) (r : Repository S)
      → lookup (tracking_key (a <> (":" <> b)) c) r.tracking ≡ some owner
      → owner ≢ value.order_id
      → lookup value.order_id r.shipments ≡ none
      → value.carrier ≡ a
      → value.tracking_no ≡ b <> (":" <> c)
      → create append value r ≡ (err conflict, r)
  unfolding create is_taken
  tracking_ambiguous a b c owner value r tracked other new carrier number =
      let key : tracking_key value.carrier value.tracking_no ≡ tracking_key (a <> (":" <> b)) c =
        ap (λ x. tracking_key x value.tracking_no) carrier
        ∙ (ap (tracking_key a) number ∙ sym (tracking_key_shift a b c)) in
      rw (new, create, key, tracked, str_eq-false owner value.order_id other) refl
