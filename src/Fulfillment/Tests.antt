-- ===== src/Fulfillment/Tests.antt =====
-- The fulfillment service on small inputs, and its theorems at inputs that meet their conditions.
use seckill_mall.Base.{
  ℕ, ◌+◌, false, true, trim_space, map_answer, byte_len, String, ◌≡◌, ◌≢◌, refl, none, some, List,
  [], ◌∷◌, ok, err, Action, lookup, arith, eq_iff,
}
use seckill_mall.Contracts.Events.{EventEnvelope}
use seckill_mall.Fulfillment.Model.{Shipment, Error, conflict}
use seckill_mall.Fulfillment.Repository.{
  Repository, new_memory_repository, tracking_key, is_taken, publish, create,
}
use seckill_mall.Fulfillment.Service.{
  World, OrderClient, OrderTransition, remote, ship, new_shipment,
}
use seckill_mall.Fulfillment.Serving.{Request, send, receive, serve_all, shipments_apart}
use seckill_mall.Fulfillment.Retries.{ship_retried}
use seckill_mall.Fulfillment.Edges.{tracking_ambiguous}

-- A sink that counts its events, an order service that counts its calls, and a clock that counts them.
abbrev sent : EventEnvelope → Action ℕ Error (Unit {0})
sent event n = (ok tt, n + 1)

abbrev moved : String → Action ℕ Error OrderTransition
moved order_id n = (ok (record { order_id = order_id; status = "shipped"; reused = false }), n + 1)

abbrev orders : OrderClient ℕ
orders = record {
  get = λ _ _ n. (ok tt, n + 1);
  ship = λ _ order_id _ _. moved order_id;
  confirm_receipt = λ _ order_id. moved order_id;
}

abbrev ticks : ℕ → ℕ
ticks n = n

abbrev requests : List Request
requests = send 1 "o1" "sf" "42" ∷ send 1 "o2" "sf" "42" ∷ receive 7 "o1" ∷ []

abbrev after : Repository ℕ
after =
    (serve_all sent orders ticks requests
      (record { repository = new_memory_repository (some 0); outside = 5 })).repository

shipments_apart_example :
    ((k : String) (s : Shipment) → lookup k after.shipments ≡ some s → s.order_id ≡ k)
    × ((j k : String) (s t : Shipment)
        → lookup j after.shipments ≡ some s
        → lookup k after.shipments ≡ some t
        → s.carrier ≡ t.carrier
        → s.tracking_no ≡ t.tracking_no
        → j ≡ k)
shipments_apart_example = shipments_apart sent orders ticks requests (some 0) 5

-- The first order's parcel by the carrier "a:b" has the number "c".
abbrev shipped_one : Repository ℕ
shipped_one = record {
  next_id = 2;
  shipments = ("o1", new_shipment "o1" "a:b" "c" 5) ∷ [];
  tracking = ("a:b:c", "o1") ∷ [];
  sink = none;
}

other_order : ◌≢◌ {A = String} "o1" "o2"
other_order = ground (arith, eq_iff "o1" "o2")

tracking_ambiguous_example :
    create sent (new_shipment "o2" "a" "b:c" 6) shipped_one ≡ (err conflict, shipped_one)
unfolding tracking_key lookup new_shipment
tracking_ambiguous_example =
    tracking_ambiguous sent "a" "b" "c" "o1" (new_shipment "o2" "a" "b:c" 6) shipped_one refl
      other_order refl refl refl

-- A service without shipments.
abbrev idle : World ℕ ℕ
idle = record { repository = new_memory_repository none; outside = 5 }

abbrev first_parcel : Shipment
first_parcel = record (new_shipment "o1" "sf" "42" 5) { id = 1 }

ship_retried_example :
    let after = (ship sent orders ticks 1 "o1" " sf" "42" idle).1 in
    (lookup (trim_space "o1") after.repository.shipments ≡ some first_parcel)
    × ((v : World ℕ ℕ)
        → v.repository ≡ after.repository
        → ship sent orders ticks 1 "o1" " sf" "42" v
          ≡ map_answer
              (λ transition. (first_parcel, transition, true))
              (remote (orders.ship 1 (trim_space "o1") (trim_space " sf") (trim_space "42")))
              v)
unfolding trim_space new_shipment new_memory_repository lookup is_taken publish byte_len
ship_retried_example = ship_retried sent orders ticks 1 "o1" " sf" "42" idle refl refl refl refl
