-- ===== src/Fulfillment/Serving.antt =====
-- services/fulfillment/internal/app/service.go: the histories of requests, and what they keep.
use seckill_mall.Base.{
  ℕ, String, ◌≡◌, sym, subst, Bool, true, ◌||◌, Option, none, some, List, [], ◌∷◌, Action, pure,
  fail_if, ◌>>=◌, ◌>>◌, Keeps, then-Keeps, test-Keeps, arith, lookup, str_eq, ◌==◌, trim_space,
}
use seckill_mall.Contracts.Events.{EventEnvelope}
use seckill_mall.Fulfillment.Model.{Shipment, Error, invalid_request, conflict}
use seckill_mall.Fulfillment.Repository.{
  Repository, new_memory_repository, differs, create, get, mark_received,
}
use seckill_mall.Fulfillment.Service.{
  World, OrderClient, OrderTransition, stored, remote, refuses, new_shipment, ship_found,
  ship_trimmed, ship, confirm_trimmed, confirm_receipt, get_trimmed, get_shipment,
}
use seckill_mall.Fulfillment.Keeping.{
  IsSound, new_memory_repository-IsSound, create-IsSound, mark_received-IsSound,
}

pub data Request : Type 0 where
  send : ℕ → String → String → String → Request
  receive show : ℕ → String → Request

module _ {S I : Type 0} (append : EventEnvelope → Action S Error (Unit {0}))
    (client : OrderClient I) (clock : I → ℕ) where
  -- What a request leaves behind.
  unfoldable pub serve : Request → World S I → World S I
  serve (send actor_id order_id carrier tracking_no) w =
      (ship append client clock actor_id order_id carrier tracking_no w).1
  serve (receive user_id order_id) w = (confirm_receipt append client clock user_id order_id w).1
  serve (show user_id order_id) w = (get_shipment append client clock user_id order_id w).1

  unfoldable pub serve_all : List Request → World S I → World S I
  serve_all [] w = w
  serve_all (request ∷ rest) w = serve_all rest (serve request w)

get_same : {S : Type 0} (order_id : String) (r : Repository S) → (get order_id r).1 ≡ r
unfolding get
get_same order_id r = ground arith

module _ {S I : Type 0} (append : EventEnvelope → Action S Error (Unit {0}))
    (client : OrderClient I) (clock : I → ℕ) where
  abbrev IsKept : World S I → Type 0
  IsKept w = IsSound w.repository

  ship_found-Keeps :
      (actor_id : ℕ) (order_id carrier tracking_no : String) (existing : Option Shipment)
      → Keeps IsKept (ship_found append client clock actor_id order_id carrier tracking_no existing)
  unfolding ship_found
  ship_found-Keeps actor_id order_id carrier tracking_no (some existing) w s =
      let call = remote {S = S} (client.ship actor_id order_id carrier tracking_no) in
      let answer : OrderTransition → Shipment × OrderTransition × Bool =
        λ transition. (existing, transition, true) in
      then-Keeps IsKept (fail_if (differs existing carrier tracking_no) conflict)
        (λ _. call >>= λ transition. pure (answer transition))
        (test-Keeps IsKept (differs existing carrier tracking_no) conflict)
        (λ _.
          then-Keeps IsKept call (λ transition. pure (answer transition)) (λ w s. s) (λ _ w s. s))
        w s
  ship_found-Keeps actor_id order_id carrier tracking_no none w s =
      let call = remote {S = S} (client.ship actor_id order_id carrier tracking_no) in
      let answer : Shipment × Bool → OrderTransition → Shipment × OrderTransition × Bool =
        λ made transition. (made.0, transition, made.1) in
      let value = new_shipment order_id carrier tracking_no (clock w.outside) in
      then-Keeps IsKept (stored {I = I} (create append value))
        (λ made. call >>= λ transition. pure (answer made transition))
        (λ v t. create-IsSound append value v.repository t)
        (λ made.
          then-Keeps IsKept call (λ transition. pure (answer made transition)) (λ w s. s)
            (λ _ w s. s))
        w s

  ship_trimmed-Keeps :
      (actor_id : ℕ) (order_id carrier tracking_no : String)
      → Keeps IsKept (ship_trimmed append client clock actor_id order_id carrier tracking_no)
  unfolding ship_trimmed
  ship_trimmed-Keeps actor_id order_id carrier tracking_no =
      then-Keeps IsKept (fail_if (refuses actor_id order_id carrier tracking_no) invalid_request)
        (λ _ w.
          ship_found append client clock actor_id order_id carrier tracking_no
            (lookup order_id w.repository.shipments) w)
        (test-Keeps IsKept (refuses actor_id order_id carrier tracking_no) invalid_request)
        (λ _ w.
          ship_found-Keeps actor_id order_id carrier tracking_no
            (lookup order_id w.repository.shipments) w)

  confirm_trimmed-Keeps :
      (user_id : ℕ) (order_id : String)
      → Keeps IsKept (confirm_trimmed append client clock user_id order_id)
  unfolding confirm_trimmed
  confirm_trimmed-Keeps user_id order_id =
      let bad = user_id == 0 || str_eq order_id "" in
      let own = remote {S = S} (client.get user_id order_id) in
      let call = remote {S = S} (client.confirm_receipt user_id order_id) in
      let answer : OrderTransition → Shipment × Bool → Shipment × OrderTransition × Bool =
        λ transition made. (made.0, transition, made.1) in
      let finish = λ (transition : OrderTransition) (w : World S I).
        (stored (mark_received append order_id (clock w.outside)) >>= λ made.
        pure (answer transition made))
          w in
      then-Keeps IsKept (fail_if bad invalid_request) (λ _. own >> (call >>= finish))
        (test-Keeps IsKept bad invalid_request)
        (λ _.
          then-Keeps IsKept own (λ _. call >>= finish) (λ w s. s)
            (λ _.
              then-Keeps IsKept call finish (λ w s. s)
                (λ transition w s.
                  then-Keeps IsKept
                    (stored {I = I} (mark_received append order_id (clock w.outside)))
                    (λ made. pure (answer transition made))
                    (λ v t. mark_received-IsSound append order_id (clock w.outside) v.repository t)
                    (λ _ v t. t) w s)))

  get_trimmed-Keeps :
      (user_id : ℕ) (order_id : String)
      → Keeps IsKept (get_trimmed append client clock user_id order_id)
  unfolding get_trimmed
  get_trimmed-Keeps user_id order_id =
      let bad = user_id == 0 || str_eq order_id "" in
      let own = remote {S = S} (client.get user_id order_id) in
      then-Keeps IsKept (fail_if bad invalid_request) (λ _. own >> stored (get order_id))
        (test-Keeps IsKept bad invalid_request)
        (λ _.
          then-Keeps IsKept own (λ _. stored (get order_id)) (λ w s. s)
            (λ _ w s. subst IsSound (sym (get_same order_id w.repository)) s))

  serve-IsSound :
      (request : Request) (w : World S I) → IsKept w → IsKept (serve append client clock request w)
  unfolding serve ship confirm_receipt get_shipment
  serve-IsSound (send actor_id order_id carrier tracking_no) =
      ship_trimmed-Keeps actor_id (trim_space order_id) (trim_space carrier)
        (trim_space tracking_no)
  serve-IsSound (receive user_id order_id) = confirm_trimmed-Keeps user_id (trim_space order_id)
  serve-IsSound (show user_id order_id) = get_trimmed-Keeps user_id (trim_space order_id)

  serve_all-IsKept :
      (requests : List Request) (w : World S I)
      → IsKept w
      → IsKept (serve_all append client clock requests w)
  unfolding serve_all
  serve_all-IsKept [] w s = s
  serve_all-IsKept (request ∷ rest) w s =
      serve_all-IsKept rest (serve append client clock request w) (serve-IsSound request w s)

  abbrev after_requests : List Request → Option S → I → Repository S
  after_requests requests sink outside =
      (serve_all append client clock requests
        (record { repository = new_memory_repository sink; outside = outside })).repository

  -- Whatever requests a new fulfillment service answers, and whatever its order client and its event
  -- sink do: each shipment stands under its order, and no two orders have a shipment with the same
  -- carrier and tracking number.
  pub shipments_apart :
      (requests : List Request) (sink : Option S) (outside : I)
      → let r = after_requests requests sink outside in
        ((k : String) (s : Shipment) → lookup k r.shipments ≡ some s → s.order_id ≡ k)
        × ((j k : String) (s t : Shipment)
            → lookup j r.shipments ≡ some s
            → lookup k r.shipments ≡ some t
            → s.carrier ≡ t.carrier
            → s.tracking_no ≡ t.tracking_no
            → j ≡ k)
  shipments_apart requests sink outside =
      let sound =
        serve_all-IsKept requests
          (record { repository = new_memory_repository sink; outside = outside })
          (new_memory_repository-IsSound sink) in
      (
        sound.own,
        λ j k s t hs ht same_carrier same_number.
            ground (arith, sound.tracked j s hs, sound.tracked k t ht),
      )
