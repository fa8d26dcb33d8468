-- ===== src/Fulfillment/Service.antt =====
-- services/fulfillment/internal/app/service.go, and the interface of order_client.go. The order client
-- and the clock are outside: a state of type I, which every call may change, and from which the time
-- is read.
use seckill_mall.Base.{
  ℕ, ◌==◌, String, byte_len, Bool, true, ◌||◌, Option, none, some, ltb, str_eq, trim_space, Result,
  Action, pure, fail_if, gets, ◌>>=◌, ◌>>◌, lookup,
}
use seckill_mall.Contracts.Events.{EventEnvelope}
use seckill_mall.Fulfillment.Model.{Shipment, shipped, Error, invalid_request, conflict}
use seckill_mall.Fulfillment.Repository.{Repository, differs, create, get, mark_received}

pub record OrderTransition : Type 0 where
  pub order_id : String
  pub status : String
  pub reused : Bool

pub record OrderClient (I : Type 0) : Type 0 where
  pub get : ℕ → String → Action I Error (Unit {0})
  pub ship : ℕ → String → String → String → Action I Error OrderTransition
  pub confirm_receipt : ℕ → String → Action I Error OrderTransition

pub record World (S I : Type 0) : Type 0 where
  pub repository : Repository S
  pub outside : I

module _ {S I : Type 0} where
  abbrev pub stored :
      {A : Type 0}
      → (Repository S → Result Error A × Repository S)
      → World S I
      → Result Error A × World S I
  stored m w = let (r, s) = m w.repository in (r, record w { repository = s })

  abbrev pub remote :
      {A : Type 0} → (I → Result Error A × I) → World S I → Result Error A × World S I
  remote m w = let (r, i) = m w.outside in (r, record w { outside = i })

-- The shipment of Ship.
unfoldable pub new_shipment : String → String → String → ℕ → Shipment
new_shipment order_id carrier tracking_no now = record {
  id = 0;
  order_id = order_id;
  carrier = carrier;
  tracking_no = tracking_no;
  status = shipped;
  shipped_at = now;
  delivered_at = 0;
  created_at = now;
  updated_at = now;
}

abbrev pub refuses : ℕ → String → String → String → Bool
refuses actor_id order_id carrier tracking_no =
    actor_id == 0
    || (str_eq order_id ""
        || (str_eq carrier ""
            || (str_eq tracking_no ""
                || (ltb 64 (byte_len carrier) || ltb 128 (byte_len tracking_no)))))

module _ {S I : Type 0} (append : EventEnvelope → Action S Error (Unit {0}))
    (client : OrderClient I) (clock : I → ℕ) where
  -- Ship, for an order that has a shipment, or has none
  unfoldable pub ship_found :
      ℕ
      → String
      → String
      → String
      → Option Shipment
      → Action (World S I) Error (Shipment × OrderTransition × Bool)
  ship_found actor_id order_id carrier tracking_no (some existing) = do
    fail_if (differs existing carrier tracking_no) conflict
    transition ← remote (client.ship actor_id order_id carrier tracking_no)
    pure (existing, transition, true)
  ship_found actor_id order_id carrier tracking_no none = do
    now ← gets (λ w. clock w.outside)
    made ← stored (create append (new_shipment order_id carrier tracking_no now))
    transition ← remote (client.ship actor_id order_id carrier tracking_no)
    pure (made.0, transition, made.1)

  -- Ship, on trimmed arguments; the only error of the repository's Get is that of a missing shipment.
  unfoldable pub ship_trimmed :
      ℕ → String → String → String → Action (World S I) Error (Shipment × OrderTransition × Bool)
  ship_trimmed actor_id order_id carrier tracking_no = do
    fail_if (refuses actor_id order_id carrier tracking_no) invalid_request
    existing ← gets (λ w. lookup order_id w.repository.shipments)
    ship_found actor_id order_id carrier tracking_no existing

  -- Ship
  unfoldable pub ship :
      ℕ → String → String → String → Action (World S I) Error (Shipment × OrderTransition × Bool)
  ship actor_id order_id carrier tracking_no =
      ship_trimmed actor_id (trim_space order_id) (trim_space carrier) (trim_space tracking_no)

  unfoldable pub confirm_trimmed :
      ℕ → String → Action (World S I) Error (Shipment × OrderTransition × Bool)
  confirm_trimmed user_id order_id = do
    fail_if (user_id == 0 || str_eq order_id "") invalid_request
    remote (client.get user_id order_id)
    transition ← remote (client.confirm_receipt user_id order_id)
    now ← gets (λ w. clock w.outside)
    made ← stored (mark_received append order_id now)
    pure (made.0, transition, made.1)

  -- ConfirmReceipt
  unfoldable pub confirm_receipt :
      ℕ → String → Action (World S I) Error (Shipment × OrderTransition × Bool)
  confirm_receipt user_id order_id = confirm_trimmed user_id (trim_space order_id)

  unfoldable pub get_trimmed : ℕ → String → Action (World S I) Error Shipment
  get_trimmed user_id order_id = do
    fail_if (user_id == 0 || str_eq order_id "") invalid_request
    remote (client.get user_id order_id)
    stored (get order_id)

  -- Get
  unfoldable pub get_shipment : ℕ → String → Action (World S I) Error Shipment
  get_shipment user_id order_id = get_trimmed user_id (trim_space order_id)
