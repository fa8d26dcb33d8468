-- ===== src/Fulfillment/Server.antt =====
-- services/fulfillment/internal/app/server.go, and mapOrderClientError of order_client.go. `md` is the
-- metadata of the call, `secret` the shared secret of the environment, `now` the time of the check. A
-- request that is nil has no counterpart here.
use seckill_mall.Base.{ℕ, String, Bool, Option, Action, map_answer}
use seckill_mall.Contracts.Events.{EventEnvelope}
use seckill_mall.Platform.Grpc.{Code, GrpcError, status, wrapped}
use seckill_mall.Platform.InternalCall.{Metadata, authorize_user, authorize_role}
use seckill_mall.Platform.Serving.{is_passed, guarded, answered}
use seckill_mall.Fulfillment.Model.{
  Shipment, Status, public_id, Error, invalid_request, not_found, conflict, remote_error, failed,
}
use seckill_mall.Fulfillment.Service.{
  World, OrderClient, OrderTransition, ship, confirm_receipt, get_shipment,
}

-- mapOrderClientError; `text` is the text of a status.
unfoldable pub map_order_client_error : (GrpcError → String) → GrpcError → GrpcError
map_order_client_error text e = elim (is_passed e.code) [
  | Bool.true ↦ e
  | Bool.false ↦ wrapped text "订单服务调用失败" e
]

abbrev is_unknown : Code → Bool
is_unknown Code.unknown = Bool.true
is_unknown _ = Bool.false

-- mapError
unfoldable pub map_error : Error → GrpcError
map_error invalid_request = status Code.invalid_argument "履约请求参数无效"
map_error not_found = status Code.not_found "物流记录不存在"
map_error conflict = status Code.aborted "物流信息冲突"
map_error (remote_error e) = elim (is_unknown e.code) [
  | Bool.true ↦ status Code.internal "履约服务暂时不可用"
  | Bool.false ↦ e
]
map_error (failed _) = status Code.internal "履约服务暂时不可用"

-- FulfillmentShipResponse
pub record ShipmentAnswer : Type 0 where
  pub shipment_id : String
  pub status : Status
  pub message : String
  pub order_id : String
  pub carrier : String
  pub tracking_no : String
  pub order_status : String
  pub reused : Bool

-- response
unfoldable pub response : Shipment → String → Bool → ShipmentAnswer
response value order_status reused = record {
  shipment_id = public_id value;
  status = value.status;
  message = "履约状态已更新";
  order_id = value.order_id;
  carrier = value.carrier;
  tracking_no = value.tracking_no;
  order_status = order_status;
  reused = reused;
}

abbrev ship_method : String
ship_method = "/commerce.fulfillment.v1.FulfillmentService/Ship"

abbrev receipt_method : String
receipt_method = "/commerce.fulfillment.v1.FulfillmentService/ConfirmReceipt"

abbrev get_method : String
get_method = "/commerce.fulfillment.v1.FulfillmentService/Get"

module _ {S I : Type 0} (append : EventEnvelope → Action S Error (Unit {0}))
    (client : OrderClient I) (clock : I → ℕ) (hmac : String → String → String)
    (secret : String) where
  abbrev answer_of : Shipment × OrderTransition × Bool → ShipmentAnswer
  answer_of x = response x.0 x.1.status x.2

  -- Server.Ship
  unfoldable pub serve_ship :
      Option Metadata
      → ℕ
      → ℕ
      → String
      → String
      → String
      → Action (World S I) GrpcError ShipmentAnswer
  serve_ship md now actor_id order_id carrier tracking_no =
      guarded (authorize_role hmac md secret ship_method actor_id "admin" now) (
        answered map_error
          (map_answer answer_of (ship append client clock actor_id order_id carrier tracking_no)))

  -- Server.ConfirmReceipt
  unfoldable pub serve_receipt :
      Option Metadata → ℕ → ℕ → String → Action (World S I) GrpcError ShipmentAnswer
  serve_receipt md now user_id order_id =
      guarded (authorize_user hmac md secret receipt_method user_id now) (
        answered map_error
          (map_answer answer_of (confirm_receipt append client clock user_id order_id)))

  -- Server.Get
  unfoldable pub serve_get :
      Option Metadata → ℕ → ℕ → String → Action (World S I) GrpcError ShipmentAnswer
  serve_get md now user_id order_id =
      guarded (authorize_user hmac md secret get_method user_id now) (
        answered map_error (
          map_answer (λ (value : Shipment). response value "" Bool.false)
            (get_shipment append client clock user_id order_id)))
