-- ===== src/Order/Server.antt =====
-- services/order/internal/app/grpc_server.go: the confirmation of a payment, and the errors, of which
-- those of a canceled context are not told apart; AuthorizeInternalRequest of internal_auth.go. `md` is
-- the metadata of the call, `secret` the shared secret, `now` the time of the check.
use seckill_mall.Base.{ℕ, String, Bool, Option, Action, map_answer, trim_space}
use seckill_mall.Contracts.Events.{EventEnvelope}
use seckill_mall.Platform.Grpc.{Code, GrpcError, status}
use seckill_mall.Platform.InternalCall.{Metadata, authorize_user}
use seckill_mall.Platform.Serving.{guarded, answered}
use seckill_mall.Order.Model.{
  Status, pending_payment, paid, shipped, completed, canceled, refund_pending, refunded, Error,
  Order, validation, not_found, conflict, forbidden, out_of_stock, invalid_transition, unavailable,
  internal,
}
use seckill_mall.Order.World.{World, InventoryClient}
use seckill_mall.Order.Lifecycle.{confirm_payment}

abbrev pub status_text : Status → String
status_text pending_payment = "pending_payment"
status_text paid = "paid"
status_text shipped = "shipped"
status_text completed = "completed"
status_text canceled = "canceled"
status_text refund_pending = "refund_pending"
status_text refunded = "refunded"

-- mapError
unfoldable pub map_error : Error → GrpcError
map_error e = elim e.code [
  | validation ↦ status Code.invalid_argument e.message
  | not_found ↦ status Code.not_found e.message
  | forbidden ↦ status Code.permission_denied e.message
  | conflict ↦ status Code.aborted e.message
  | out_of_stock ↦ status Code.resource_exhausted e.message
  | invalid_transition ↦ status Code.failed_precondition e.message
  | unavailable ↦ status Code.unavailable e.message
  | internal ↦ status Code.internal "订单服务暂时不可用"
]

-- OrderTransitionResponse
pub record TransitionAnswer : Type 0 where
  pub order_id : String
  pub status : String
  pub reused : Bool
  pub message : String

abbrev pub confirm_method : String
confirm_method = "/commerce.order.v1.CommerceOrderService/ConfirmPayment"

module _ {S I : Type 0} (append : EventEnvelope → Action S Error (Unit {0}))
    (client : InventoryClient I) (clock : I → ℕ) (hmac : String → String → String)
    (secret : String) where
  -- GRPCServer.ConfirmPayment
  unfoldable pub serve_confirm :
      Option Metadata
      → ℕ
      → ℕ
      → String
      → String
      → String
      → Action (World S I) GrpcError TransitionAnswer
  serve_confirm md now user_id order_id payment_no callback_ref =
      guarded (authorize_user hmac md (trim_space secret) confirm_method user_id now) (
        answered map_error (
          map_answer
            (λ (x : Order × Bool). record {
              order_id = x.0.order_id;
              status = status_text x.0.status;
              reused = x.1;
              message = "支付状态已确认";
            })
            (confirm_payment append client clock user_id order_id payment_no callback_ref)))
