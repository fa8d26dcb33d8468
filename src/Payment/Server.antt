-- ===== src/Payment/Server.antt =====
-- services/payment/internal/app/server.go, and mapOrderClientError of order_client.go. `md` is the
-- metadata of the call, `secret` the shared secret of the environment, `now` the time of the check.
-- A request that is nil has no counterpart here.
use seckill_mall.Base.{ℕ, String, Bool, Option, ℤ, Action, map_answer}
use seckill_mall.Contracts.Events.{EventEnvelope}
use seckill_mall.Platform.Grpc.{Code, GrpcError, status, wrapped}
use seckill_mall.Platform.InternalCall.{Metadata, authorize_user, authorize_role}
use seckill_mall.Platform.Serving.{is_passed, guarded, answered}
use seckill_mall.Payment.Model.{
  Payment, Refund, Status, Error, invalid_request, unauthorized, not_found, conflict,
  invalid_transition, remote_error, failed,
}
use seckill_mall.Payment.Service.{
  World, OrderClient, OrderTransition, create_payment, callback, refund,
}

-- mapOrderClientError; `text` is the text of a status.
unfoldable pub map_order_client_error : (GrpcError → String) → GrpcError → GrpcError
map_order_client_error text e = elim (is_passed e.code) [
  | Bool.true ↦ e
  | Bool.false ↦ wrapped text "订单服务调用失败" e
]

abbrev is_unavailable : Code → Bool
is_unavailable Code.unavailable = Bool.true
is_unavailable _ = Bool.false

-- mapError
unfoldable pub map_error : Error → GrpcError
map_error invalid_request = status Code.invalid_argument "支付请求参数无效"
map_error unauthorized = status Code.unauthenticated "支付回调签名无效"
map_error not_found = status Code.not_found "支付资源不存在"
map_error conflict = status Code.aborted "支付请求冲突"
map_error invalid_transition = status Code.failed_precondition "当前订单不能执行支付操作"
map_error (remote_error e) = elim (is_unavailable e.code) [
  | Bool.true ↦ e
  | Bool.false ↦ status Code.internal "支付服务暂时不可用"
]
map_error (failed _) = status Code.internal "支付服务暂时不可用"

-- PaymentCreateResponse
pub record PaymentAnswer : Type 0 where
  pub payment_no : String
  pub amount_cents : ℤ
  pub status : Status
  pub order_id : String
  pub user_id : ℕ
  pub provider : String
  pub callback_signature : String

-- paymentProto
unfoldable pub payment_proto : Payment → String → PaymentAnswer
payment_proto value signature = record {
  payment_no = value.payment_no;
  amount_cents = value.amount_cents;
  status = value.status;
  order_id = value.order_id;
  user_id = value.user_id;
  provider = value.provider;
  callback_signature = signature;
}

abbrev create_method : String
create_method = "/commerce.payment.v1.PaymentService/Create"

abbrev callback_method : String
callback_method = "/commerce.payment.v1.PaymentService/Callback"

abbrev refund_method : String
refund_method = "/commerce.payment.v1.PaymentService/Refund"

abbrev system_actor : ℕ
system_actor = 1

abbrev system_role : String
system_role = "system"

module _ {S I : Type 0} (append : EventEnvelope → Action S Error (Unit {0}))
    (client : OrderClient I) (clock : I → ℕ) (new_id : String → Action I Error String)
    (hmac : String → String → String) (payment_secret secret : String) where
  -- Server.Create
  unfoldable pub serve_create :
      Option Metadata → ℕ → ℕ → String → Action (World S I) GrpcError (PaymentAnswer × Bool)
  serve_create md now user_id order_id =
      guarded (authorize_user hmac md secret create_method user_id now) (
        answered map_error (
          map_answer (λ (x : Payment × String × Bool). (payment_proto x.0 x.1, x.2))
            (create_payment append client clock new_id hmac payment_secret user_id order_id)))

  -- Server.Callback
  unfoldable pub serve_callback :
      Option Metadata
      → ℕ
      → String
      → String
      → String
      → Action (World S I) GrpcError (PaymentAnswer × String × Bool)
  serve_callback md now payment_no callback_ref signature =
      guarded (authorize_role hmac md secret callback_method system_actor system_role now) (
        answered map_error (
          map_answer
            (λ (x : Payment × OrderTransition × Bool). (payment_proto x.0 "", x.1.status, x.2))
            (callback append client clock new_id hmac payment_secret payment_no callback_ref
              signature)))

  -- Server.Refund
  unfoldable pub serve_refund :
      Option Metadata
      → ℕ
      → ℕ
      → String
      → String
      → Action (World S I) GrpcError (Refund × String × Bool)
  serve_refund md now user_id order_id reason =
      guarded (authorize_user hmac md secret refund_method user_id now) (
        answered map_error (
          map_answer (λ (x : Refund × OrderTransition × Bool). (x.0, x.1.status, x.2))
            (refund append client clock new_id hmac payment_secret user_id order_id reason)))
