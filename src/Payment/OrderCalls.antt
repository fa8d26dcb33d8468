-- ===== src/Payment/OrderCalls.antt =====
-- services/payment/internal/app/order_client.go: ConfirmPayment of the order client, connected to the
-- server of the Order Service. gRPC carries requests and answers; `text` is the text of a status. A
-- call that is signed at a time arrives at a time `later`.
use seckill_mall.Base.{ℕ, String, some, [], Result, ok, err, Action}
use seckill_mall.Contracts.Events.{EventEnvelope}
use seckill_mall.Platform.Grpc.{GrpcError}
use seckill_mall.Platform.InternalCall.{append_user}
use seckill_mall.Order.Model.{Error as OrderError}
use seckill_mall.Order.World.{World as OrderWorld, InventoryClient}
use seckill_mall.Order.Server.{TransitionAnswer, confirm_method, serve_confirm}
use seckill_mall.Payment.Model.{Error, remote_error}
use seckill_mall.Payment.Service.{OrderClient, OrderTransition}
use seckill_mall.Payment.Server.{map_order_client_error}

-- What the client makes of an answer of the server.
unfoldable pub transition_of :
    (GrpcError → String) → Result GrpcError TransitionAnswer → Result Error OrderTransition
transition_of text (err e) = err (remote_error (map_order_client_error text e))
transition_of text (ok t) =
    ok (record { order_id = t.order_id; status = t.status; reused = t.reused })

module _ {S I : Type 0} (append : EventEnvelope → Action S OrderError (Unit {0}))
    (inventory : InventoryClient I) (clock : I → ℕ) (later : ℕ → ℕ)
    (hmac : String → String → String) (secret : String) (text : GrpcError → String) where
  -- GRPCOrderClient.ConfirmPayment
  unfoldable pub confirm_call :
      ℕ → String → String → String → Action (OrderWorld S I) Error OrderTransition
  confirm_call user_id order_id payment_no callback_ref w =
      let sent = clock w.outside in
      let md = append_user hmac secret confirm_method user_id sent [] in
      let (result, w') =
        serve_confirm append inventory clock hmac secret (some md) (later sent) user_id order_id
          payment_no callback_ref w in
      (transition_of text result, w')

  -- The order client, of which ConfirmPayment goes to the Order Service.
  abbrev pub connected : OrderClient (OrderWorld S I) → OrderClient (OrderWorld S I)
  connected calls = record calls { confirm_payment = confirm_call }
