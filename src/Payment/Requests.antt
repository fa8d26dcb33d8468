-- ===== src/Payment/Requests.antt =====
-- services/payment/internal/app/service.go: the histories of requests that the service answers.
use seckill_mall.Base.{ℕ, String, List, [], ◌∷◌, Action}
use seckill_mall.Contracts.Events.{EventEnvelope}
use seckill_mall.Payment.Model.{Error}
use seckill_mall.Payment.Service.{World, OrderClient, create_payment, callback, refund}

pub data Request : Type 0 where
  pay : ℕ → String → Request
  call_back : String → String → String → Request
  give_back : ℕ → String → String → Request

module _ {S I : Type 0} (append : EventEnvelope → Action S Error (Unit {0}))
    (client : OrderClient I) (clock : I → ℕ) (new_id : String → Action I Error String)
    (hmac : String → String → String) (secret : String) where
  -- What a request leaves behind.
  unfoldable pub serve : Request → World S I → World S I
  serve (pay user_id order_id) w =
      (create_payment append client clock new_id hmac secret user_id order_id w).1
  serve (call_back payment_no callback_ref signature) w =
      (callback append client clock new_id hmac secret payment_no callback_ref signature w).1
  serve (give_back user_id order_id reason) w =
      (refund append client clock new_id hmac secret user_id order_id reason w).1

  unfoldable pub serve_all : List Request → World S I → World S I
  serve_all [] w = w
  serve_all (request ∷ rest) w = serve_all rest (serve request w)
