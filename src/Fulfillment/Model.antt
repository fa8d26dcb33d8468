-- ===== src/Fulfillment/Model.antt =====
-- services/fulfillment/internal/app/model.go and repository.go. Times count nanoseconds, 0 for the
-- zero time.
use seckill_mall.Base.{ℕ, String, ◌<>◌}
use seckill_mall.Base.Decimal.{show_uint}
use seckill_mall.Platform.Grpc.{GrpcError}

pub data Status : Type 0 where
  shipped received : Status

abbrev pub status_text : Status → String
status_text shipped = "shipped"
status_text received = "received"

pub record Shipment : Type 0 where
  pub id : ℕ
  pub order_id : String
  pub carrier : String
  pub tracking_no : String
  pub status : Status
  pub shipped_at : ℕ
  pub delivered_at : ℕ
  pub created_at : ℕ
  pub updated_at : ℕ

-- PublicID
unfoldable pub public_id : Shipment → String
public_id value = "ship_" <> show_uint value.id

-- The three errors of repository.go, those of the order client, and the rest.
pub data Error : Type 0 where
  invalid_request not_found conflict : Error
  remote_error : GrpcError → Error
  failed : String → Error
