-- ===== src/Inventory/Server.antt =====
-- services/inventory/internal/app/server.go: the codes that the errors of the store become. A request
-- of the service is a call of the store with the fields of the message.
use seckill_mall.Base.{String}
use seckill_mall.Inventory.Model.{
  Error, invalid_request, not_found, out_of_stock, purchase_limit, conflict, event_error,
}

pub data GrpcCode : Type 0 where
  invalid_argument missing resource_exhausted already_exists aborted internal : GrpcCode

pub record GrpcError : Type 0 where
  pub code : GrpcCode
  pub message : String

-- mapError
unfoldable pub map_error : Error → GrpcError
map_error invalid_request = record { code = invalid_argument; message = "库存请求参数无效" }
map_error not_found = record { code = missing; message = "库存预占不存在" }
map_error out_of_stock = record { code = resource_exhausted; message = "库存不足" }
map_error purchase_limit = record { code = already_exists; message = "超过秒杀限购数量" }
map_error conflict = record { code = aborted; message = "库存预占状态冲突" }
map_error (event_error _) = record { code = internal; message = "库存服务暂时不可用" }
