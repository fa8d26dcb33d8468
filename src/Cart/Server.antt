-- ===== src/Cart/Server.antt =====
-- services/cart/internal/app/server.go and statusError of service.go. A message has the fields of the
-- value that it carries. `md` is the metadata of the call, `secret` the shared secret of the
-- environment, `now` the time of the check. A request that is nil has no counterpart here.
use seckill_mall.Base.{
  ℕ, String, ◌<>◌, Bool, ◌&&◌, Option, List, map, ℤ, leb_ℤ, trim_space, Action, map_answer,
}
use seckill_mall.Platform.Grpc.{Code, GrpcError, status}
use seckill_mall.Platform.InternalCall.{Metadata, authorize_user}
use seckill_mall.Platform.Serving.{guarded, answered}
use seckill_mall.Cart.Model.{Sku, Item, Preview, Error, invalid_request, not_found, unavailable}
use seckill_mall.Cart.Service.{World, set_cart, delete_cart, list_cart, preview}

-- statusError
unfoldable pub status_error : Error → GrpcError
status_error invalid_request = status Code.invalid_argument "购物车参数无效"
status_error not_found = status Code.not_found "购物车商品不存在"
status_error (unavailable _) = status Code.unavailable "目录服务暂时不可用"

-- CartItem
pub record CartItem : Type 0 where
  pub sku_id : ℕ
  pub quantity : ℤ
  pub sku_code : String
  pub sku_name : String
  pub unit_price_cents : ℤ
  pub subtotal_cents : ℤ
  pub available : Bool

-- itemProto
unfoldable pub item_proto : Item → CartItem
item_proto value = record {
  sku_id = value.sku_id;
  quantity = value.quantity;
  sku_code = value.sku.code;
  sku_name = value.sku.name;
  unit_price_cents = value.sku.price_cents;
  subtotal_cents = value.subtotal_cents;
  available = value.sku.active && leb_ℤ value.quantity value.sku.available_stock;
}

-- CartPreviewResponse
pub record CartPreview : Type 0 where
  pub total_amount_cents : ℤ
  pub available : Bool
  pub items : List CartItem

abbrev method_of : String → String
method_of name = "/commerce.cart.v1.CartService/" <> name

module _ {I : Type 0} (snapshot : List ℕ → Bool → Action I String (List Sku))
    (hmac : String → String → String) (secret : String) where
  -- Server.auth, before a call of the service
  unfoldable pub served :
      {A : Type 0}
      → Option Metadata
      → String
      → ℕ
      → ℕ
      → Action (World I) Error A
      → Action (World I) GrpcError A
  served md method user_id now call =
      guarded (authorize_user hmac md (trim_space secret) method user_id now)
        (answered status_error call)

  -- Server.Set
  unfoldable pub serve_set : Option Metadata → ℕ → ℕ → ℕ → ℤ → Action (World I) GrpcError CartItem
  serve_set md now user_id sku_id quantity =
      served md (method_of "Set") user_id now
        (map_answer item_proto (set_cart snapshot user_id sku_id quantity))

  -- Server.Delete; its answer only says that the line is gone.
  unfoldable pub serve_delete : Option Metadata → ℕ → ℕ → ℕ → Action (World I) GrpcError (Unit {0})
  serve_delete md now user_id sku_id =
      served md (method_of "Delete") user_id now (delete_cart snapshot user_id sku_id)

  -- Server.List
  unfoldable pub serve_list : Option Metadata → ℕ → ℕ → Action (World I) GrpcError (List CartItem)
  serve_list md now user_id =
      served md (method_of "List") user_id now
        (map_answer (map item_proto) (list_cart snapshot user_id))

  -- Server.Preview
  unfoldable pub serve_preview : Option Metadata → ℕ → ℕ → Action (World I) GrpcError CartPreview
  serve_preview md now user_id = served md (method_of "Preview") user_id now (
      map_answer
        (λ (p : Preview). record {
          total_amount_cents = p.total_amount_cents;
          available = p.available;
          items = map item_proto p.items;
        })
        (preview snapshot user_id))
