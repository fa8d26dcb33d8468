-- ===== src/Catalog/Server.antt =====
-- services/catalog/internal/app/server.go. A message has the fields of the value that it carries; a
-- request that is nil has no counterpart here.
use seckill_mall.Base.{
  ℕ, Bool, ◌||◌, List, [], ℤ, pos, ltb_ℤ, leb_ℤ, ◌==◌, if◌then◌else◌, Result, ok, err,
}
use seckill_mall.Platform.Grpc.{Code, GrpcError, status}
use seckill_mall.Catalog.Model.{
  Sku, Product, ProductPage, Error, invalid_request, not_found, out_of_range,
}
use seckill_mall.Catalog.Repository.{Repository, list_products, get_product, get_sku_snapshot}

-- mapError; a panic is no error, but ends the call all the same.
unfoldable pub map_error : Error → GrpcError
map_error invalid_request = status Code.invalid_argument "目录请求参数无效"
map_error not_found = status Code.not_found "商品或 SKU 不存在"
map_error out_of_range = status Code.internal "目录服务暂时不可用"

abbrev pub answer : {A : Type 0} → Result Error A → Result GrpcError A
answer (ok a) = ok a
answer (err e) = err (map_error e)

-- The limit of a page.
unfoldable pub page_limit : ℤ → ℤ
page_limit limit = if leb_ℤ limit (pos 0) || ltb_ℤ (pos 100) limit then pos 20 else limit

-- Server.ListProducts
unfoldable pub serve_list : ℤ → ℤ → Bool → Repository → Result GrpcError ProductPage
serve_list offset limit include_inactive r =
    if ltb_ℤ offset (pos 0)
    then err (status Code.invalid_argument "offset 不能为负数")
    else answer (list_products offset (page_limit limit) include_inactive r)

-- Server.GetProduct
unfoldable pub serve_product : ℕ → Bool → Repository → Result GrpcError Product
serve_product spu_id include_inactive r =
    if spu_id == 0
    then err (status Code.invalid_argument "spu_id 无效")
    else answer (get_product spu_id include_inactive r)

-- Server.GetSKUSnapshot
unfoldable pub serve_skus : List ℕ → Bool → Repository → Result GrpcError (List Sku)
serve_skus [] include_inactive r = err (status Code.invalid_argument "sku_ids 不能为空")
serve_skus ids include_inactive r = answer (get_sku_snapshot ids include_inactive r)
