-- ===== src/Catalog/Tests.antt =====
-- The catalog on small inputs, and its theorems at inputs that meet their conditions.
use seckill_mall.Base.{
  ℕ, ◌<◌, ◌≤◌, ◌≡◌, refl, false, true, Bool, ltb, List, [], ◌∷◌, ◌++◌, map, pos, negsuc, ok, err,
  add64, arith,
}
use seckill_mall.Base.Slices.{length, take, drop, filter, page}
use seckill_mall.Base.Sorting.{sort_by, IsSorted}
use mathlib.Core.List.{Perm, Permᴰ}
use seckill_mall.Catalog.Model.{Product, ProductPage, not_found}
use seckill_mall.Catalog.Repository.{
  Repository, visible_ids, sorted_ids, shown, find, clone_product, list_products, get_product,
}
use seckill_mall.Catalog.Server.{serve_list}
use seckill_mall.Catalog.Pages.{pages_join, serve_list_answers}

abbrev named : ℕ → Bool → Product
named id active = record {
  spu_id = id;
  category_id = 1;
  name = "";
  description = "";
  active = active;
  skus = [];
  images = [];
}

-- Three products, of which one is inactive.
abbrev shop : Repository
shop = record {
  products = (3, named 3 true) ∷ (1, named 1 true) ∷ (2, named 2 false) ∷ [];
  skus = [];
}

-- The same products, in two other orders.
abbrev turned : Repository
turned = record {
  products = (1, named 1 true) ∷ (3, named 3 true) ∷ (2, named 2 false) ∷ [];
  skus = [];
}

abbrev shifted : Repository
shifted = record {
  products = (3, named 3 true) ∷ (2, named 2 false) ∷ (1, named 1 true) ∷ [];
  skus = [];
}

abbrev page_of : List Product → ℕ → ℕ → ProductPage
page_of items offset limit = record {
  items = items;
  total = 2;
  offset = pos offset;
  limit = pos limit;
}

pages_join_example :
    ((page_of (named 1 true ∷ []) 0 1).items ++ (page_of (named 3 true ∷ []) 1 4).items
      ≡ (page_of (named 1 true ∷ named 3 true ∷ []) 0 5).items)
    × ((page_of (named 1 true ∷ []) 0 1).total
        ≡ (page_of (named 1 true ∷ named 3 true ∷ []) 0 5).total)
    × ((page_of (named 3 true ∷ []) 1 4).total
        ≡ (page_of (named 1 true ∷ named 3 true ∷ []) 0 5).total)
unfolding list_products sorted_ids visible_ids sort_by shown find clone_product filter page take
    drop add64
pages_join_example =
    pages_join 0 1 4 false shop turned shifted (refl, (refl, (refl, tt))) (Permᴰ.swap refl refl)
      (Permᴰ.cons refl (Permᴰ.swap refl refl)) (omega arith) (omega arith) (omega arith)
      (page_of (named 1 true ∷ []) 0 1) (page_of (named 3 true ∷ []) 1 4)
      (page_of (named 1 true ∷ named 3 true ∷ []) 0 5) refl refl refl

serve_list_answers_example :
    let ids = sorted_ids false shop in
    (n : ℕ) × (p : ProductPage) × (serve_list (pos 1) (negsuc 0) false shop ≡ ok p)
    × (p.items ≡ map (shown false shop) (take n (drop 1 ids)))
    × (0 < n)
    × (n ≤ 100)
    × (p.total ≡ length ids)
    × IsSorted ltb ids
    × Perm ids (visible_ids false shop.products)
unfolding sorted_ids visible_ids sort_by
serve_list_answers_example = serve_list_answers 1 (negsuc 0) false shop (omega arith)

-- An inactive product is not found.
inactive : get_product 2 false shop ≡ err not_found
unfolding get_product find
inactive = refl
