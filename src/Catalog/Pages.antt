-- ===== src/Catalog/Pages.antt =====
-- services/catalog/internal/app: the pages of ListProducts.
use seckill_mall.Base.{
  ℕ, ◌<◌, ◌+◌, ◌≤◌, ◌≡◌, refl, sym, ap, ◌∙◌, Bool, true, false, ◌++◌, map, ℤ, pos, negsuc,
  int64_limit, ok, ok_inj, arith, ltb, pos_part, if◌then◌else◌,
}
use seckill_mall.Base.Slices.{length, take, drop, page_lem, take-drop, drop-drop}
use seckill_mall.Base.Sorting.{sort_by-perm, IsSorted, sort_by-IsSorted}
use mathlib.Core.List.{map-append, Perm, Permᴰ}
use seckill_mall.Catalog.Orders.{IsMap, list_products_same}
use seckill_mall.Catalog.Server.{serve_list, page_limit}
use seckill_mall.Catalog.Model.{ProductPage}
use seckill_mall.Catalog.Repository.{Repository, sorted_ids, shown, list_products, visible_ids}

-- Where the ids are few enough, a page is the part of the sorted ids that it asks for.
list_products_lem :
    (offset limit : ℕ) (include_inactive : Bool) (r : Repository)
    → 0 < limit
    → length (sorted_ids include_inactive r) + limit < int64_limit
    → let ids = sorted_ids include_inactive r in
      list_products (pos offset) (pos limit) include_inactive r
      ≡ ok (record {
        items = map (shown include_inactive r) (take limit (drop offset ids));
        total = length ids;
        offset = if ltb (length ids) offset then pos (length ids) else pos offset;
        limit = pos limit;
      })
unfolding list_products
list_products_lem offset limit include_inactive r positive small =
    ground (arith, page_lem offset limit (sorted_ids include_inactive r) small)

-- The pages of one order of the products.
parts_join :
    (offset m n : ℕ) (include_inactive : Bool) (r : Repository)
    → 0 < m
    → 0 < n
    → length (sorted_ids include_inactive r) + (m + n) < int64_limit
    → (first second whole : ProductPage)
    → list_products (pos offset) (pos m) include_inactive r ≡ ok first
    → list_products (pos (offset + m)) (pos n) include_inactive r ≡ ok second
    → list_products (pos offset) (pos (m + n)) include_inactive r ≡ ok whole
    → (first.items ++ second.items ≡ whole.items)
      × (first.total ≡ whole.total)
      × (second.total ≡ whole.total)
parts_join offset m n include_inactive r hm hn small first second whole p q s =
    let ids = sorted_ids include_inactive r in
    let show = map (shown include_inactive r) in
    let a = ok_inj (sym p ∙ list_products_lem offset m include_inactive r hm (omega arith)) in
    let b = ok_inj (sym q ∙ list_products_lem (offset + m) n include_inactive r hn (omega arith)) in
    let c =
      ok_inj (sym s ∙ list_products_lem offset (m + n) include_inactive r (omega arith) small) in
    let parts : show (take m (drop offset ids)) ++ show (take n (drop (offset + m) ids))
        ≡ show (take (m + n) (drop offset ids)) =
      ap (λ xs. show (take m (drop offset ids)) ++ show (take n xs)) (sym (drop-drop offset m ids))
      ∙ (sym (
            map-append (shown include_inactive r) (take m (drop offset ids))
              (take n (drop m (drop offset ids))))
          ∙ ap show (take-drop m n (drop offset ids))) in
    (
      ap (λ (x : ProductPage). x.items ++ second.items) a
          ∙ (ap (λ (x : ProductPage). show (take m (drop offset ids)) ++ x.items) b
              ∙ (parts ∙ sym (ap (λ (x : ProductPage). x.items) c))),
      ap (λ (x : ProductPage). x.total) a ∙ sym (ap (λ (x : ProductPage). x.total) c),
      ap (λ (x : ProductPage). x.total) b ∙ sym (ap (λ (x : ProductPage). x.total) c),
    )

-- If the keys of the map are distinct, both limits are positive, and the number of shown products and
-- the two limits add up to less than the int64 limit: of a page, the page that follows it and the page of
-- both, each answered by a call that visits the products of the map in an order of its own, the first
-- two make up the third, so that no product is listed twice or left out between them, and all tell the
-- same total.
pub pages_join :
    (offset m n : ℕ) (include_inactive : Bool) (r s t : Repository)
    → IsMap r.products
    → Permᴰ r.products s.products
    → Permᴰ r.products t.products
    → 0 < m
    → 0 < n
    → length (sorted_ids include_inactive r) + (m + n) < int64_limit
    → (first second whole : ProductPage)
    → list_products (pos offset) (pos m) include_inactive r ≡ ok first
    → list_products (pos (offset + m)) (pos n) include_inactive s ≡ ok second
    → list_products (pos offset) (pos (m + n)) include_inactive t ≡ ok whole
    → (first.items ++ second.items ≡ whole.items)
      × (first.total ≡ whole.total)
      × (second.total ≡ whole.total)
pages_join offset m n include_inactive r s t distinct d e hm hn small first second whole p q u =
    parts_join offset m n include_inactive r hm hn small first second whole p
      (list_products_same r s d distinct (pos (offset + m)) (pos n) include_inactive ∙ q)
      (list_products_same r t e distinct (pos offset) (pos (m + n)) include_inactive ∙ u)

ltb_asym : (x y : ℕ) → ltb y x ≡ true → ltb x y ≡ false
ltb_asym x y h = ground arith

ltb_trans : (x y z : ℕ) → ltb y x ≡ false → ltb z y ≡ false → ltb z x ≡ false
ltb_trans x y z h k = ground arith

page_limit_range :
    (limit : ℤ)
    → (page_limit limit ≡ pos (pos_part (page_limit limit)))
      × (0 < pos_part (page_limit limit))
      × (pos_part (page_limit limit) ≤ 100)
unfolding page_limit
page_limit_range (pos n) = ground arith
page_limit_range (negsuc n) = ground arith

serve_list_lem :
    (offset : ℕ) (limit : ℤ) (include_inactive : Bool) (r : Repository) (p : ProductPage)
    → list_products (pos offset) (page_limit limit) include_inactive r ≡ ok p
    → serve_list (pos offset) limit include_inactive r ≡ ok p
unfolding serve_list
serve_list_lem offset limit include_inactive r p h = ground arith

-- The server answers every request for a page whose offset is not negative, whatever its limit: with
-- at most a hundred products, in the ascending order of their ids, which are those of the products
-- that may be shown; no index is out of range as long as the ids number fewer than 2^63 - 100.
pub serve_list_answers :
    (offset : ℕ) (limit : ℤ) (include_inactive : Bool) (r : Repository)
    → length (sorted_ids include_inactive r) + 100 < int64_limit
    → let ids = sorted_ids include_inactive r in
      (n : ℕ) × (p : ProductPage) × (serve_list (pos offset) limit include_inactive r ≡ ok p)
      × (p.items ≡ map (shown include_inactive r) (take n (drop offset ids)))
      × (0 < n)
      × (n ≤ 100)
      × (p.total ≡ length ids)
      × IsSorted ltb ids
      × Perm ids (visible_ids include_inactive r.products)
unfolding sorted_ids
serve_list_answers offset limit include_inactive r small =
    let n = pos_part (page_limit limit) in
    let (same, positive, bounded) = page_limit_range limit in
    let ids = sorted_ids include_inactive r in
    let shown_page : ProductPage = record {
      items = map (shown include_inactive r) (take n (drop offset ids));
      total = length ids;
      offset = if ltb (length ids) offset then pos (length ids) else pos offset;
      limit = pos n;
    } in
    (
      n,
      shown_page,
      serve_list_lem offset limit include_inactive r shown_page (
          ap (λ l. list_products (pos offset) l include_inactive r) same
          ∙ list_products_lem offset n include_inactive r positive (omega arith)),
      refl,
      positive,
      bounded,
      refl,
      sort_by-IsSorted ltb ltb_asym ltb_trans (visible_ids include_inactive r.products),
      sort_by-perm ltb (visible_ids include_inactive r.products),
    )
