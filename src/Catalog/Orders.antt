-- ===== src/Catalog/Orders.antt =====
-- services/catalog/internal/app/memory_repository.go: ListProducts under another order in which
-- `range` visits the products.
use seckill_mall.Base.{
  ℕ, ◌≡◌, refl, sym, ap, ◌∙◌, subst, Bool, ◌||◌, none, some, Option, List, [], ◌∷◌, map, ℤ, pos,
  pos_part, ltb, leb_ℤ, ltb_ℤ, Result, ok, err, ◌==◌, arith, Bool-cases, Option-cases, inl, inr,
  if◌then◌else◌,
}
use seckill_mall.Base.Slices.{page, length}
use seckill_mall.Base.Sorting.{sort_by, insert_by}
use mathlib.Core.Path.{ap₂}
use mathlib.Core.List.{Permᴰ}
use seckill_mall.Catalog.Model.{Product, ProductPage, Error, invalid_request, out_of_range}
use seckill_mall.Catalog.Repository.{
  Entries, Repository, find, visible_ids, sorted_ids, shown, list_products, clone_product,
  zero_product,
}

-- The keys of a map are distinct.
abbrev pub IsMap : {V : Type 0} → Entries V → Type 0
IsMap [] = Unit {0}
IsMap ((key, _) ∷ rest) = (find key rest ≡ none) × IsMap rest

insert_comm :
    (x y : ℕ) (s : List ℕ)
    → insert_by ltb x (insert_by ltb y s) ≡ insert_by ltb y (insert_by ltb x s)
insert_comm x y [] = ground arith
insert_comm x y (z ∷ s) = ground (arith, insert_comm x y s)

-- The sorted ids, and one entry more.
abbrev with_entry : Bool → ℕ × Product → List ℕ → List ℕ
with_entry include_inactive entry s =
    if include_inactive || entry.1.active then insert_by ltb entry.0 s else s

visible_entry :
    (include_inactive : Bool) (entry : ℕ × Product) (rest : Entries Product)
    → sort_by ltb (visible_ids include_inactive (entry ∷ rest))
      ≡ with_entry include_inactive entry (sort_by ltb (visible_ids include_inactive rest))
unfolding visible_ids sort_by
visible_entry include_inactive (key, p) rest = elim (Bool-cases (include_inactive || p.active)) [
  | inl shows ↦ rw shows refl
  | inr hides ↦ rw hides refl
]

with_entry_comm :
    (include_inactive : Bool) (a b : ℕ × Product) (s : List ℕ)
    → with_entry include_inactive a (with_entry include_inactive b s)
      ≡ with_entry include_inactive b (with_entry include_inactive a s)
with_entry_comm include_inactive a b s = ground (arith, insert_comm a.0 b.0 s)

-- In whatever order the products are visited, the sorted ids are the same.
visible_same :
    (include_inactive : Bool) {es fs : Entries Product}
    → Permᴰ es fs
    → sort_by ltb (visible_ids include_inactive es) ≡ sort_by ltb (visible_ids include_inactive fs)
visible_same include_inactive Permᴰ.nil = refl
visible_same include_inactive (Permᴰ.cons {a} {b} {l₁} {l₂} e d) =
    visible_entry include_inactive a l₁
    ∙ (ap (with_entry include_inactive a) (visible_same include_inactive d)
        ∙ (ap (λ x. with_entry include_inactive x (sort_by ltb (visible_ids include_inactive l₂))) e
            ∙ sym (visible_entry include_inactive b l₂)))
visible_same include_inactive (Permᴰ.swap {a} {b} {a'} {b'} {l} e f) =
    let s = sort_by ltb (visible_ids include_inactive l) in
    visible_entry include_inactive a (b ∷ l)
    ∙ (ap (with_entry include_inactive a) (visible_entry include_inactive b l)
        ∙ (with_entry_comm include_inactive a b s
            ∙ (ap (λ x. with_entry include_inactive x (with_entry include_inactive a s)) f
                ∙ (ap (λ x. with_entry include_inactive a' (with_entry include_inactive x s)) e
                    ∙ (ap (with_entry include_inactive a')
                          (sym (visible_entry include_inactive b' l))
                        ∙ sym (visible_entry include_inactive a' (b' ∷ l)))))))
visible_same include_inactive (Permᴰ.trans d e) =
    visible_same include_inactive d ∙ visible_same include_inactive e

module _ {V : Type 0} where
  -- Two maps that answer alike.
  abbrev Agree : Entries V → Entries V → Type 0
  Agree es fs = (id : ℕ) → find id es ≡ find id fs

  find_cons : (entry : ℕ × V) (es fs : Entries V) → Agree es fs → Agree (entry ∷ es) (entry ∷ fs)
  unfolding find
  find_cons (key, v) es fs same id = elim (Bool-cases (key == id)) [
    | inl here ↦ rw here refl
    | inr there ↦ rw there (same id)
  ]

  find_swap : (a b : ℕ × V) (l : Entries V) → IsMap (a ∷ b ∷ l) → Agree (a ∷ b ∷ l) (b ∷ a ∷ l)
  unfolding find
  find_swap (j, u) (k, v) l (apart, _) id = ground (arith, apart)

  swap-IsMap : (a b : ℕ × V) (l : Entries V) → IsMap (a ∷ b ∷ l) → IsMap (b ∷ a ∷ l)
  unfolding find
  swap-IsMap (j, u) (k, v) l (apart, (free, rest)) =
      (ground (arith, apart, free), (ground (arith, apart), rest))

  -- Another order of the entries of a map is that map.
  find_same : {es fs : Entries V} → Permᴰ es fs → IsMap es → Agree es fs × IsMap fs
  find_same Permᴰ.nil m = (λ id. refl, tt)
  find_same (Permᴰ.cons {a} {b} {l₁} {l₂} e d) m =
      let (same, other) = find_same d m.1 in
      subst (λ x. Agree (a ∷ l₁) (x ∷ l₂) × IsMap (x ∷ l₂)) e
        (find_cons a l₁ l₂ same, (sym (same a.0) ∙ m.0, other))
  find_same (Permᴰ.swap {a} {b} {a'} {b'} {l} e f) m =
      subst (λ x. Agree (a ∷ b ∷ l) (a' ∷ x ∷ l) × IsMap (a' ∷ x ∷ l)) e
        (subst (λ x. Agree (a ∷ b ∷ l) (x ∷ a ∷ l) × IsMap (x ∷ a ∷ l)) f
          (find_swap a b l m, swap-IsMap a b l m))
  find_same (Permᴰ.trans d e) m =
      let (same, middle) = find_same d m in
      let (same', last) = find_same e middle in (λ id. same id ∙ same' id, last)

-- ListProducts, of the sorted ids and of what shows them.
abbrev listed : List ℕ → (List ℕ → List Product) → ℤ → ℤ → Result Error ProductPage
listed ids show offset limit =
    let start : ℤ = if ltb (length ids) (pos_part offset) then pos (length ids) else offset in
    if ltb_ℤ offset (pos 0) || leb_ℤ limit (pos 0)
    then err invalid_request
    else elim (page (pos_part offset) limit ids) [
      | none ↦ err out_of_range
      | some chosen ↦
          ok (record { items = show chosen; total = length ids; offset = start; limit = limit })
    ]

listed_same :
    (ids : List ℕ) (f g : List ℕ → List Product) (offset limit : ℤ)
    → ((chosen : List ℕ) → f chosen ≡ g chosen)
    → listed ids f offset limit ≡ listed ids g offset limit
listed_same ids f g offset limit same =
    elim (Bool-cases (ltb_ℤ offset (pos 0) || leb_ℤ limit (pos 0))) [
      | inl bad ↦ rw bad refl
      | inr good ↦ elim (Option-cases (page (pos_part offset) limit ids)) [
        | inl out ↦ rw (good, out) refl
        | inr (chosen, inside) ↦ rw (good, inside, same chosen) refl
      ]
    ]

module _ (r s : Repository) (d : Permᴰ r.products s.products) (m : IsMap r.products) where
  shown_same :
      (include_inactive : Bool) (id : ℕ) → shown include_inactive r id ≡ shown include_inactive s id
  unfolding shown
  shown_same include_inactive id =
      ap
        (λ (x : Option Product). elim x [
          | none ↦ clone_product include_inactive zero_product
          | some p ↦ clone_product include_inactive p
        ])
        ((find_same d m).0 id)

  items_same :
      (include_inactive : Bool) (ids : List ℕ)
      → map (shown include_inactive r) ids ≡ map (shown include_inactive s) ids
  items_same include_inactive [] = refl
  items_same include_inactive (id ∷ rest) =
      ap₂ ◌∷◌ (shown_same include_inactive id) (items_same include_inactive rest)

  sorted_ids_same :
      (include_inactive : Bool) → sorted_ids include_inactive r ≡ sorted_ids include_inactive s
  unfolding sorted_ids
  sorted_ids_same include_inactive = visible_same include_inactive d

  -- A list of products is the same in whatever order `range` visits them.
  pub list_products_same :
      (offset limit : ℤ) (include_inactive : Bool)
      → list_products offset limit include_inactive r
        ≡ list_products offset limit include_inactive s
  unfolding list_products
  list_products_same offset limit include_inactive =
      ap (λ ids. listed ids (map (shown include_inactive r)) offset limit)
        (sorted_ids_same include_inactive)
      ∙ listed_same (sorted_ids include_inactive s) (map (shown include_inactive r))
          (map (shown include_inactive s)) offset limit (items_same include_inactive)
