-- ===== src/Base/Maps.antt =====
-- Go maps keyed by strings, as association lists.
use Prim.Native.Nat.{ℕ, ◌+◌}
use Prim.Native.String.{String}
use mathlib.Core.Path.{◌≡◌, refl}
use mathlib.Core.Logic.{inl, inr}
use mathlib.Core.Option.{Option, none, some}
use mathlib.Core.List.{List, [], ◌∷◌}
use native.Mathlib.Omega.{arith}
use text.Mathlib.TextEquality.{eq_iff}
use seckill_mall.Base.Tests.{str_eq, if◌then◌else◌, Bool-cases}

-- The order of the list stands for the order in which `range` visits the keys.
abbrev pub Table {ℓ} : Type ℓ → Type ℓ
Table V = List (String × V)

module _ {ℓ} {V : Type ℓ} where
  unfoldable pub lookup : String → Table V → Option V
  lookup key [] = none
  lookup key ((first, value) ∷ rest) = if str_eq first key then some value else lookup key rest

  unfoldable pub insert : String → V → Table V → Table V
  insert key value [] = (key, value) ∷ []
  insert key value ((first, old) ∷ rest) =
      if str_eq first key then (key, value) ∷ rest else (first, old) ∷ insert key value rest

  unfoldable pub erase : String → Table V → Table V
  erase key [] = []
  erase key ((first, old) ∷ rest) =
      if str_eq first key then erase key rest else (first, old) ∷ erase key rest

  pub lookup-insert :
      (key j : String) (value : V) (table : Table V)
      → lookup j (insert key value table) ≡ (if str_eq key j then some value else lookup j table)
  unfolding lookup insert
  lookup-insert key j value [] = refl
  lookup-insert key j value ((first, old) ∷ rest) =
      ground (arith, lookup-insert key j value rest, eq_iff first key, eq_iff first j, eq_iff key j)

  pub lookup-erase :
      (key j : String) (table : Table V)
      → lookup j (erase key table) ≡ (if str_eq key j then none else lookup j table)
  unfolding lookup erase
  lookup-erase key j [] = ground arith
  lookup-erase key j ((first, old) ∷ rest) =
      ground (arith, lookup-erase key j rest, eq_iff first key, eq_iff first j, eq_iff key j)

  -- The sum of a quantity over the entries.
  unfoldable pub sum_by : (V → ℕ) → Table V → ℕ
  sum_by f [] = 0
  sum_by f ((_, v) ∷ m) = f v + sum_by f m

  pub sum_by-insert_new :
      (f : V → ℕ) (k : String) (v : V) (m : Table V)
      → lookup k m ≡ none
      → sum_by f (insert k v m) ≡ sum_by f m + f v
  unfolding lookup insert sum_by
  sum_by-insert_new f k v [] h = omega arith
  sum_by-insert_new f k v ((i, w) ∷ m) h = ground (arith, sum_by-insert_new f k v m)

  pub sum_by-insert_old :
      (f : V → ℕ) (k : String) (v old : V) (m : Table V)
      → lookup k m ≡ some old
      → sum_by f (insert k v m) + f old ≡ sum_by f m + f v
  unfolding lookup insert sum_by
  sum_by-insert_old f k v old [] h = cc
  sum_by-insert_old f k v old ((i, w) ∷ m) h = ground (arith, sum_by-insert_old f k v old m)

  -- What holds of every entry.
  abbrev pub EachEntry : (String → V → Type 0) → Table V → Type 0
  EachEntry P [] = Unit {0}
  EachEntry P ((key, value) ∷ rest) = P key value × EachEntry P rest

  pub EachEntry-insert :
      (P : String → V → Type 0) (key : String) (value : V) (table : Table V)
      → P key value
      → EachEntry P table
      → EachEntry P (insert key value table)
  unfolding insert
  EachEntry-insert P key value [] p all = (p, tt)
  EachEntry-insert P key value ((first, old) ∷ rest) p all = elim (Bool-cases (str_eq first key)) [
    | inl same ↦ rw same (p, all.1)
    | inr other ↦ rw other (all.0, EachEntry-insert P key value rest p all.1)
  ]

  pub EachEntry-erase :
      (P : String → V → Type 0) (key : String) (table : Table V)
      → EachEntry P table
      → EachEntry P (erase key table)
  unfolding erase
  EachEntry-erase P key [] all = tt
  EachEntry-erase P key ((first, old) ∷ rest) all = elim (Bool-cases (str_eq first key)) [
    | inl same ↦ rw same (EachEntry-erase P key rest all.1)
    | inr other ↦ rw other (all.0, EachEntry-erase P key rest all.1)
  ]
