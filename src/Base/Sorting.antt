-- ===== src/Base/Sorting.antt =====
-- Go's sort.Slice. Elements that the order does not tell apart keep their order here, where
-- sort.Slice may give another one.
use Prim.Native.Nat.{suc}
use mathlib.Core.Path.{◌≡◌, refl, ap, ◌∙◌}
use mathlib.Core.Logic.{inl, inr}
use mathlib.Core.Bool.{Bool, true, false}
use mathlib.Core.List.{List, [], ◌∷◌, Perm}
use mathlib.Core.List.Perm
use seckill_mall.Base.Tests.{if◌then◌else◌, Bool-cases}
use seckill_mall.Base.Slices.{length, All}

module _ {ℓ} {A : Type ℓ} (less : A → A → Bool) where
  abbrev pub insert_by : A → List A → List A
  insert_by x [] = x ∷ []
  insert_by x (y ∷ ys) = let rest = insert_by x ys in if less y x then y ∷ rest else x ∷ y ∷ ys

  unfoldable pub sort_by : List A → List A
  sort_by [] = []
  sort_by (x ∷ xs) = insert_by x (sort_by xs)

  -- No element is less than one that stands before it.
  abbrev pub IsSorted : List A → Type 0
  IsSorted [] = Unit {0}
  IsSorted (x ∷ xs) = All (λ y. less y x ≡ false) xs × IsSorted xs

  insert_by-perm : (x : A) (xs : List A) → Perm (insert_by x xs) (x ∷ xs)
  insert_by-perm x [] = Perm.rfl
  insert_by-perm x (y ∷ ys) = elim (Bool-cases (less y x)) [
    | inl later ↦ rw later (Perm.trans (Perm.cons y (insert_by-perm x ys)) (Perm.swap x y ys))
    | inr here ↦ rw here Perm.rfl
  ]

  pub sort_by-perm : (xs : List A) → Perm (sort_by xs) xs
  unfolding sort_by
  sort_by-perm [] = Perm.rfl
  sort_by-perm (x ∷ xs) = Perm.trans (insert_by-perm x (sort_by xs)) (Perm.cons x (sort_by-perm xs))

  All-insert_by : (P : A → Type 0) (x : A) (xs : List A) → P x → All P xs → All P (insert_by x xs)
  All-insert_by P x [] p all = (p, tt)
  All-insert_by P x (y ∷ ys) p all = elim (Bool-cases (less y x)) [
    | inl later ↦ rw later (all.0, All-insert_by P x ys p all.1)
    | inr here ↦ rw here (p, all)
  ]

  pub All-sort_by : (P : A → Type 0) (xs : List A) → All P xs → All P (sort_by xs)
  unfolding sort_by
  All-sort_by P [] all = tt
  All-sort_by P (x ∷ xs) all = All-insert_by P x (sort_by xs) all.0 (All-sort_by P xs all.1)

  length-insert_by : (x : A) (xs : List A) → length (insert_by x xs) ≡ suc (length xs)
  length-insert_by x [] = refl
  length-insert_by x (y ∷ ys) = elim (Bool-cases (less y x)) [
    | inl later ↦ rw later (ap suc (length-insert_by x ys))
    | inr here ↦ rw here refl
  ]

  pub length-sort_by : (xs : List A) → length (sort_by xs) ≡ length xs
  unfolding sort_by
  length-sort_by [] = refl
  length-sort_by (x ∷ xs) = length-insert_by x (sort_by xs) ∙ ap suc (length-sort_by xs)

  All-of_insert : (P : A → Type 0) (x : A) (xs : List A) → All P (insert_by x xs) → P x × All P xs
  All-of_insert P x [] = λ all. (all.0, tt)
  All-of_insert P x (y ∷ ys) = elim (Bool-cases (less y x)) [
    | inl later ↦
        rw later (λ all. let rest = All-of_insert P x ys all.1 in (rest.0, (all.0, rest.1)))
    | inr here ↦ rw here (λ all. (all.0, all.1))
  ]

  -- What holds of the sorted elements holds of the elements.
  pub All-of_sort : (P : A → Type 0) (xs : List A) → All P (sort_by xs) → All P xs
  unfolding sort_by
  All-of_sort P [] all = tt
  All-of_sort P (x ∷ xs) all =
      let parts = All-of_insert P x (sort_by xs) all in (parts.0, All-of_sort P xs parts.1)

  module _ (asym : (x y : A) → less y x ≡ true → less x y ≡ false)
      (trans : (x y z : A) → less y x ≡ false → less z y ≡ false → less z x ≡ false) where
    below :
        (x y : A) (ys : List A)
        → less y x ≡ false
        → All (λ z. less z y ≡ false) ys
        → All (λ z. less z x ≡ false) ys
    below x y [] h all = tt
    below x y (z ∷ zs) h all = (trans x y z h all.0, below x y zs h all.1)

    insert_by-IsSorted : (x : A) (xs : List A) → IsSorted xs → IsSorted (insert_by x xs)
    insert_by-IsSorted x [] s = (tt, tt)
    insert_by-IsSorted x (y ∷ ys) s = elim (Bool-cases (less y x)) [
      | inl later ↦ rw later (
        All-insert_by (λ z. less z y ≡ false) x ys (asym x y later) s.0,
        insert_by-IsSorted x ys s.1,
      )
      | inr here ↦ rw here ((here, below x y ys here s.0), s)
    ]

    pub sort_by-IsSorted : (xs : List A) → IsSorted (sort_by xs)
    unfolding sort_by
    sort_by-IsSorted [] = tt
    sort_by-IsSorted (x ∷ xs) = insert_by-IsSorted x (sort_by xs) (sort_by-IsSorted xs)
