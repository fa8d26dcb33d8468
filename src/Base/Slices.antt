-- ===== src/Base/Slices.antt =====
-- The slices of Go: their lengths, their parts, and the slice of a page, which panics out of range.
use Prim.Native.Nat.{ℕ, zero, suc, ◌+◌, ◌-◌, ◌<◌, ◌≤◌}
use mathlib.Core.Path.{◌≡◌, refl, sym, ap, ◌∙◌}
use mathlib.Core.Logic.{inl, inr}
use mathlib.Core.Bool.{Bool}
use mathlib.Core.Option.{Option, none, some}
use mathlib.Core.List.{List, [], ◌∷◌, ◌++◌}
use native.Mathlib.Omega.{arith}
use seckill_mall.Base.Tests.{ltb, if◌then◌else◌, Bool-cases}
use seckill_mall.Base.Int.{ℤ, pos, negsuc, add64, int64_limit, ltb_ℤ, add64_exact}

zero-add_sym : (n : ℕ) → n ≡ zero + n
zero-add_sym n = omega arith

suc-add_sym : (m n : ℕ) → suc (m + n) ≡ suc m + n
suc-add_sym m n = omega arith

module _ {ℓ} {A : Type ℓ} where
  abbrev pub length : List A → ℕ
  length [] = 0
  length (x ∷ xs) = suc (length xs)

  unfoldable pub take : ℕ → List A → List A
  take zero xs = []
  take (suc n) [] = []
  take (suc n) (x ∷ xs) = x ∷ take n xs

  unfoldable pub drop : ℕ → List A → List A
  drop zero xs = xs
  drop (suc n) [] = []
  drop (suc n) (x ∷ xs) = drop n xs

  unfoldable pub filter : (A → Bool) → List A → List A
  filter keep [] = []
  filter keep (x ∷ xs) = if keep x then x ∷ filter keep xs else filter keep xs

  -- What holds of each element.
  abbrev pub All {κ} : (A → Type κ) → List A → Type κ
  All P [] = Unit
  All P (x ∷ xs) = P x × All P xs

  drop_nil : (n : ℕ) → drop n [] ≡ []
  unfolding drop
  drop_nil zero = refl
  drop_nil (suc n) = refl

  take_nil : (n : ℕ) → take n [] ≡ []
  unfolding take
  take_nil zero = refl
  take_nil (suc n) = refl

  take_eq : (m n : ℕ) (xs : List A) → m ≡ n → take m xs ≡ take n xs
  take_eq m n xs e = ap (λ k. take k xs) e

  pub take-drop : (m n : ℕ) (xs : List A) → take m xs ++ take n (drop m xs) ≡ take (m + n) xs
  unfolding take drop
  take-drop zero n xs = take_eq n (zero + n) xs (omega arith)
  take-drop (suc m) zero [] = sym (take_nil (suc m + zero))
  take-drop (suc m) (suc n) [] = sym (take_nil (suc m + suc n))
  take-drop (suc m) n (x ∷ xs) =
      ap (◌∷◌ x) (take-drop m n xs) ∙ take_eq (suc (m + n)) (suc m + n) (x ∷ xs) (omega arith)

  pub All-take : (P : A → Type 0) (n : ℕ) (xs : List A) → All P xs → All P (take n xs)
  unfolding take
  All-take P zero xs all = tt
  All-take P (suc n) [] all = tt
  All-take P (suc n) (x ∷ xs) all = (all.0, All-take P n xs all.1)

  pub drop-drop : (m n : ℕ) (xs : List A) → drop n (drop m xs) ≡ drop (m + n) xs
  unfolding drop
  drop-drop zero n xs = ap (λ k. drop k xs) (zero-add_sym n)
  drop-drop (suc m) n [] = drop_nil n ∙ sym (drop_nil (suc m + n))
  drop-drop (suc m) n (x ∷ xs) = drop-drop m n xs ∙ ap (λ k. drop k (x ∷ xs)) (suc-add_sym m n)

  pub take-all : (n : ℕ) (xs : List A) → length xs ≤ n → take n xs ≡ xs
  unfolding take
  take-all zero [] h = refl
  take-all zero (x ∷ xs) h = absurd (omega arith)
  take-all (suc n) [] h = refl
  take-all (suc n) (x ∷ xs) h = ap (◌∷◌ x) (take-all n xs (omega arith))

  pub drop-all : (n : ℕ) (xs : List A) → length xs ≤ n → drop n xs ≡ []
  unfolding drop
  drop-all zero [] h = refl
  drop-all zero (x ∷ xs) h = absurd (omega arith)
  drop-all (suc n) [] h = refl
  drop-all (suc n) (x ∷ xs) h = drop-all n xs (omega arith)

  pub length-drop : (n : ℕ) (xs : List A) → length (drop n xs) ≡ length xs - n
  unfolding drop
  length-drop zero xs = omega arith
  length-drop (suc n) [] = omega arith
  length-drop (suc n) (x ∷ xs) = omega (arith, length-drop n xs)

  -- A slice xs[lo:hi]; `none` is the panic of bounds that are out of range.
  unfoldable pub slice : ℕ → ℤ → List A → Option (List A)
  slice lo (negsuc _) xs = none
  slice lo (pos hi) xs =
      if ltb hi lo
      then none
      else if ltb (length xs) hi
      then none
      else some (take (hi - lo) (drop lo xs))

  -- The page of a list: the offset and the end are cut down to the length of the list.
  unfoldable pub page : ℕ → ℤ → List A → Option (List A)
  unfolding slice
  page offset limit xs =
      let start = if ltb (length xs) offset then length xs else offset in
      let end = add64 (pos start) limit in
      slice start (if ltb_ℤ (pos (length xs)) end then pos (length xs) else end) xs

module _ {A : Type 0} where
  slice_lem :
      (lo hi : ℕ) (xs : List A)
      → lo ≤ hi
      → hi ≤ length xs
      → slice lo (pos hi) xs ≡ some (take (hi - lo) (drop lo xs))
  unfolding slice
  slice_lem lo hi xs h k = ground arith

  -- Two counts that reach beyond the end.
  take_beyond :
      (m n lo : ℕ) (xs : List A)
      → length xs - lo ≤ m
      → length xs - lo ≤ n
      → take m (drop lo xs) ≡ take n (drop lo xs)
  take_beyond m n lo xs h k =
      take-all m (drop lo xs) (omega (arith, length-drop lo xs))
      ∙ sym (take-all n (drop lo xs) (omega (arith, length-drop lo xs)))

  page_inside :
      (offset limit : ℕ) (xs : List A)
      → offset ≤ length xs
      → length xs + limit < int64_limit
      → page offset (pos limit) xs ≡ some (take limit (drop offset xs))
  unfolding page
  page_inside offset limit xs inside h = elim (Bool-cases (ltb (length xs) (offset + limit))) [
    | inl cut ↦
        let e : page offset (pos limit) xs ≡ slice offset (pos (length xs)) xs =
          ground (arith, add64_exact offset limit) in
        e
        ∙ (slice_lem offset (length xs) xs inside (omega arith)
            ∙ ap some
                (take_beyond (length xs - offset) limit offset xs (omega arith) (ground arith)))
    | inr whole ↦
        let e : page offset (pos limit) xs ≡ slice offset (pos (offset + limit)) xs =
          ground (arith, add64_exact offset limit) in
        e
        ∙ (slice_lem offset (offset + limit) xs (omega arith) (ground arith)
            ∙ ap some (take_eq (offset + limit - offset) limit (drop offset xs) (omega arith)))
  ]

  page_outside :
      (offset limit : ℕ) (xs : List A)
      → length xs < offset
      → page offset (pos limit) xs ≡ page (length xs) (pos limit) xs
  unfolding page
  page_outside offset limit xs h =
      ap
        (λ start.
          slice start
            (if ltb_ℤ (pos (length xs)) (add64 (pos start) (pos limit))
              then pos (length xs)
              else add64 (pos start) (pos limit))
            xs)
        (ground arith)

  -- A page whose end does not overflow is in range.
  pub page_lem :
      (offset limit : ℕ) (xs : List A)
      → length xs + limit < int64_limit
      → page offset (pos limit) xs ≡ some (take limit (drop offset xs))
  page_lem offset limit xs h = elim (Bool-cases (ltb (length xs) offset)) [
    | inr inside ↦ page_inside offset limit xs (ground arith) h
    | inl outside ↦
        page_outside offset limit xs (ground arith)
        ∙ (page_inside (length xs) limit xs (omega arith) h
            ∙ ap (λ ys. some (take limit ys))
                (drop-all (length xs) xs (omega arith) ∙ sym (drop-all offset xs (ground arith))))
  ]

-- An insertion sort by Go's `less`.
