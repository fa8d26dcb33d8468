-- ===== src/Base/Int.antt =====
-- Go's signed integers: the integers over the native numbers, and the wrap-around of int32 and int64.
use Prim.Native.Nat.{ℕ, suc, ◌+◌, ◌-◌, ◌*◌, ◌/◌, ◌%◌, ◌≤◌, ◌<◌}
use mathlib.Core.Path.{◌≡◌}
use mathlib.Core.Bool.{Bool}
use native.Mathlib.Omega.{arith}
use native.Mathlib.Nat.{le-div_iff_mul-le}
use seckill_mall.Base.Tests.{ltb, leb, if◌then◌else◌, ◌==◌}

-- `negsuc n` is -(n + 1).
pub data ℤ : Type 0 where
  pos : ℕ → ℤ
  negsuc : ℕ → ℤ

abbrev pub pos_part : ℤ → ℕ
pos_part (pos n) = n
pos_part (negsuc n) = 0

abbrev pub neg_part : ℤ → ℕ
neg_part (pos n) = 0
neg_part (negsuc n) = suc n

abbrev pub sub_ℕ : ℕ → ℕ → ℤ
sub_ℕ a b = if leb b a then pos (a - b) else negsuc (b - a - 1)

infixl 65 ◌+ℤ◌ ◌-ℤ◌
infixl 70 ◌*ℤ◌
abbrev pub ◌+ℤ◌ : ℤ → ℤ → ℤ
a +ℤ b = sub_ℕ (pos_part a + pos_part b) (neg_part a + neg_part b)

abbrev pub ◌-ℤ◌ : ℤ → ℤ → ℤ
a -ℤ b = sub_ℕ (pos_part a + neg_part b) (neg_part a + pos_part b)

abbrev pub ◌*ℤ◌ : ℤ → ℤ → ℤ
a *ℤ b =
    sub_ℕ (pos_part a * pos_part b + neg_part a * neg_part b)
      (pos_part a * neg_part b + neg_part a * pos_part b)

abbrev pub ltb_ℤ : ℤ → ℤ → Bool
ltb_ℤ a b = ltb (pos_part a + neg_part b) (pos_part b + neg_part a)

abbrev pub leb_ℤ : ℤ → ℤ → Bool
leb_ℤ a b = leb (pos_part a + neg_part b) (pos_part b + neg_part a)

abbrev pub eqb_ℤ : ℤ → ℤ → Bool
eqb_ℤ a b = (pos_part a + neg_part b) == (pos_part b + neg_part a)

-- The value of the low bits of an integer, read as a signed word of modulus `m`.
abbrev signed : ℕ → ℕ → ℤ
signed m n = if ltb n (m / 2) then pos n else negsuc (m - 1 - n)

wrap : ℕ → ℤ → ℤ
wrap m (pos n) = signed m (n % m)
wrap m (negsuc n) = signed m (m - 1 - n % m)

abbrev pub int32_mod : ℕ
int32_mod = 4294967296

abbrev pub int64_mod : ℕ
int64_mod = 18446744073709551616

-- The least numbers above the greatest int32 and the greatest int64.
abbrev pub int32_limit : ℕ
int32_limit = 2147483648

abbrev pub int64_limit : ℕ
int64_limit = 9223372036854775808

-- int32 `a + b` and `a - b`.
unfoldable pub add32 : ℤ → ℤ → ℤ
unfolding wrap
add32 a b = wrap int32_mod (a +ℤ b)

unfoldable pub sub32 : ℤ → ℤ → ℤ
unfolding wrap
sub32 a b = wrap int32_mod (a -ℤ b)

-- int64 `a + b` and `a * b`.
unfoldable pub add64 : ℤ → ℤ → ℤ
unfolding wrap
add64 a b = wrap int64_mod (a +ℤ b)

unfoldable pub mul64 : ℤ → ℤ → ℤ
unfolding wrap
mul64 a b = wrap int64_mod (a *ℤ b)

pub add32_exact :
    (a b : ℤ)
    → neg_part a ≡ 0
    → neg_part b ≡ 0
    → pos_part a + pos_part b < int32_limit
    → add32 a b ≡ pos (pos_part a + pos_part b)
unfolding add32
add32_exact (pos a) (pos b) ha hb h = ground arith
add32_exact (pos a) (negsuc b) ha hb h = absurd (omega arith)
add32_exact (negsuc a) b ha hb h = absurd (omega arith)

pub sub32_exact :
    (a b : ℤ)
    → neg_part a ≡ 0
    → neg_part b ≡ 0
    → pos_part b ≤ pos_part a
    → pos_part a < int32_limit
    → sub32 a b ≡ pos (pos_part a - pos_part b)
unfolding sub32
sub32_exact (pos a) (pos b) ha hb le h = ground arith
sub32_exact (pos a) (negsuc b) ha hb le h = absurd (omega arith)
sub32_exact (negsuc a) b ha hb le h = absurd (omega arith)

pub sub32_below :
    (a b : ℤ)
    → neg_part a ≡ 0
    → neg_part b ≡ 0
    → pos_part a < pos_part b
    → pos_part b < int32_limit
    → sub32 a b ≡ negsuc (pos_part b - pos_part a - 1)
unfolding sub32
sub32_below (pos a) (pos b) ha hb le h = ground arith
sub32_below (pos a) (negsuc b) ha hb le h = absurd (omega arith)
sub32_below (negsuc a) b ha hb le h = absurd (omega arith)

pub add64_exact : (a b : ℕ) → a + b < int64_limit → add64 (pos a) (pos b) ≡ pos (a + b)
unfolding add64
add64_exact a b h = ground arith

pub mul64_exact : (p q : ℕ) → p * q < int64_limit → mul64 (pos p) (pos q) ≡ pos (p * q)
unfolding mul64
mul64_exact p q h = ground arith

-- A product whose factor passed the test against a quotient.
pub product_bound : (p q n : ℕ) → 0 < q → p ≤ n / q → p * q ≤ n
product_bound p q n positive h = (le-div_iff_mul-le positive).0 h
