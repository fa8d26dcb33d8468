-- ===== src/Messaging/Delays.antt =====
-- shared/platform/messaging/types.go: RetryDelay. A duration is an int64 of nanoseconds, and its
-- doubling wraps around. An attempt that is negative is like the attempt 0.
use native.Mathlib.Nat.{pow-suc}
use seckill_mall.Base.{
  ℕ, zero, suc, ◌*◌, ◌-◌, ◌^◌, ◌<◌, ◌≤◌, ◌≡◌, ◌∙◌, ap, sym, ltb, if◌then◌else◌, arith, ℤ, pos,
  negsuc, leb_ℤ, ltb_ℤ, mul64, mul64_exact, int64_limit, pos_part,
}

abbrev pub second : ℕ
second = 1000000000

abbrev pub five_minutes : ℕ
five_minutes = 300 * second

-- `for i := 1; i < attempt; i++ { delay *= 2 }`, over the number of rounds.
unfoldable pub doubled : ℕ → ℤ → ℤ
doubled zero delay = delay
doubled (suc rounds) delay = doubled rounds (mul64 delay (pos 2))

abbrev pub min : ℕ → ℕ → ℕ
min a b = if ltb a b then a else b

abbrev clamp : ℕ → ℕ
clamp attempt = if ltb attempt 1 then 1 else if ltb 6 attempt then 6 else attempt

-- RetryDelay
unfoldable pub retry_delay : ℕ → ℤ → ℤ
unfolding doubled
retry_delay attempt base =
    let start : ℤ = if leb_ℤ base (pos 0) then pos second else base in
    let delay = doubled (clamp attempt - 1) start in
    if ltb_ℤ (pos five_minutes) delay then pos five_minutes else delay

-- One doubling, and those that follow it.
regrouped : (p d : ℕ) → p * (d * 2) ≡ p * 2 * d
regrouped p d = grind arith

twice : (rounds d : ℕ) → 2 ^ rounds * (d * 2) ≡ 2 ^ suc rounds * d
twice rounds d = regrouped (2 ^ rounds) d ∙ ap (λ p. p * d) (sym (pow-suc 2 rounds))

power_positive : (n : ℕ) → 0 < 2 ^ n
power_positive zero = omega arith
power_positive (suc n) = grind (arith, pow-suc 2 n, power_positive n)

below_multiple : (p d : ℕ) → 0 < p → d ≤ p * d
below_multiple zero d h = absurd (omega arith)
below_multiple (suc p) d h = grind arith

-- Without a wrap-around, the loop multiplies by a power of two.
doubled_exact :
    (rounds delay : ℕ)
    → 2 ^ rounds * delay < int64_limit
    → doubled rounds (pos delay) ≡ pos (2 ^ rounds * delay)
unfolding doubled
doubled_exact zero delay h = ap pos (omega arith)
doubled_exact (suc rounds) delay h =
    let same = twice rounds delay in
    let fits = below_multiple (2 ^ rounds) (delay * 2) (power_positive rounds) in
    ap (doubled rounds) (mul64_exact delay 2 (omega arith))
    ∙ (doubled_exact rounds (delay * 2) (omega arith) ∙ ap pos same)

few_rounds : (attempt : ℕ) → clamp attempt - 1 ≡ min 5 (attempt - 1)
few_rounds attempt = ground arith

power_bounded : (n : ℕ) → n ≤ 5 → 2 ^ n ≤ 32
power_bounded zero h = omega arith
power_bounded (suc zero) h = omega arith
power_bounded (suc (suc zero)) h = omega arith
power_bounded (suc (suc (suc zero))) h = omega arith
power_bounded (suc (suc (suc (suc zero)))) h = omega arith
power_bounded (suc (suc (suc (suc (suc zero))))) h = omega arith
power_bounded (suc (suc (suc (suc (suc (suc n)))))) h = absurd (omega arith)

below_product : (p q d : ℕ) → p ≤ q → p * d ≤ q * d
below_product p q d h = grind arith

few_doublings :
    (attempt d : ℕ)
    → 32 * d < int64_limit
    → doubled (clamp attempt - 1) (pos d) ≡ pos (2 ^ min 5 (attempt - 1) * d)
few_doublings attempt d h =
    let rounds = clamp attempt - 1 in
    let bounded = power_bounded rounds (ground arith) in
    let grown = below_product (2 ^ rounds) 32 d bounded in
    doubled_exact rounds d (omega arith) ∙ ap (λ n. pos (2 ^ n * d)) (few_rounds attempt)

-- The duration from which the loop starts.
abbrev start_of : ℤ → ℕ
start_of base = if leb_ℤ base (pos 0) then second else pos_part base

started : (base : ℤ) → (if leb_ℤ base (pos 0) then pos second else base) ≡ pos (start_of base)
started (pos d) = ground arith
started (negsuc d) = ground arith

start_small : (base : ℤ) → 32 * pos_part base < int64_limit → 32 * start_of base < int64_limit
start_small base h = ground arith

abbrev capped : ℤ → ℤ
capped delay = if ltb_ℤ (pos five_minutes) delay then pos five_minutes else delay

capped_pos : (n : ℕ) → capped (pos n) ≡ pos (min five_minutes n)
capped_pos n = ground arith

-- RetryDelay of a base that five doublings do not bring over the int64 of a duration: the loop and the
-- two clamps are the power of two 2 ^ min(5, attempt - 1), times the base or one second where the base
-- is not positive, and never more than five minutes.
pub retry_delay_closed :
    (attempt : ℕ) (base : ℤ)
    → 32 * pos_part base < int64_limit
    → retry_delay attempt base
      ≡ pos (
          min five_minutes
            (2 ^ min 5 (attempt - 1) * (if leb_ℤ base (pos 0) then second else pos_part base)))
unfolding retry_delay
retry_delay_closed attempt base h =
    ap (λ b. capped (doubled (clamp attempt - 1) b)) (started base)
    ∙ (ap capped (few_doublings attempt (start_of base) (start_small base h))
        ∙ capped_pos (2 ^ min 5 (attempt - 1) * start_of base))
