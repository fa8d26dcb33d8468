-- ===== src/Base/Decimal.antt =====
-- fmt's %d on unsigned numbers, and numbers that a separator follows.
use Prim.Native.Nat.{ℕ, zero, suc, ◌+◌, ◌-◌, ◌*◌, ◌/◌, ◌%◌, ◌<◌}
use Prim.Native.Char.{Char, code}
use Prim.Native.String.{String, ◌++◌}
use mathlib.Core.Path.{◌≡◌, refl, sym, ap, ◌∙◌}
use mathlib.Core.Bool.{Bool, ◌&&◌}
use native.Mathlib.Omega.{arith}
use text.Mathlib.TextLemmas.{append_assoc, cons-append, nil-append, append_cancel_left}
use mathlib.Core.Logic.{inl, inr}
use seckill_mall.Base.Tests.{leb, ltb, if◌then◌else◌, Bool-cases}

unfoldable pub digit : ℕ → Char
digit zero = "0"
digit (suc zero) = "1"
digit (suc (suc zero)) = "2"
digit (suc (suc (suc zero))) = "3"
digit (suc (suc (suc (suc zero)))) = "4"
digit (suc (suc (suc (suc (suc zero))))) = "5"
digit (suc (suc (suc (suc (suc (suc zero)))))) = "6"
digit (suc (suc (suc (suc (suc (suc (suc zero))))))) = "7"
digit (suc (suc (suc (suc (suc (suc (suc (suc zero)))))))) = "8"
digit _ = "9"

unfoldable pub single : Char → String
single c = String.◌∷◌ c String.[]

-- The digits of `n`, the most significant first; `n` rounds are enough.
unfoldable pub show_rounds : ℕ → ℕ → String
unfolding digit single
show_rounds zero n = single (digit n)
show_rounds (suc f) n =
    let rest = show_rounds f (n / 10) in
    if ltb n 10 then single (digit n) else rest ++ single (digit (n % 10))

-- "%d"
unfoldable pub show_uint : ℕ → String
unfolding show_rounds
show_uint n = show_rounds n n

unfoldable pub is_digit : ℕ → Bool
is_digit c = leb 48 c && leb c 57

-- A reader of digits: the number before the first other character, and the rest.
unfoldable pub read_from : ℕ → String → ℕ × String
unfolding is_digit
read_from acc String.[] = (acc, String.[])
read_from acc (String.◌∷◌ c s) =
    let rest = read_from (acc * 10 + (code c - 48)) s in
    if is_digit (code c) then rest else (acc, String.◌∷◌ c s)

pub code-digit : (d : ℕ) → d < 10 → code (digit d) ≡ 48 + d
unfolding digit
code-digit zero h = refl
code-digit (suc zero) h = refl
code-digit (suc (suc zero)) h = refl
code-digit (suc (suc (suc zero))) h = refl
code-digit (suc (suc (suc (suc zero)))) h = refl
code-digit (suc (suc (suc (suc (suc zero))))) h = refl
code-digit (suc (suc (suc (suc (suc (suc zero)))))) h = refl
code-digit (suc (suc (suc (suc (suc (suc (suc zero))))))) h = refl
code-digit (suc (suc (suc (suc (suc (suc (suc (suc zero)))))))) h = refl
code-digit (suc (suc (suc (suc (suc (suc (suc (suc (suc zero))))))))) h = refl
code-digit (suc (suc (suc (suc (suc (suc (suc (suc (suc (suc n)))))))))) h = absurd (omega arith)

read_from-digit :
    (acc d n : ℕ) (s : String)
    → d < 10
    → acc * 10 + d ≡ n
    → read_from acc (String.◌∷◌ (digit d) s) ≡ read_from n s
unfolding read_from
read_from-digit acc d n s h e = ground (arith, code-digit d h)

single-append : (c : Char) (s : String) → single c ++ s ≡ String.◌∷◌ c s
unfolding single
single-append c s = simp (cons-append, nil-append)

pub read_from-show_rounds :
    (f n : ℕ) (s : String) → n < suc f → read_from 0 (show_rounds f n ++ s) ≡ read_from n s
unfolding show_rounds
read_from-show_rounds zero n s h =
    rw (single-append (digit n) s) (read_from-digit 0 n n s (omega arith) (omega arith))
read_from-show_rounds (suc f) n s h = elim (Bool-cases (ltb n 10)) [
  | inl small ↦
      rw (small, single-append (digit n) s) (read_from-digit 0 n n s (ground arith) (omega arith))
  | inr large ↦
      rw (large, append_assoc, single-append)
        (read_from-show_rounds f (n / 10) (String.◌∷◌ (digit (n % 10)) s) (ground arith)
          ∙ read_from-digit (n / 10) (n % 10) n s (omega arith) (omega arith))
]

-- A colon ends the digits.
read_from-colon : (n : ℕ) (s : String) → read_from n (":" ++ s) ≡ (n, ":" ++ s)
unfolding read_from
read_from-colon n s = rw (cons-append ":" "" s) refl

-- Two printed numbers before a colon are equal only if the numbers and the rests are.
pub show_uint-colon_inj :
    (a b : ℕ) (s t : String)
    → show_uint a ++ (":" ++ s) ≡ show_uint b ++ (":" ++ t)
    → (a ≡ b) × (s ≡ t)
unfolding show_uint
show_uint-colon_inj a b s t e = (
  ap (λ (p : ℕ × String). p.0) read,
  append_cancel_left ":" s t (ap (λ (p : ℕ × String). p.1) read),
)
  where
    read : Path (ℕ × String) (a, ":" ++ s) (b, ":" ++ t)
    read =
        sym (read_from-show_rounds a a (":" ++ s) (omega arith) ∙ read_from-colon a s)
        ∙ (ap (read_from 0) e
            ∙ (read_from-show_rounds b b (":" ++ t) (omega arith) ∙ read_from-colon b t))
