-- ===== src/Base/Parsing.antt =====
-- strconv's printing and reading of whole numbers in base 10.
use Prim.Native.Nat.{ℕ, zero, suc, ◌/◌, ◌%◌, ◌<◌}
use Prim.Native.Char.{Char, code}
use Prim.Native.String.{String, ◌++◌}
use mathlib.Core.Path.{◌≡◌, refl, sym, ap, ◌∙◌, subst}
use mathlib.Core.Bool.{Bool, true, false, ◌&&◌}
use native.Mathlib.Omega.{arith}
use text.Mathlib.TextLemmas.{cons-append, nil-append, append-nil}
use mathlib.Core.Logic.{◌≢◌, inl, inr}
use mathlib.Core.Option.{Option, none, some}
use mathlib.Core.Option
use seckill_mall.Base.Int.{ℤ, pos, negsuc}
use text.Mathlib.TextEquality.{eq_iff}
use seckill_mall.Base.Text.{all_chars, all_chars_mono, is_plain, trim_space, trim_space-plain}
use seckill_mall.Base.Tests.{ltb, ◌==◌, str_eq, str_eq-false, if◌then◌else◌, Bool-cases}
use seckill_mall.Base.Decimal.{
  code-digit, digit, is_digit, read_from, read_from-show_rounds, show_rounds, show_uint, single,
}

-- strconv.FormatInt in base 10, and "%d" on signed numbers
abbrev pub show_int : ℤ → String
show_int (pos n) = show_uint n
show_int (negsuc n) = "-" ++ show_uint (suc n)

accept : ℕ → Bool → ℕ × String → Option ℕ
accept limit empty (n, rest) =
    if empty then none else if str_eq rest "" && ltb n limit then some n else none

-- The number that a text of digits is, below a limit.
unfoldable pub parse_below : ℕ → String → Option ℕ
unfolding read_from accept
parse_below limit s = accept limit (str_eq s "") (read_from 0 s)

-- strconv.ParseUint in base 10 with 64 bits
abbrev pub parse_uint : String → Option ℕ
parse_uint s = parse_below 18446744073709551616 s

parse_negative : Option ℕ → Option ℤ
parse_negative none = none
parse_negative (some zero) = some (pos 0)
parse_negative (some (suc n)) = some (negsuc n)

-- strconv.ParseInt in base 10 with 64 bits
unfoldable pub parse_int : String → Option ℤ
unfolding parse_negative
parse_int String.[] = none
parse_int (String.◌∷◌ c s) =
    if code c == 45
    then parse_negative (parse_below 9223372036854775809 s)
    else if code c == 43
    then Option.map pos (parse_below 9223372036854775808 s)
    else Option.map pos (parse_below 9223372036854775808 (String.◌∷◌ c s))

all_chars-append :
    (test : ℕ → Bool) (s t : String)
    → all_chars test s ≡ true
    → all_chars test t ≡ true
    → all_chars test (s ++ t) ≡ true
unfolding all_chars
all_chars-append test String.[] t h k = rw (nil-append t) k
all_chars-append test (String.◌∷◌ c s) t h k =
    rw (cons-append c s t) (ground (arith, all_chars-append test s t))

single-digits : (d : ℕ) → d < 10 → all_chars is_digit (single (digit d)) ≡ true
unfolding single all_chars is_digit
single-digits d h = ground (arith, code-digit d h)

show_rounds-digits : (f n : ℕ) → n < suc f → all_chars is_digit (show_rounds f n) ≡ true
unfolding show_rounds
show_rounds-digits zero n h = single-digits n (omega arith)
show_rounds-digits (suc f) n h = elim (Bool-cases (ltb n 10)) [
  | inl small ↦ rw small (single-digits n (ground arith))
  | inr large ↦ rw large (
      all_chars-append is_digit (show_rounds f (n / 10)) (single (digit (n % 10)))
        (show_rounds-digits f (n / 10) (ground arith)) (single-digits (n % 10) (omega arith)))
]

append-cons :
    (s t : String) (c : Char) (r : String) → s ≡ String.◌∷◌ c r → s ++ t ≡ String.◌∷◌ c (r ++ t)
append-cons s t c r e = ap (λ x. x ++ t) e ∙ cons-append c r t

show_rounds-cons : (f n : ℕ) → (c : Char) × (s : String) × (show_rounds f n ≡ String.◌∷◌ c s)
unfolding show_rounds single
show_rounds-cons zero n = (digit n, String.[], refl)
show_rounds-cons (suc f) n = elim (Bool-cases (ltb n 10)) [
  | inl small ↦ (digit n, String.[], rw small refl)
  | inr large ↦
      let (c, s, e) = show_rounds-cons f (n / 10) in
      (
        c,
        s ++ single (digit (n % 10)),
        rw large (append-cons (show_rounds f (n / 10)) (single (digit (n % 10))) c s e),
      )
]

-- The digits of a number: at least one, and nothing else.
show_uint_digits :
    (n : ℕ)
    → (c : Char) × (s : String) × (show_uint n ≡ String.◌∷◌ c s)
      × (all_chars is_digit (String.◌∷◌ c s) ≡ true)
unfolding show_uint
show_uint_digits n =
    let (c, s, e) = show_rounds-cons n n in
    (c, s, e, subst (λ x. all_chars is_digit x ≡ true) e (show_rounds-digits n n (omega arith)))

read_from-show_uint : (n : ℕ) → read_from 0 (show_uint n) ≡ (n, "")
unfolding show_uint read_from
read_from-show_uint n =
    ap (read_from 0) (sym (append-nil (show_rounds n n)))
    ∙ read_from-show_rounds n n "" (omega arith)

accept_below : (limit n : ℕ) → n < limit → accept limit false (n, "") ≡ some n
unfolding accept
accept_below limit n h = ground (arith, eq_iff "" "")

show_uint-nonempty : (n : ℕ) → str_eq (show_uint n) "" ≡ false
show_uint-nonempty n =
    let (c, s, e, _) = show_uint_digits n in
    str_eq-false (show_uint n) "" (λ h. cons-ne-nil c s (sym e ∙ h))
  where
    cons-ne-nil : (c : Char) (s : String) → String.◌∷◌ c s ≢ String.[]
    cons-ne-nil c s h = cc

pub parse_below-show_uint : (limit n : ℕ) → n < limit → parse_below limit (show_uint n) ≡ some n
unfolding parse_below
parse_below-show_uint limit n h =
    ap (accept limit (str_eq (show_uint n) "")) (read_from-show_uint n)
    ∙ (ap (λ b. accept limit b (n, "")) (show_uint-nonempty n) ∙ accept_below limit n h)

digit-plain : (c : ℕ) → is_digit c ≡ true → is_plain c ≡ true
unfolding is_digit
digit-plain c h = ground arith

pub trim_space-show_uint : (n : ℕ) → trim_space (show_uint n) ≡ show_uint n
trim_space-show_uint n =
    let (c, s, e, digits) = show_uint_digits n in
    trim_space-plain (show_uint n) (
      all_chars_mono is_digit is_plain (show_uint n) digit-plain
        (subst (λ x. all_chars is_digit x ≡ true) (sym e) digits))

pub parse_int-show_uint : (n : ℕ) → n < 9223372036854775808 → parse_int (show_uint n) ≡ some (pos n)
unfolding parse_int is_digit all_chars
parse_int-show_uint n h =
    let (c, s, e, digits) = show_uint_digits n in
    let parsed : parse_below 9223372036854775808 (String.◌∷◌ c s) ≡ some n =
      subst (λ x. parse_below 9223372036854775808 x ≡ some n) e
        (parse_below-show_uint 9223372036854775808 n h) in
    subst (λ x. parse_int x ≡ some (pos n)) (sym e) (ground (arith, parsed, digits))
