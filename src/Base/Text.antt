-- ===== src/Base/Text.antt =====
-- Go's strings.TrimSpace and the tests on characters that the validators use.
use Prim.Native.Nat.{ℕ, ◌+◌, ◌-◌}
use Prim.Native.Char.{Char, code}
use Prim.Native.String.{String}
use mathlib.Core.Bool.{Bool, true, false, not, ◌&&◌, ◌||◌}
use mathlib.Core.Path.{◌≡◌, refl, ap, ◌∙◌}
use mathlib.Core.Logic.{inl, inr}
use native.Mathlib.Omega.{arith}
use seckill_mall.Base.Tests.{Bool-cases, ltb, leb, ◌==◌, if◌then◌else◌}

-- The code points above 0x1fff that unicode.IsSpace takes.
abbrev is_wide_space : ℕ → Bool
is_wide_space c =
    if leb c 0x200a
    then true
    else if leb c 0x2029
    then leb 0x2028 c
    else c == 0x3000 || (c == 0x205f || c == 0x202f)

-- unicode.IsSpace
abbrev is_space : ℕ → Bool
is_space c =
    if leb c 13
    then leb 9 c
    else if leb 0x2000 c
    then is_wide_space c
    else c == b' ' || (c == 0xa0 || (c == 0x85 || c == 0x1680))

unfoldable pub trim_left : String → String
trim_left String.[] = String.[]
trim_left (String.◌∷◌ c s) =
    let rest = trim_left s in if is_space (code c) then rest else String.◌∷◌ c s

-- A character before a text whose end is trimmed already.
before : Char → String → String
before c String.[] = if is_space (code c) then String.[] else String.◌∷◌ c String.[]
before c (String.◌∷◌ d s) = String.◌∷◌ c (String.◌∷◌ d s)

unfoldable pub trim_right : String → String
unfolding before
trim_right String.[] = String.[]
trim_right (String.◌∷◌ c s) = before c (trim_right s)

-- strings.TrimSpace
unfoldable pub trim_space : String → String
unfolding trim_left trim_right
trim_space s = trim_right (trim_left s)

-- The bytes of a character's UTF-8.
abbrev width : ℕ → ℕ
width c = if ltb c 0x80 then 1 else if ltb c 0x800 then 2 else if ltb c 0x10000 then 3 else 4

-- len(s), where `len` itself counts the characters: len([]rune(s)).
unfoldable pub byte_len : String → ℕ
byte_len String.[] = 0
byte_len (String.◌∷◌ c s) = width (code c) + byte_len s

-- The characters that lie wholly in the first bytes of a text.
unfoldable pub take_bytes : ℕ → String → String
take_bytes n String.[] = String.[]
take_bytes n (String.◌∷◌ c s) =
    let rest = take_bytes (n - width (code c)) s in
    if ltb n (width (code c)) then String.[] else String.◌∷◌ c rest

-- The first characters of a text.
unfoldable pub take_text : ℕ → String → String
take_text n String.[] = String.[]
take_text n (String.◌∷◌ c s) =
    let rest = take_text (n - 1) s in if n == 0 then String.[] else String.◌∷◌ c rest

-- A loop over the characters of a text that stops at the first one that fails the test.
unfoldable pub all_chars : (ℕ → Bool) → String → Bool
all_chars test String.[] = true
all_chars test (String.◌∷◌ c s) = test (code c) && all_chars test s

-- [a-zA-Z0-9]
abbrev pub is_alphanumeric : ℕ → Bool
is_alphanumeric c =
    (leb b'a' c && leb c b'z') || (leb b'A' c && leb c b'Z') || (leb b'0' c && leb c b'9')

abbrev pub is_plain : ℕ → Bool
is_plain c = not (is_space c)

trim_right-plain : (s : String) → all_chars is_plain s ≡ true → trim_right s ≡ s
unfolding all_chars trim_right before
trim_right-plain String.[] h = refl
trim_right-plain (String.◌∷◌ c String.[]) h = ground arith
trim_right-plain (String.◌∷◌ c (String.◌∷◌ d s)) h =
    ap (before c) (trim_right-plain (String.◌∷◌ d s) (ground arith))

-- A text without spaces is its own trimmed text.
pub trim_space-plain : (s : String) → all_chars is_plain s ≡ true → trim_space s ≡ s
unfolding all_chars trim_space trim_left
trim_space-plain String.[] h = refl
trim_space-plain (String.◌∷◌ c s) h = elim (Bool-cases (is_space (code c))) [
  | inl space ↦ absurd (ground arith)
  | inr plain ↦ rw plain (trim_right-plain (String.◌∷◌ c s) h)
]

pub all_chars_mono :
    (test weaker : ℕ → Bool) (s : String)
    → ((c : ℕ) → test c ≡ true → weaker c ≡ true)
    → all_chars test s ≡ true
    → all_chars weaker s ≡ true
unfolding all_chars
all_chars_mono test weaker String.[] mono h = refl
all_chars_mono test weaker (String.◌∷◌ c s) mono h =
    ground (arith, mono (code c), all_chars_mono test weaker s mono)

trim_right-before :
    (c : Char) (t : String) → trim_right t ≡ t → trim_right (before c t) ≡ before c t
unfolding trim_right before
trim_right-before c String.[] h = elim (Bool-cases (is_space (code c))) [
  | inl space ↦ rw space refl
  | inr plain ↦ rw plain (rw plain refl)
]
trim_right-before c (String.◌∷◌ d s) h = ap (before c) h

trim_right_twice : (s : String) → trim_right (trim_right s) ≡ trim_right s
unfolding trim_right
trim_right_twice String.[] = refl
trim_right_twice (String.◌∷◌ c s) = trim_right-before c (trim_right s) (trim_right_twice s)

-- A text that starts with no space keeps its start.
before-cons :
    (c : Char) (t : String) → is_space (code c) ≡ false → trim_left (before c t) ≡ before c t
unfolding trim_left before
before-cons c String.[] h = rw h (rw h refl)
before-cons c (String.◌∷◌ d s) h = rw h refl

trim_left-trim_right :
    (s : String) → trim_left (trim_right (trim_left s)) ≡ trim_right (trim_left s)
unfolding trim_left trim_right
trim_left-trim_right String.[] = refl
trim_left-trim_right (String.◌∷◌ c s) = elim (Bool-cases (is_space (code c))) [
  | inl space ↦ rw space (trim_left-trim_right s)
  | inr plain ↦ rw plain (before-cons c (trim_right s) plain)
]

pub trim_space_twice : (s : String) → trim_space (trim_space s) ≡ trim_space s
unfolding trim_space
trim_space_twice s = ap trim_right (trim_left-trim_right s) ∙ trim_right_twice (trim_left s)
