-- ===== src/Base/Actions.antt =====
-- Results and the calls of a method: a state and a result or an error. What was written before an
-- error stays written, as in the source.
use mathlib.Core.Path.{◌≡◌, refl, ap}
use mathlib.Core.Logic.{◌⊎◌, inl, inr}
use mathlib.Core.Bool.{Bool, true, false}

pub data Result (E A : Type 0) : Type 0 where
  ok : A → Result E A
  err : E → Result E A

abbrev pub Action : Type 0 → Type 0 → Type 0 → Type 0
Action S E A = S → Result E A × S

module _ {S E A : Type 0} where
  abbrev pub pure : A → Action S E A
  pure a s = (ok a, s)

  abbrev pub fail : E → Action S E A
  fail e s = (err e, s)

  abbrev pub lift : Result E A → Action S E A
  lift r s = (r, s)

  abbrev pub gets : (S → A) → Action S E A
  gets f s = (ok (f s), s)

module _ {S E : Type 0} where
  abbrev pub modify : (S → S) → Action S E (Unit {0})
  modify f s = (ok tt, f s)

  -- `if test { return err }`
  abbrev pub fail_if : Bool → E → Action S E (Unit {0})
  fail_if true e s = (err e, s)
  fail_if false e s = (ok tt, s)

infixl 5 ◌>>=◌ ◌>>◌
abbrev pub ◌>>=◌ :
    {S E A B : Type 0} → (S → Result E A × S) → (A → S → Result E B × S) → S → Result E B × S
◌>>=◌ m f s = let (r, s') = m s in elim r [ ok a ↦ f a s' | err e ↦ (err e, s') ]

abbrev pub ◌>>◌ :
    {S E A B : Type 0} → (S → Result E A × S) → (S → Result E B × S) → S → Result E B × S
m >> k = m >>= λ _. k

-- The same call with another answer.
abbrev pub map_answer : {S E A B : Type 0} → (A → B) → (S → Result E A × S) → S → Result E B × S
map_answer f m s = let (r, s') = m s in (elim r [ ok a ↦ ok (f a) | err e ↦ err e ], s')

abbrev pub is_ok : {E A : Type 0} → Result E A → Bool
is_ok (ok _) = true
is_ok (err _) = false

pub ok_inj : {E A : Type 0} {a b : A} → Path (Result E A) (ok a) (ok b) → a ≡ b
ok_inj h = cc

pub Result-cases :
    {E A : Type 0} (r : Result E A) → ((a : A) × (r ≡ ok a)) ⊎ ((e : E) × (r ≡ err e))
Result-cases (ok a) = inl (a, refl)
Result-cases (err e) = inr (e, refl)

-- What holds of the state after both outcomes of a step holds after the step and what follows.
pub after_bind :
    {S E A B : Type 0} (P : S → Type 0) (m : S → Result E A × S) (f : A → S → Result E B × S)
    (s : S)
    → ((e : E) → (m s).0 ≡ err e → P (m s).1)
    → ((a : A) → (m s).0 ≡ ok a → P (f a (m s).1).1)
    → P ((m >>= f) s).1
after_bind P m f s bad good = elim (Result-cases (m s).0) [
  | inl (a, e) ↦ rw (e, ◌>>=◌) (good a e)
  | inr (e, h) ↦ rw (h, ◌>>=◌) (bad e h)
]

-- What a successful step and what follows answer, and leave behind.
pub ok_bind :
    {S E A B : Type 0} (Q : B → S → Type 0) (m : S → Result E A × S) (f : A → S → Result E B × S)
    (s : S)
    → ((a : A) → (m s).0 ≡ ok a → (b : B) → (f a (m s).1).0 ≡ ok b → Q b (f a (m s).1).1)
    → (b : B) → ((m >>= f) s).0 ≡ ok b
    → Q b ((m >>= f) s).1
ok_bind Q m f s good = elim (Result-cases (m s).0) [
  | inl (a, e) ↦ rw (e, ◌>>=◌) (good a e)
  | inr (e, h) ↦ rw (h, ◌>>=◌) (λ b bad. cc)
]

-- The same after a test that may refuse the call.
pub ok_guard :
    {S E B : Type 0} (Q : B → S → Type 0) (test : Bool) (e : E) (k : S → Result E B × S) (s : S)
    → ((b : B) → (k s).0 ≡ ok b → Q b (k s).1)
    → (b : B) → ((fail_if test e >> k) s).0 ≡ ok b
    → Q b ((fail_if test e >> k) s).1
ok_guard Q true e k s good = λ b bad. cc
ok_guard Q false e k s good = good

-- A call keeps what holds of the state.
abbrev pub Keeps : {S E A : Type 0} → (S → Type 0) → (S → Result E A × S) → Type 0
Keeps {S} P m = (s : S) → P s → P (m s).1

pub then-Keeps :
    {S E A B : Type 0} (P : S → Type 0) (m : S → Result E A × S) (f : A → S → Result E B × S)
    → Keeps P m
    → ((a : A) → Keeps P (f a))
    → Keeps P (m >>= f)
then-Keeps P m f first rest s p =
    after_bind P m f s (λ _ _. first s p) (λ a _. rest a (m s).1 (first s p))

pub test-Keeps : {S E : Type 0} (P : S → Type 0) (test : Bool) (e : E) → Keeps P (fail_if test e)
test-Keeps P true e s p = p
test-Keeps P false e s p = p

-- A step with a known outcome.
pub bind_ok :
    {S E A B : Type 0} (m : S → Result E A × S) (f : A → S → Result E B × S) (s : S) {a : A} {t : S}
    → m s ≡ (ok a, t)
    → (m >>= f) s ≡ f a t
bind_ok {S} {E} {A} {B} m f s e = ap (λ (x : Result E A × S). proceed x) e
  where
    proceed : Result E A × S → Result E B × S
    proceed (r, t) = elim r [ ok a ↦ f a t | err e ↦ (err e, t) ]

pub bind_err :
    {S E A B : Type 0} (m : S → Result E A × S) (f : A → S → Result E B × S) (s : S) {e : E} {t : S}
    → m s ≡ (err e, t)
    → (m >>= f) s ≡ (err e, t)
bind_err {S} {E} {A} {B} m f s e = ap (λ (x : Result E A × S). proceed x) e
  where
    proceed : Result E A × S → Result E B × S
    proceed (r, t) = elim r [ ok a ↦ f a t | err e ↦ (err e, t) ]

-- What a failed call leaves behind: either its first step failed, or what follows did.
pub err_bind :
    {S E A B : Type 0} (Q : E → S → Type 0) (m : S → Result E A × S) (f : A → S → Result E B × S)
    (s : S)
    → ((e : E) → (m s).0 ≡ err e → Q e (m s).1)
    → ((a : A) → (m s).0 ≡ ok a → (e : E) → (f a (m s).1).0 ≡ err e → Q e (f a (m s).1).1)
    → (e : E) → ((m >>= f) s).0 ≡ err e
    → Q e ((m >>= f) s).1
err_bind Q m f s bad good = elim (Result-cases (m s).0) [
  | inl (a, h) ↦ rw (h, ◌>>=◌) (good a h)
  | inr (e, h) ↦ rw (h, ◌>>=◌) (λ e' same. bad e' cc)
]

-- A call and a function of its answer.
pub then_pure :
    {S E A B : Type 0} (m : S → Result E A × S) (f : A → B) (s : S)
    → (m >>= λ a. pure (f a)) s ≡ map_answer f m s
then_pure m f s = elim (Result-cases (m s).0) [
  | inl (a, e) ↦ rw (e, ◌>>=◌, map_answer) refl
  | inr (_, e) ↦ rw (e, ◌>>=◌, map_answer) refl
]
