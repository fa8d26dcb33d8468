-- ===== src/Order/Effects/Lookups.antt =====
-- Operations that check their arguments and look an order up.
use seckill_mall.Base.{
  ℕ, ◌≡◌, refl, inl, inr, ◌⊎◌, sym, subst, ap, String, Bool, true, false, some, lookup, Result, ok,
  err, ◌>>=◌, ◌>>◌, fail_if, map_answer, Bool-cases, Result-cases, ok_inj, bind_ok,
}
use seckill_mall.Order.Model.{Error, Order}
use seckill_mall.Order.Repository.{Repository, not_owned, get}
use seckill_mall.Order.World.{World, stored}

module _ {S : Type 0} where
  get_cases :
      (user_id : ℕ) (order_id : String) (r : Repository S) (value : Order)
      → lookup order_id r.orders ≡ some value
      → (get user_id order_id r ≡ (ok value, r))
        ⊎ ((e : Error) × (get user_id order_id r ≡ (err e, r)))
  unfolding get
  get_cases user_id order_id r value found =
      rw (found, get)
        (elim (Bool-cases (not_owned user_id value)) [
          | inl other ↦ rw other (inr (_, refl))
          | inr own ↦ rw own (inl refl)
        ])

pub map_answer_ok :
    {S E A : Type 0} (m : S → Result E A × S) (s : S) (x : A × Bool)
    → (map_answer (λ a. (a, false)) m s).0 ≡ ok x
    → (m s).0 ≡ ok x.0
map_answer_ok m s x = elim (Result-cases (m s).0) [
  | inl (a, good) ↦ rw good (λ h. ap (λ (y : _ × Bool). ok y.0) (ok_inj h))
  | inr (e, bad) ↦ rw bad (λ h. cc)
]

module _ {S I : Type 0} where
  -- An operation that checks its arguments and looks up an order that the store has.
  pub request_ok :
      {B : Type 0} (P : B → World S I → Type 0) (test : Bool) (e : Error) (user_id : ℕ)
      (order_id : String) (f : Order → World S I → Result Error B × World S I) (w : World S I)
      (value : Order)
      → lookup order_id w.repository.orders ≡ some value
      → ((b : B) → (f value w).0 ≡ ok b → P b (f value w).1)
      → (b : B) → ((fail_if test e >> (stored (get user_id order_id) >>= f)) w).0 ≡ ok b
      → P b ((fail_if test e >> (stored (get user_id order_id) >>= f)) w).1
  unfolding get lookup
  request_ok P true e user_id order_id f w value found next b = λ h. cc
  request_ok {B} P false e user_id order_id f w value found next b =
      elim (get_cases user_id order_id w.repository value found) [
        | inl good ↦
            subst (λ (x : Result Error B × World S I). x.0 ≡ ok b → P b x.1)
              (sym (
                bind_ok (stored (get user_id order_id)) f w (
                  ap
                    (λ (x : Result Error Order × Repository S).
                      (x.0, record w { repository = x.1 }))
                    good)))
              (next b)
        | inr (_, bad) ↦ rw bad (λ h. cc)
      ]
