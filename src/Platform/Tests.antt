-- ===== src/Platform/Tests.antt =====
-- The signed identity of calls on small inputs, and its theorems at inputs that meet their conditions.
use seckill_mall.Base.{
  ℕ, ◌*◌, ◌/◌, ◌+◌, String, ◌≡◌, ◌≢◌, refl, some, [], leb, ◌&&◌, ok, err, if◌then◌else◌, trim_space,
  arith, eq_iff,
}
use seckill_mall.Platform.InternalCall.{
  append_user, authorize_user, authorize_role, clock_skew, second, denied,
}
use seckill_mall.Platform.Signatures.{Shows, authorized-Shows, signed_accepted}

-- A hash of one value: what is known of the real one is that it is a text without spaces.
abbrev constant : String → String → String
constant key text = "d41d8c"

abbrev secret : String
secret = "secret"

trimmed_secret : trim_space secret ≢ ""
unfolding trim_space
trimmed_secret = ground (arith, eq_iff "secret" "")

constant_hex :
    (k text : String) → (trim_space (constant k text) ≡ constant k text) × (constant k text ≢ "")
unfolding trim_space
constant_hex k text = (refl, ground (arith, eq_iff "d41d8c" ""))

abbrev sent_at : ℕ
sent_at = 1700000000 * second

authorized-Shows_example :
    (authorize_user constant
          (some (append_user constant secret "m" 7 sent_at []))
          secret
          "m"
          7
          sent_at
        ≡ ok tt
      → Shows constant secret "m" 7 "" sent_at
          (some (append_user constant secret "m" 7 sent_at [])))
    × (authorize_role constant
            (some (append_user constant secret "m" 7 sent_at []))
            secret
            "m"
            7
            "system"
            sent_at
          ≡ ok tt
        → Shows constant secret "m" 7 "system" sent_at
            (some (append_user constant secret "m" 7 sent_at [])))
authorized-Shows_example =
    authorized-Shows constant (some (append_user constant secret "m" 7 sent_at [])) secret "m" 7
      "system" sent_at trimmed_secret

signed_accepted_example :
    let signed_at = sent_at / second * second in
    authorize_user constant
      (some (append_user constant secret "m" 7 sent_at []))
      secret
      "m"
      7
      sent_at
    ≡ (if leb sent_at (signed_at + clock_skew) && leb signed_at (sent_at + clock_skew)
        then ok tt
        else err (denied "内部调用身份已过期"))
signed_accepted_example =
    signed_accepted constant secret "m" 7 sent_at sent_at trimmed_secret (omega arith) (omega arith)
      (omega arith) constant_hex
