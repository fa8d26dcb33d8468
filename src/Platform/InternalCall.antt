-- ===== src/Platform/InternalCall.antt =====
-- shared/platform/internalcall/auth.go: the signed identity of calls between services. The metadata of
-- a call is the list of its pairs, of which `first` reads the first; `none` is a call without any.
-- The keyed hash in hex is the parameter `hmac`. Times count nanoseconds, and the time of a
-- timestamp is not cut to the range of Go's time.
use seckill_mall.Base.{
  ℕ, ◌*◌, ◌/◌, String, ◌<>◌, Bool, ◌||◌, not, Option, none, some, [], ◌∷◌, ◌++◌, ℤ, pos, ltb_ℤ,
  ◌-ℤ◌, ◌*ℤ◌, ltb, ◌==◌, str_eq, if◌then◌else◌, trim_space, byte_len, Result, ok, err, Table,
  lookup,
}
use seckill_mall.Base.Decimal.{show_uint}
use seckill_mall.Base.Parsing.{show_int, parse_uint, parse_int}
use seckill_mall.Platform.Grpc.{Code, GrpcError, status}

abbrev pub user_key : String
user_key = "x-internal-user-id"

abbrev pub role_key : String
role_key = "x-internal-role"

abbrev pub timestamp_key : String
timestamp_key = "x-internal-timestamp"

abbrev pub signature_key : String
signature_key = "x-internal-signature"

abbrev pub second : ℕ
second = 1000000000

abbrev pub clock_skew : ℕ
clock_skew = 30 * second

abbrev pub Metadata : Type 0
Metadata = Table String

abbrev pub denied : String → GrpcError
denied message = status Code.permission_denied message

-- ValidateSecret
unfoldable pub validate_secret : String → Result String (Unit {0})
validate_secret secret =
    if ltb (byte_len (trim_space secret)) 32
    then err "internal call secret length must be at least 32"
    else ok tt

-- What `sign` hashes: the method, the user, the role and the time.
unfoldable pub signed_text : String → String → String → String → String
signed_text method user role timestamp =
    method <> ("|" <> (user <> ("|" <> (role <> ("|" <> timestamp)))))

-- first
unfoldable pub first : Metadata → String → String
first md key = elim (lookup key md) [ none ↦ "" | some value ↦ trim_space value ]

pub record Identity : Type 0 where
  pub user : ℕ
  pub role : String
  pub timestamp : ℤ
  pub signature : String

unfoldable pub identity_of : Option ℕ → Option ℤ → String → String → Result GrpcError Identity
identity_of (some user) (some timestamp) role signature =
    if user == 0 || str_eq signature ""
    then err (denied "内部调用身份无效")
    else ok (record { user = user; role = role; timestamp = timestamp; signature = signature })
identity_of _ _ role signature = err (denied "内部调用身份无效")

-- metadataValues
unfoldable pub metadata_values : Option Metadata → Result GrpcError Identity
metadata_values none = err (denied "缺少内部调用身份")
metadata_values (some md) =
    identity_of (parse_uint (first md user_key)) (parse_int (first md timestamp_key))
      (first md role_key) (first md signature_key)

-- The test of validateTimestamp.
abbrev pub is_stale : ℤ → ℕ → Bool
is_stale timestamp now =
    ltb_ℤ (pos clock_skew) (pos now -ℤ (timestamp *ℤ pos second))
    || ltb_ℤ (pos clock_skew) ((timestamp *ℤ pos second) -ℤ pos now)

-- validateTimestamp
unfoldable pub validate_timestamp : ℤ → ℕ → Result GrpcError (Unit {0})
validate_timestamp timestamp now =
    if is_stale timestamp now then err (denied "内部调用身份已过期") else ok tt

module _ (hmac : String → String → String) where
  -- sign
  unfoldable pub sign : String → String → String → String → String → String
  sign secret method user role timestamp =
      hmac (trim_space secret) (signed_text method user role timestamp)

  -- AppendUser
  unfoldable pub append_user : String → String → ℕ → ℕ → Metadata → Metadata
  append_user secret method user_id now md =
      let trimmed = trim_space secret in
      let timestamp = show_uint (now / second) in
      if str_eq trimmed "" || user_id == 0
      then md
      else md
        ++ ((user_key, show_uint user_id)
            ∷ (timestamp_key, timestamp)
            ∷ (signature_key, sign trimmed method (show_uint user_id) "" timestamp)
            ∷ [])

  -- AppendRole
  unfoldable pub append_role : String → String → ℕ → String → ℕ → Metadata → Metadata
  append_role secret method user_id role now md =
      let trimmed = trim_space secret in
      let named = trim_space role in
      let timestamp = show_uint (now / second) in
      if str_eq trimmed "" || (user_id == 0 || str_eq named "")
      then md
      else md
        ++ ((user_key, show_uint user_id)
            ∷ (role_key, named)
            ∷ (timestamp_key, timestamp)
            ∷ (signature_key, sign trimmed method (show_uint user_id) named timestamp)
            ∷ [])

  -- The end of both checks: the time and the signature.
  unfoldable pub check_identity :
      String → String → String → ℕ → Identity → Result GrpcError (Unit {0})
  check_identity secret method role now i = elim (validate_timestamp i.timestamp now) [
    | err e ↦ err e
    | ok _ ↦
        if not
          (str_eq (sign secret method (show_uint i.user) role (show_int i.timestamp)) i.signature)
        then err (denied "内部调用签名无效")
        else ok tt
  ]

  -- A caller's identity is the user and the role that the method wants.
  unfoldable pub check_caller :
      String
      → String
      → ℕ
      → String
      → String
      → ℕ
      → Result GrpcError Identity
      → Result GrpcError (Unit {0})
  check_caller secret method user_id role message now (err _) = err (denied message)
  check_caller secret method user_id role message now (ok i) =
      if not (str_eq i.role role) || not (i.user == user_id)
      then err (denied message)
      else check_identity secret method role now i

  -- AuthorizeUser
  unfoldable pub authorize_user :
      Option Metadata → String → String → ℕ → ℕ → Result GrpcError (Unit {0})
  authorize_user md secret method user_id now =
      if str_eq (trim_space secret) ""
      then ok tt
      else check_caller secret method user_id "" "内部调用身份无效" now (metadata_values md)

  -- AuthorizeRole
  unfoldable pub authorize_role :
      Option Metadata → String → String → ℕ → String → ℕ → Result GrpcError (Unit {0})
  authorize_role md secret method user_id role now =
      if str_eq (trim_space secret) ""
      then ok tt
      else check_caller secret method user_id role "内部调用角色无效" now (metadata_values md)
