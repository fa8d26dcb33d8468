-- ===== src/Platform/Signatures.antt =====
-- shared/platform/internalcall/auth.go: what the checks of the identity accept.
use seckill_mall.Base.{
  ℕ, ◌*◌, ◌/◌, ◌+◌, ◌<◌, ◌≡◌, ◌≢◌, refl, ap, ◌∙◌, String, false, Option, some, [], ◌∷◌, ◌||◌, ◌&&◌,
  leb, ◌==◌, lookup, trim_space_twice, pos, str_eq, ok, err, trim_space, arith, Result-cases, inl,
  inr, eq_iff, if◌then◌else◌, str_eq-false,
}
use seckill_mall.Base.Decimal.{show_uint}
use seckill_mall.Base.Parsing.{
  show_int, parse_below-show_uint, parse_int-show_uint, trim_space-show_uint,
}
use seckill_mall.Platform.InternalCall.{
  Metadata, user_key, timestamp_key, signature_key, second, clock_skew, denied, signed_text, first,
  Identity, identity_of, metadata_values, is_stale, validate_timestamp, sign, append_user,
  check_identity, check_caller, authorize_user, authorize_role,
}

-- What a caller has shown: a user, a role, a time within the window and the signature of them and
-- the method under the secret.
abbrev pub Shows :
    (String → String → String) → String → String → ℕ → String → ℕ → Option Metadata → Type 0
Shows hmac secret method user_id role now md =
    (i : Identity) × (metadata_values md ≡ ok i)
    × (i.user ≡ user_id)
    × (i.role ≡ role)
    × (is_stale i.timestamp now ≡ false)
    × (i.signature
        ≡ hmac (trim_space secret)
            (signed_text method (show_uint user_id) role (show_int i.timestamp)))

module _ (hmac : String → String → String) where
  check_identity_parts :
      (secret method role : String) (now : ℕ) (i : Identity)
      → check_identity hmac secret method role now i ≡ ok tt
      → (is_stale i.timestamp now ≡ false)
        × (i.signature
            ≡ hmac
                (trim_space secret)
                (signed_text method (show_uint i.user) role (show_int i.timestamp)))
  unfolding check_identity validate_timestamp sign
  check_identity_parts secret method role now i h = ground (
    arith,
    eq_iff
        (hmac (trim_space secret)
          (signed_text method (show_uint i.user) role (show_int i.timestamp)))
        i.signature,
  )

  caller_parts :
      (secret method : String) (user_id : ℕ) (role message : String) (now : ℕ) (i : Identity)
      → check_caller hmac secret method user_id role message now (ok i) ≡ ok tt
      → (i.role ≡ role)
        × (i.user ≡ user_id)
        × (check_identity hmac secret method role now i ≡ ok tt)
  unfolding check_caller
  caller_parts secret method user_id role message now i h = ground (arith, eq_iff i.role role)

  check_caller_parts :
      (secret method : String) (user_id : ℕ) (role message : String) (now : ℕ)
      (md : Option Metadata)
      → check_caller hmac secret method user_id role message now (metadata_values md) ≡ ok tt
      → Shows hmac secret method user_id role now md
  unfolding check_caller
  check_caller_parts secret method user_id role message now md =
      elim (Result-cases (metadata_values md)) [
        | inr (_, bad) ↦ rw bad (λ h. absurd (cc h))
        | inl (i, shown) ↦ rw shown (λ h.
            let (role_eq, user_eq, checked) =
              caller_parts secret method user_id role message now i h in
            let (fresh, signed) = check_identity_parts secret method role now i checked in
            (
              i,
              refl,
              user_eq,
              role_eq,
              fresh,
              signed
                  ∙ ap
                      (λ u.
                        hmac (trim_space secret)
                          (signed_text method (show_uint u) role (show_int i.timestamp)))
                      user_eq,
            ))
      ]

  authorize_user_parts :
      (md : Option Metadata) (secret method : String) (user_id now : ℕ)
      → trim_space secret ≢ ""
      → authorize_user hmac md secret method user_id now ≡ ok tt
      → Shows hmac secret method user_id "" now md
  unfolding authorize_user
  authorize_user_parts md secret method user_id now set =
      rw (str_eq-false (trim_space secret) "" set)
        (check_caller_parts secret method user_id "" "内部调用身份无效" now md)

  authorize_role_parts :
      (md : Option Metadata) (secret method : String) (user_id : ℕ) (role : String) (now : ℕ)
      → trim_space secret ≢ ""
      → authorize_role hmac md secret method user_id role now ≡ ok tt
      → Shows hmac secret method user_id role now md
  unfolding authorize_role
  authorize_role_parts md secret method user_id role now set =
      rw (str_eq-false (trim_space secret) "" set)
        (check_caller_parts secret method user_id role "内部调用角色无效" now md)

  -- Where the secret is set, a call passes as a user's, or as one of a role, only if its metadata
  -- shows this user, this role (none for a user's call), a time within thirty seconds of now, and the
  -- keyed hash of the method, the user, the role and the time under the secret.
  pub authorized-Shows :
      (md : Option Metadata) (secret method : String) (user_id : ℕ) (role : String) (now : ℕ)
      → trim_space secret ≢ ""
      → (authorize_user hmac md secret method user_id now ≡ ok tt
          → Shows hmac secret method user_id "" now md)
        × (authorize_role hmac md secret method user_id role now ≡ ok tt
            → Shows hmac secret method user_id role now md)
  authorized-Shows md secret method user_id role now set = (
    authorize_user_parts md secret method user_id now set,
    authorize_role_parts md secret method user_id role now set,
  )

  -- The metadata of a signed call.
  abbrev signed_user : String → String → ℕ → ℕ → Metadata
  signed_user secret method user_id sent =
      (user_key, show_uint user_id)
      ∷ (timestamp_key, show_uint (sent / second))
      ∷ (
        signature_key,
        hmac (trim_space secret)
            (signed_text method (show_uint user_id) "" (show_uint (sent / second))),
      )
      ∷ []

  append_user-signed :
      (secret method : String) (user_id sent : ℕ)
      → trim_space secret ≢ ""
      → 0 < user_id
      → append_user hmac secret method user_id sent [] ≡ signed_user secret method user_id sent
  unfolding append_user sign
  append_user-signed secret method user_id sent set positive =
      let guard : (str_eq (trim_space secret) "" || user_id == 0) ≡ false =
        ground (arith, str_eq-false (trim_space secret) "" set) in
      rw guard (
        ap
          (λ key.
            (user_key, show_uint user_id)
            ∷ (timestamp_key, show_uint (sent / second))
            ∷ (
              signature_key,
              hmac key (signed_text method (show_uint user_id) "" (show_uint (sent / second))),
            )
            ∷ [])
          (trim_space_twice secret))

  -- What the receiver reads off it.
  metadata_values-signed :
      (secret method : String) (user_id sent : ℕ)
      → 0 < user_id
      → user_id < 18446744073709551616
      → sent / second < 9223372036854775808
      → ((k text : String) → (trim_space (hmac k text) ≡ hmac k text) × (hmac k text ≢ ""))
      → metadata_values (some (signed_user secret method user_id sent))
        ≡ ok (record {
          user = user_id;
          role = "";
          timestamp = pos (sent / second);
          signature =
              hmac
                (trim_space secret)
                (signed_text method (show_uint user_id) "" (show_uint (sent / second)));
        })
  unfolding metadata_values identity_of first lookup
  metadata_values-signed secret method user_id sent positive small early hex =
      let text = signed_text method (show_uint user_id) "" (show_uint (sent / second)) in
      let (trimmed, nonempty) = hex (trim_space secret) text in
      rw
        (
          trim_space-show_uint user_id,
          trim_space-show_uint (sent / second),
          trimmed,
          parse_below-show_uint 18446744073709551616 user_id small,
          parse_int-show_uint (sent / second) early,
        )
        (ground (arith, str_eq-false (hmac (trim_space secret) text) "" nonempty))

  signed_passes :
      (secret method : String) (user_id sent now : ℕ)
      → let signed_at = sent / second * second in
        check_caller hmac secret method user_id "" "内部调用身份无效" now (
          ok (record {
            user = user_id;
            role = "";
            timestamp = pos (sent / second);
            signature =
                hmac
                  (trim_space secret)
                  (signed_text method (show_uint user_id) "" (show_uint (sent / second)));
          }))
        ≡ (if leb now (signed_at + clock_skew) && leb signed_at (now + clock_skew)
            then ok tt
            else err (denied "内部调用身份已过期"))
  unfolding check_caller check_identity validate_timestamp sign
  signed_passes secret method user_id sent now =
      let text = signed_text method (show_uint user_id) "" (show_uint (sent / second)) in
      ground (
        arith,
        eq_iff "" "",
        eq_iff (hmac (trim_space secret) text) (hmac (trim_space secret) text),
      )

  -- A call that was signed for its user and its method is accepted if and only if it arrives within
  -- thirty seconds of the second in which it was signed; otherwise it has expired.
  pub signed_accepted :
      (secret method : String) (user_id sent now : ℕ)
      → trim_space secret ≢ ""
      → 0 < user_id
      → user_id < 18446744073709551616
      → sent / second < 9223372036854775808
      → ((k text : String) → (trim_space (hmac k text) ≡ hmac k text) × (hmac k text ≢ ""))
      → let signed_at = sent / second * second in
        authorize_user hmac
          (some (append_user hmac secret method user_id sent []))
          secret
          method
          user_id
          now
        ≡ (if leb now (signed_at + clock_skew) && leb signed_at (now + clock_skew)
            then ok tt
            else err (denied "内部调用身份已过期"))
  unfolding authorize_user
  signed_accepted secret method user_id sent now set positive small early hex =
      rw (str_eq-false (trim_space secret) "" set) (
        ap
          (λ md.
            check_caller hmac secret method user_id "" "内部调用身份无效" now (metadata_values (some md)))
          (append_user-signed secret method user_id sent set positive)
        ∙ (ap (check_caller hmac secret method user_id "" "内部调用身份无效" now)
              (metadata_values-signed secret method user_id sent positive small early hex)
            ∙ signed_passes secret method user_id sent now))
