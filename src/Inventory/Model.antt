-- ===== src/Inventory/Model.antt =====
-- services/inventory/internal/app/model.go and repository.go: reservations, commands, errors; and
-- the validators and keys of memory_store.go.
use seckill_mall.Base.{
  ℕ, String, ◌<>◌, byte_len, Bool, ◌&&◌, ◌||◌, not, ℤ, pos, leb_ℤ, eqb_ℤ, ltb, ◌==◌, str_eq,
  if◌then◌else◌, trim_space, all_chars, is_alphanumeric, Result, ok, err,
}
use seckill_mall.Base.Decimal.{show_uint}

pub data Status : Type 0 where
  reserved confirmed released restocked expired : Status

pub record Reservation : Type 0 where
  pub reservation_id : String
  pub order_id : String
  pub user_id : ℕ
  pub activity_id : ℕ
  pub sku_id : ℕ
  pub quantity : ℤ
  pub status : Status
  pub mode : String
  pub created_at : ℕ
  pub updated_at : ℕ

pub record ReserveCommand : Type 0 where
  pub reservation_id : String
  pub order_id : String
  pub user_id : ℕ
  pub sku_id : ℕ
  pub quantity : ℤ
  pub mode : String

pub record SeckillAdmissionCommand : Type 0 where
  pub request_id : String
  pub activity_id : ℕ
  pub user_id : ℕ
  pub sku_id : ℕ
  pub quantity : ℤ
  pub order_id : String

-- `event_error` carries an error of the event envelope or of the event stream.
pub data Error : Type 0 where
  invalid_request not_found out_of_stock purchase_limit conflict : Error
  event_error : String → Error

abbrev is_id_char : ℕ → Bool
is_id_char c = is_alphanumeric c || c == b'-' || c == b'_' || c == b'.'

-- validOpaqueID
unfoldable pub valid_opaque_id : String → Bool
unfolding trim_space all_chars byte_len
valid_opaque_id value =
    if not (str_eq (trim_space value) value) || (str_eq value "" || ltb 128 (byte_len value))
    then Bool.false
    else all_chars is_id_char value

-- validateReserveCommand
unfoldable pub validate_reserve_command : ReserveCommand → Result Error (Unit {0})
unfolding valid_opaque_id
validate_reserve_command c =
    if not (valid_opaque_id c.reservation_id)
      || (not (valid_opaque_id c.order_id)
          || (c.user_id == 0 || (c.sku_id == 0 || leb_ℤ c.quantity (pos 0))))
    then err invalid_request
    else ok tt

-- The first test of AdmitSeckill.
unfoldable pub validate_admission : SeckillAdmissionCommand → Result Error (Unit {0})
unfolding valid_opaque_id
validate_admission c =
    if not (valid_opaque_id c.request_id)
      || (c.activity_id == 0 || (c.user_id == 0 || (c.sku_id == 0 || leb_ℤ c.quantity (pos 0))))
    then err invalid_request
    else ok tt

-- sameReservation
unfoldable pub same_reservation : Reservation → ReserveCommand → Bool
same_reservation r c =
    str_eq r.order_id c.order_id
    && (r.user_id == c.user_id
        && (r.sku_id == c.sku_id && (eqb_ℤ r.quantity c.quantity && str_eq r.mode c.mode)))

-- The test on an existing admission in AdmitSeckill.
unfoldable pub same_admission : Reservation → SeckillAdmissionCommand → Bool
same_admission r c =
    r.activity_id == c.activity_id
    && (r.user_id == c.user_id
        && (r.sku_id == c.sku_id
            && (eqb_ℤ r.quantity c.quantity
                && (str_eq c.order_id "" || str_eq r.order_id c.order_id))))

-- fmt.Sprintf("%d:%d:%d", activityID, userID, skuID)
unfoldable pub purchase_key : ℕ → ℕ → ℕ → String
purchase_key activity_id user_id sku_id =
    show_uint activity_id <> (":" <> (show_uint user_id <> (":" <> show_uint sku_id)))

abbrev pub is_reserved : Status → Bool
is_reserved reserved = Bool.true
is_reserved _ = Bool.false
