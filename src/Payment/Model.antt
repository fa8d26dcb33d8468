-- ===== src/Payment/Model.antt =====
-- services/payment/internal/app/model.go and repository.go: payments, refunds and the errors. Times
-- count nanoseconds, 0 for the zero time.
use seckill_mall.Base.{ℕ, String, Bool, true, false, ℤ, pos}
use seckill_mall.Platform.Grpc.{GrpcError}

-- The status of a payment; `unset` is the empty text of a zero value.
pub data Status : Type 0 where
  unset pending succeeded : Status

pub record Payment : Type 0 where
  pub payment_no : String
  pub order_id : String
  pub provider : String
  pub status : Status
  pub callback_ref : String
  pub user_id : ℕ
  pub amount_cents : ℤ
  pub paid_at : ℕ
  pub created_at : ℕ
  pub updated_at : ℕ

pub record Refund : Type 0 where
  pub refund_no : String
  pub order_id : String
  pub payment_no : String
  pub reason : String
  pub status : Status
  pub user_id : ℕ
  pub amount_cents : ℤ
  pub created_at : ℕ
  pub completed_at : ℕ

-- The five errors of repository.go, those of the order client, and the rest.
pub data Error : Type 0 where
  invalid_request unauthorized not_found conflict invalid_transition : Error
  remote_error : GrpcError → Error
  failed : String → Error

abbrev pub is_succeeded : Status → Bool
is_succeeded succeeded = true
is_succeeded _ = false

abbrev pub zero_payment : Payment
zero_payment = record {
  payment_no = "";
  order_id = "";
  provider = "";
  status = unset;
  callback_ref = "";
  user_id = 0;
  amount_cents = pos 0;
  paid_at = 0;
  created_at = 0;
  updated_at = 0;
}

abbrev pub zero_refund : Refund
zero_refund = record {
  refund_no = "";
  order_id = "";
  payment_no = "";
  reason = "";
  status = unset;
  user_id = 0;
  amount_cents = pos 0;
  created_at = 0;
  completed_at = 0;
}
