-- ===== src/World/Errors.antt =====
-- What the services throw: the exceptions of NestJS with the code of
-- src/common/constants/error-codes.ts, those of Prisma by kind, and any other error.
-- Messages are not modelled.
use accountos.Prelude.{ℕ, Bool, true, false}

pub data ErrorCode : Type 0 where
  validation_error invalid_rule_set business_not_found customer_not_found : ErrorCode
  account_not_found account_not_active account_already_closed account_terminal_state : ErrorCode
  duplicate_account_ref rule_not_found rule_conflict percentage_sum_exceeds_100 : ErrorCode
  insufficient_bucket_balance bucket_not_found nomba_api_error : ErrorCode
  invalid_webhook_signature invalid_admin_secret duplicate_email invalid_api_key : ErrorCode
  api_key_revoked api_key_expired idempotency_key_conflict : ErrorCode

pub data Thrown : Type 0 where
  bad_request not_found conflict unprocessable unauthorized : ErrorCode → Thrown
  -- `new HttpException(…, status)`
  http_status : ℕ → ErrorCode → Thrown
  -- Prisma's P2002, P2034 and P2025
  unique_violation serialization_failure record_missing : Thrown
  -- any other `Error`
  other_error : Thrown

-- `error instanceof HttpException`
abbrev pub is_http : Thrown → Bool
is_http (bad_request _) = true
is_http (not_found _) = true
is_http (conflict _) = true
is_http (unprocessable _) = true
is_http (unauthorized _) = true
is_http (http_status _ _) = true
is_http unique_violation = false
is_http serialization_failure = false
is_http record_missing = false
is_http other_error = false
