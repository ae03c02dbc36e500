-- ===== src/Errors/Rejection.antt =====
-- The rejection values: `JobRejection` with its subclasses, and `JobValidationError`.
-- The readable `message` of each is in Errors.Text.
use sepp_py.Common.{ℕ, List, String}
use sepp_py.Types.Time.{Timedelta, Datetime}

pub data JobRejection : Type 0 where
  unknown_queue : (queue : String) → JobRejection
  payload_too_large : (limit actual : ℕ) → JobRejection
  encoding_not_allowed : (encoding : String) (allowed : List String) → JobRejection
  job_type_not_allowed : (job_type : String) (allowed : List String) → JobRejection
  custom_entries_too_many : (limit actual : ℕ) → JobRejection
  custom_map_too_large : (limit actual : ℕ) → JobRejection
  custom_key_too_long : (key : String) (limit actual : ℕ) → JobRejection
  queue_name_too_long : (limit actual : ℕ) → JobRejection
  job_type_name_too_long : (limit actual : ℕ) → JobRejection
  idempotency_key_too_long : (limit actual : ℕ) → JobRejection
  scheduled_too_far : (horizon : Timedelta) (actual : Datetime) → JobRejection
  invalid_request : (detail : String) → JobRejection
  queue_full : (queue : String) (limit : ℕ) → JobRejection
  queue_closing : (queue : String) → JobRejection
  unknown_rejection : JobRejection

pub record JobValidationError : Type 0 where
  pub index : ℕ
  pub rejection : JobRejection
