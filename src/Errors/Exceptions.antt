-- ===== src/Errors/Exceptions.antt =====
-- The exception classes of errors.py, by their place in the class hierarchy.
use sepp_py.Common.{ℕ, List, String}
use sepp_py.Types.Faults.{ValueError}
use sepp_py.Wire.WellKnown.{Timestamp}
use sepp_py.Errors.Codes.{StatusCode, RpcError}
use sepp_py.Errors.Rejection.{JobRejection, JobValidationError}

-- Each message of the source with the values that it shows.
pub data JobConversionError : Type 0 where
  missing_id missing_job_type missing_job : JobConversionError
  priority_out_of_range : (priority : ℕ) → JobConversionError
  enqueued_at_not_representable : Timestamp → JobConversionError
  lease_expires_at_not_representable : Timestamp → JobConversionError
  failed_at_not_representable : Timestamp → JobConversionError
  custom_value_not_set : (key : String) → JobConversionError

pub data ServerInfoError : Type 0 where
  missing_server_version : ServerInfoError
  server_time_not_representable : Timestamp → ServerInfoError

pub data ClientError : Type 0 where
  connect_error : (addr reason : String) → ClientError
  invalid_api_key : ClientError
  transport : (message : String) → ClientError
  unauthenticated : (message : String) → ClientError
  overloaded : (message : String) → ClientError
  invalid_request : (message : String) → ClientError
  server_internal : (message : String) → ClientError
  unexpected_status : (code : StatusCode) (message : String) → ClientError
  empty_batch : ClientError
  batch_result_count_mismatch : (expected got : ℕ) → ClientError
  malformed_response : (message : String) → ClientError
  malformed_job : JobConversionError → ClientError
  malformed_server_info : ServerInfoError → ClientError

-- The two lease errors carry no message of the server: both are raised with the default one.
pub data LeaseError : Type 0 where
  job_not_found attempt_mismatch : LeaseError

pub data ReserveError : Type 0 where
  unknown_queues : (message : String) → ReserveError

pub data SeppError : Type 0 where
  client_error : ClientError → SeppError
  job_conversion_error : JobConversionError → SeppError
  server_info_error : ServerInfoError → SeppError
  job_rejected : JobRejection → SeppError
  batch_validation : (errors : List JobValidationError) → SeppError
  lease_error : LeaseError → SeppError
  reserve_error : ReserveError → SeppError

-- Whatever a call may raise: the library's errors, a gRPC error that is still to be mapped, and
-- Python's own exceptions (`unfit` is the one that the protobuf runtime raises for a value that
-- does not fit its field, or for a time that is not representable).
pub data Raised : Type 0 where
  sepp : SeppError → Raised
  rpc_error : RpcError → Raised
  value_error : ValueError → Raised
  type_error : (type_name : String) → Raised
  unfit : Raised
  index_error assertion_error : Raised
  overflow_error : Raised  -- a timedelta out of range
  unprintable : Raised  -- what `str(error)` raises
  base_exception : Raised  -- one that is no `Exception`
  no_lease_handle : Raised
