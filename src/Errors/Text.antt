-- ===== src/Errors/Text.antt =====
-- The texts of the exceptions and of the rejections: what `str(…)` gives.
pub mod Shown
use Prim.Native.String.{◌++◌}
use sepp_py.Common.{ℕ, List, String, length}
use sepp_py.Types.Time.{Timedelta, Datetime}
use sepp_py.Wire.WellKnown.{Timestamp}
use sepp_py.Errors.Codes.{StatusCode}
use sepp_py.Errors.Rejection.{
  JobRejection, unknown_queue, payload_too_large, encoding_not_allowed, job_type_not_allowed,
  custom_entries_too_many, custom_map_too_large, custom_key_too_long, queue_name_too_long,
  job_type_name_too_long, idempotency_key_too_long, scheduled_too_far, invalid_request, queue_full,
  queue_closing, unknown_rejection, JobValidationError,
}
use sepp_py.Errors.Exceptions.{
  JobConversionError, missing_id, missing_job_type, missing_job, priority_out_of_range,
  enqueued_at_not_representable, lease_expires_at_not_representable, failed_at_not_representable,
  custom_value_not_set, ServerInfoError, missing_server_version, server_time_not_representable,
  ClientError, connect_error, invalid_api_key, transport, unauthenticated, overloaded,
  server_internal, unexpected_status, empty_batch, batch_result_count_mismatch, malformed_response,
  malformed_job, malformed_server_info, LeaseError, job_not_found, attempt_mismatch, ReserveError,
  unknown_queues, SeppError, client_error, job_conversion_error, server_info_error, job_rejected,
  batch_validation, lease_error, reserve_error,
}

-- How Python and the protobuf runtime write the values inside a text.
pub record Printer : Type 0 where
  pub show : ℕ → String  -- `str(n)`
  pub repr : String → String  -- `repr(s)`
  pub repr_list : List String → String
  pub repr_code : StatusCode → String
  pub isoformat : Datetime → String
  pub show_timedelta : Timedelta → String
  pub to_json_string : Timestamp → String

module _ (p : Printer) where
  -- `JobRejection.message` of each subclass, which is also its `__str__`
  unfoldable pub message : JobRejection → String
  message (unknown_queue queue) =
      "queue " ++ p.repr queue ++ " is not declared on the server (strict mode)"
  message (payload_too_large limit actual) =
      "payload size " ++ p.show actual ++ " bytes exceeds the queue limit of " ++ p.show limit
  message (encoding_not_allowed encoding allowed) =
      "payload encoding " ++ p.repr encoding ++ " is not allowed; accepted: " ++ p.repr_list allowed
  message (job_type_not_allowed job_type allowed) =
      "job_type "
      ++ p.repr job_type
      ++ " is not accepted by this queue; accepted: "
      ++ p.repr_list allowed
  message (custom_entries_too_many limit actual) =
      "custom map has "
      ++ p.show actual
      ++ " entries, exceeding the queue limit of "
      ++ p.show limit
  message (custom_map_too_large limit actual) =
      "custom map's total size "
      ++ p.show actual
      ++ " bytes exceeds the queue limit of "
      ++ p.show limit
  message (custom_key_too_long key limit actual) =
      "custom key "
      ++ p.repr key
      ++ " is "
      ++ p.show actual
      ++ " bytes, exceeding the limit of "
      ++ p.show limit
  message (queue_name_too_long limit actual) =
      "queue name is " ++ p.show actual ++ " bytes, exceeding the limit of " ++ p.show limit
  message (job_type_name_too_long limit actual) =
      "job_type is " ++ p.show actual ++ " bytes, exceeding the limit of " ++ p.show limit
  message (idempotency_key_too_long limit actual) =
      "idempotency_key is " ++ p.show actual ++ " bytes, exceeding the limit of " ++ p.show limit
  message (scheduled_too_far horizon actual) =
      "scheduled_at "
      ++ p.isoformat actual
      ++ " is beyond the schedule horizon ("
      ++ p.show_timedelta horizon
      ++ ")"
  message (invalid_request detail) = "structural validation failed: " ++ detail
  message (queue_full queue limit) =
      "queue " ++ p.repr queue ++ " is full (max depth " ++ p.show limit ++ ")"
  message (queue_closing queue) =
      "queue " ++ p.repr queue ++ " is being deleted and is not accepting new jobs"
  message unknown_rejection = "server returned an unrecognized rejection variant"

  -- The texts with which _convert.py raises the two.
  unfoldable pub conversion_text : JobConversionError → String
  conversion_text missing_id = "job is missing required field `id`"
  conversion_text missing_job_type = "job is missing required field `job_type`"
  conversion_text missing_job = "dead-letter record is missing required field `job`"
  conversion_text (priority_out_of_range priority) =
      "job priority " ++ p.show priority ++ " is out of range (expected 0-9)"
  conversion_text (enqueued_at_not_representable ts) =
      "job timestamp `enqueued_at` is not a representable time (" ++ p.to_json_string ts ++ ")"
  conversion_text (lease_expires_at_not_representable ts) =
      "job timestamp `lease_expires_at` is not a representable time (" ++ p.to_json_string ts ++ ")"
  conversion_text (failed_at_not_representable ts) =
      "dead-letter timestamp `failed_at` is not a representable time ("
      ++ p.to_json_string ts
      ++ ")"
  conversion_text (custom_value_not_set key) =
      "custom value for key `" ++ key ++ "` has no value set"

  unfoldable pub server_info_text : ServerInfoError → String
  server_info_text missing_server_version = "server info is missing required field `server_version`"
  server_info_text (server_time_not_representable ts) =
      "server_time is not a representable time (" ++ p.to_json_string ts ++ ")"

  unfoldable pub client_error_text : ClientError → String
  unfolding conversion_text server_info_text
  client_error_text (connect_error addr reason) =
      "could not connect to Sepp server at " ++ addr ++ ": " ++ reason
  client_error_text invalid_api_key = "the API key is not a valid HTTP header value"
  client_error_text (transport msg) = msg
  client_error_text (unauthenticated msg) = msg
  client_error_text (overloaded msg) = msg
  client_error_text (ClientError.invalid_request msg) = msg
  client_error_text (server_internal msg) = msg
  client_error_text (unexpected_status code msg) =
      "server returned unexpected status " ++ p.repr_code code ++ ": " ++ msg
  client_error_text empty_batch = "empty batch"
  client_error_text (batch_result_count_mismatch expected got) =
      "server returned " ++ p.show got ++ " results for a batch of " ++ p.show expected ++ " jobs"
  client_error_text (malformed_response msg) = msg
  client_error_text (malformed_job cause) =
      "server returned a malformed job: " ++ conversion_text cause
  client_error_text (malformed_server_info cause) =
      "server returned malformed server info: " ++ server_info_text cause

  -- `message or default`: both are raised with no message.
  unfoldable pub lease_text : LeaseError → String
  lease_text job_not_found =
      "no in-flight job with this id (already acked, expired, or never existed)"
  lease_text attempt_mismatch = "attempt mismatch: the lease was reassigned"

  unfoldable pub error_text : SeppError → String
  unfolding message conversion_text server_info_text client_error_text lease_text
  error_text (client_error e) = client_error_text e
  error_text (job_conversion_error e) = conversion_text e
  error_text (server_info_error e) = server_info_text e
  error_text (job_rejected rejection) = "server rejected the job: " ++ message rejection
  error_text (batch_validation errors) =
      "atomic batch rejected: " ++ p.show (length errors) ++ " job(s) failed validation"
  error_text (lease_error e) = lease_text e
  error_text (reserve_error (unknown_queues msg)) =
      "requested queues are not declared on the server: " ++ msg
