-- ===== src/Wire/Messages.antt =====
-- The messages of the schema that queue_pb2.py holds. A field with presence is an `Option`; a
-- message field of which the client never asks presence is its value; a oneof is a data type.
use sepp_py.Common.{ℕ, ℤ, Bool, List, String, Option, Dict}
use sepp_py.Wire.WellKnown.{Timestamp, Duration}

pub data PbPrimitiveValue : Type 0 where
  unset : PbPrimitiveValue
  string_value : String → PbPrimitiveValue
  double_value : ℕ → PbPrimitiveValue
  int_value : ℤ → PbPrimitiveValue
  bool_value : Bool → PbPrimitiveValue

pub record PbTraceContext : Type 0 where
  pub traceparent : String
  pub tracestate : Option String

pub record PbPayload : Type 0 where
  pub body : List ℕ
  pub encoding : String

pub record PbJob : Type 0 where
  pub id : String
  pub job_type : String
  pub payload : Option PbPayload
  pub priority : ℕ
  pub trace_context : Option PbTraceContext
  pub enqueued_at : Timestamp
  pub attempt : ℕ
  pub max_attempts : ℕ
  pub lease_expires_at : Timestamp
  pub custom : Dict PbPrimitiveValue
  pub scheduled_at : Option Timestamp
  pub queue : String

pub data PbJobRejection : Type 0 where
  unset : PbJobRejection
  unknown_queue : (queue : String) → PbJobRejection
  payload_too_large : (limit actual : ℕ) → PbJobRejection
  encoding_not_allowed : (encoding : String) (allowed : List String) → PbJobRejection
  job_type_not_allowed : (job_type : String) (allowed : List String) → PbJobRejection
  custom_entries_too_many : (limit actual : ℕ) → PbJobRejection
  custom_map_too_large : (limit actual : ℕ) → PbJobRejection
  custom_key_too_long : (key : String) (limit actual : ℕ) → PbJobRejection
  queue_name_too_long : (limit actual : ℕ) → PbJobRejection
  job_type_name_too_long : (limit actual : ℕ) → PbJobRejection
  idempotency_key_too_long : (limit actual : ℕ) → PbJobRejection
  scheduled_too_far : (horizon : Duration) (actual : Timestamp) → PbJobRejection
  invalid_request : (message : String) → PbJobRejection
  queue_full : (queue : String) (limit : ℕ) → PbJobRejection
  queue_closing : (queue : String) → PbJobRejection

pub record PbEnqueueRequest : Type 0 where
  pub queue : String
  pub job_type : String
  pub payload : Option PbPayload
  pub idempotency_key : Option String
  pub priority : Option ℕ
  pub max_attempts : Option ℕ
  pub trace_context : Option PbTraceContext
  pub custom : Dict PbPrimitiveValue
  pub scheduled_at : Option Timestamp

pub record PbEnqueueResponse : Type 0 where
  pub job_id : String
  pub deduplicated : Bool

pub data PbJobResult : Type 0 where
  unset : PbJobResult
  success : PbEnqueueResponse → PbJobResult
  rejection : PbJobRejection → PbJobResult

pub record PbJobValidationError : Type 0 where
  pub index : ℕ
  pub rejection : Option PbJobRejection

pub data PbEnqueueAtomicResponse : Type 0 where
  unset : PbEnqueueAtomicResponse
  success : (responses : List PbEnqueueResponse) → PbEnqueueAtomicResponse
  rejection : (errors : List PbJobValidationError) → PbEnqueueAtomicResponse

pub record PbReserveRequest : Type 0 where
  pub queues : List String
  pub wait_timeout : Duration
  pub lease_duration : Duration
  pub worker_id : Option String
  pub max_jobs : Option ℕ

pub record PbAckRequest : Type 0 where
  pub job_id : String
  pub attempt : ℕ
  pub worker_id : Option String

pub data PbNackRetry : Type 0 where
  default : PbNackRetry
  delay : Duration → PbNackRetry
  dead_letter : PbNackRetry

pub record PbNackRequest : Type 0 where
  pub job_id : String
  pub attempt : ℕ
  pub reason : Option String
  pub retry : PbNackRetry
  pub worker_id : Option String

pub record PbExtendRequest : Type 0 where
  pub job_id : String
  pub attempt : ℕ
  pub lease_duration : Duration
  pub worker_id : Option String

-- `cause` is an open enum: any number can arrive.
pub record PbDeadLetterRecord : Type 0 where
  pub job : Option PbJob
  pub cause : ℕ
  pub failed_at : Timestamp
  pub final_attempt : ℕ
  pub last_reason : Option String

pub record PbDrainDeadLettersRequest : Type 0 where
  pub queue : Option String
  pub max_records : ℕ  -- the field `max`

pub record PbServerInfo : Type 0 where
  pub server_version : String
  pub supported_protocol_versions : List String
  pub server_time : Timestamp
  pub restricts_encodings : Bool
  pub allowed_encodings : List String
  pub max_payload_bytes : ℕ
  pub max_custom_entries : ℕ
  pub max_custom_total_bytes : ℕ
  pub max_custom_key_bytes : ℕ
  pub max_queue_name_bytes : ℕ
  pub max_job_type_bytes : ℕ
  pub max_idempotency_key_bytes : ℕ
  pub max_schedule_horizon : Duration
  pub max_enqueue_batch : ℕ
  pub max_reserve_batch : ℕ
  pub max_reserve_queues : ℕ
  pub max_wait_timeout : Duration
  pub max_lease_duration : Duration
  pub strict_queues : Bool
  pub dead_letter_retention_enabled : Bool
