-- ===== src/Convert/Incoming.antt =====
-- Jobs and dead-letter records on their way from the server.
use sepp_py.Common.{
  ℕ, pos, [], ◌∷◌, String, is_empty, Dict, put, Option, none, some, Result, ok, ◌>>=◌, ◌>>◌,
  raise_if, or_raise, map_err, ◌==◌, if◌then◌else◌,
}
use mathlib.Core.Option
use sepp_py.Types.Time.{Datetime}
use sepp_py.Types.Faults.{PyArg}
use sepp_py.Types.Priority.{Priority, make_priority}
use sepp_py.Types.Trace.{TraceContext}
use sepp_py.Types.Requests.{Primitive}
use sepp_py.Types.Jobs.{
  Lease, Job, DeadLetterCause, unspecified, attempts_exhausted, rejected, lease_expired, admin,
  DeadLetterRecord,
}
use sepp_py.Wire.Messages.{PbPrimitiveValue, PbTraceContext, PbJob, PbDeadLetterRecord}
use sepp_py.Wire.WellKnown.{Timestamp}
use sepp_py.Wire.Runtime.{Runtime}
use sepp_py.Errors.Exceptions.{
  JobConversionError, missing_id, missing_job_type, missing_job, priority_out_of_range,
  enqueued_at_not_representable, lease_expires_at_not_representable, failed_at_not_representable,
  custom_value_not_set,
}
use sepp_py.Convert.Time.{datetime_to_millis, timestamp_to_datetime}
use sepp_py.Convert.Values.{primitive_from_pb, payload_from_pb, trace_context_from_pb}

-- `Lease.__init__`
unfoldable pub make_lease : String → ℕ → Datetime → Option String → Lease
make_lease job_id attempt lease_expires_at worker_id = record {
  job_id = job_id;
  attempt = attempt;
  worker_id = worker_id;
  known_expiry_ms = datetime_to_millis lease_expires_at;
}

-- `try: Priority(j.priority) except PriorityOutOfRangeError: raise JobConversionError`
unfoldable pub priority_from_pb : ℕ → Result JobConversionError Priority
priority_from_pb n = map_err (λ _. priority_out_of_range n) (make_priority (PyArg.int (pos n)))

-- The loop over `j.custom.items()`, into the dict `custom`.
unfoldable pub custom_from_pb :
    Dict Primitive → Dict PbPrimitiveValue → Result JobConversionError (Dict Primitive)
custom_from_pb custom [] = ok custom
custom_from_pb custom ((key, pv) ∷ items) =
    or_raise (primitive_from_pb pv) (custom_value_not_set key) >>= λ value.
    custom_from_pb (put key value custom) items

-- `trace_context_from_pb(m) if j.HasField("trace_context") else None`
abbrev pub trace_context_field : Option PbTraceContext → Option TraceContext
trace_context_field none = none
trace_context_field (some m) = trace_context_from_pb m

-- `_scheduled_at_from_pb`
unfoldable pub scheduled_at_from_pb : Runtime → Option Timestamp → Option Datetime
scheduled_at_from_pb rt none = none
scheduled_at_from_pb rt (some ts) = timestamp_to_datetime rt ts

unfoldable pub job_from_pb : Runtime → PbJob → Option String → Result JobConversionError Job
job_from_pb rt j worker_id = do
  raise_if (is_empty j.id) missing_id
  raise_if (is_empty j.job_type) missing_job_type
  priority ← priority_from_pb j.priority
  enqueued_at ←
      or_raise (timestamp_to_datetime rt j.enqueued_at)
        (enqueued_at_not_representable j.enqueued_at)
  lease_expires_at ←
      or_raise (timestamp_to_datetime rt j.lease_expires_at)
        (lease_expires_at_not_representable j.lease_expires_at)
  custom ← custom_from_pb [] j.custom
  ok (record {
    payload = Option.map payload_from_pb j.payload;
    ctx = record {
      id = j.id;
      queue = j.queue;
      job_type = j.job_type;
      priority = priority;
      attempt = j.attempt;
      max_attempts = j.max_attempts;
      enqueued_at = enqueued_at;
      custom = custom;
      trace_context = trace_context_field j.trace_context;
      lease_expires_at = lease_expires_at;
      scheduled_at = scheduled_at_from_pb rt j.scheduled_at;
      lease = some (make_lease j.id j.attempt lease_expires_at worker_id);
    };
  })

-- `_CAUSE_FROM_PB.get(r.cause, DeadLetterCause.UNSPECIFIED)`
unfoldable pub cause_from_pb : ℕ → DeadLetterCause
cause_from_pb c =
    if c == 1
    then attempts_exhausted
    else if c == 2
    then rejected
    else if c == 3
    then lease_expired
    else if c == 4
    then admin
    else unspecified

unfoldable pub dead_letter_record_from_pb :
    Runtime → PbDeadLetterRecord → Result JobConversionError DeadLetterRecord
dead_letter_record_from_pb rt r = do
  j ← or_raise r.job missing_job
  raise_if (is_empty j.id) missing_id
  raise_if (is_empty j.job_type) missing_job_type
  priority ← priority_from_pb j.priority
  enqueued_at ←
      or_raise (timestamp_to_datetime rt j.enqueued_at)
        (enqueued_at_not_representable j.enqueued_at)
  failed_at ←
      or_raise (timestamp_to_datetime rt r.failed_at) (failed_at_not_representable r.failed_at)
  custom ← custom_from_pb [] j.custom
  ok (record {
    queue = j.queue;
    job_id = j.id;
    job_type = j.job_type;
    payload = Option.map payload_from_pb j.payload;
    priority = priority;
    max_attempts = j.max_attempts;
    custom = custom;
    trace_context = trace_context_field j.trace_context;
    enqueued_at = enqueued_at;
    scheduled_at = scheduled_at_from_pb rt j.scheduled_at;
    cause = cause_from_pb r.cause;
    failed_at = failed_at;
    final_attempt = r.final_attempt;
    last_reason = r.last_reason;
  })
