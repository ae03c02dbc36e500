-- ===== src/Tests/Calls.antt =====
-- Calls of the client against the scripted server.
use sepp_py.Common.{◌-ℤ◌, ◌+ℤ◌, pos, [], ◌∷◌, false, none, some, ok, err, ◌≡◌, inl, refl}
use sepp_py.Types.Requests.{EnqueueRequest, EnqueueAck, Primitive, ReserveOptions}
use sepp_py.Types.Time.{seconds, utc}
use sepp_py.Types.Jobs.{Job}
use sepp_py.Wire.Messages.{PbEnqueueRequest, PbReserveRequest}
use sepp_py.Errors.Codes.{
  RpcError, unavailable, deadline_exceeded, retryable_codes, keyless_enqueue_retryable_codes,
}
use sepp_py.Errors.Exceptions.{sepp, client_error, transport}
use sepp_py.Convert.Outgoing.{
  set_text, texts_to_pb, custom_to_pb, scheduled_at_to_pb, set_uint32, enqueue_request_to_pb,
  reserve_options_to_pb,
}
use sepp_py.Convert.Incoming.{
  priority_from_pb, scheduled_at_from_pb, make_lease, custom_from_pb, job_from_pb,
}
use sepp_py.Convert.Rejection.{enqueue_ack_from_pb}
use sepp_py.Convert.Time.{timestamp_to_datetime, datetime_to_millis}
use sepp_py.Convert.Values.{primitive_from_pb}
use sepp_py.Types.Priority.{make_priority}
use sepp_py.Client.Policy.{World}
use sepp_py.Client.Retry.{pause, with_retry}
use sepp_py.Client.Trace.{call, inject_trace_into_jobs, current_trace_headers}
use sepp_py.Client.Enqueue.{
  acked, enqueue_retryable_codes, job_result_from_pb, transmit, enqueue_batch, enqueue_atomic,
}
use sepp_py.Client.Enqueue.Keyless.{keyless_enqueue_batch}
use sepp_py.Client.Reserve.{reserve_deadline, jobs_from_pb, reserve}
use sepp_py.Client.Lease.{set_attempt, ack}
use sepp_py.Types.Time.{max_timedelta}
use sepp_py.Errors.Exceptions.{overflow_error, unfit}
use sepp_py.Tests.Reference.{scripted, client, world}

program : Unit {0}
unfolding enqueue_request_to_pb reserve_options_to_pb job_from_pb with_retry call transmit
    job_result_from_pb enqueue_batch enqueue_atomic reserve custom_to_pb scheduled_at_to_pb
    set_uint32 enqueue_retryable_codes inject_trace_into_jobs current_trace_headers
    keyless_enqueue_retryable_codes pause enqueue_ack_from_pb retryable_codes priority_from_pb
    make_priority timestamp_to_datetime primitive_from_pb scheduled_at_from_pb make_lease
    datetime_to_millis ◌-ℤ◌ ◌+ℤ◌ reserve_deadline set_text texts_to_pb jobs_from_pb custom_from_pb
program = tt

abbrev pub request : EnqueueRequest
request = record {
  queue = "emails";
  job_type = "send_welcome";
  payload = none;
  idempotency_key = none;
  priority = none;
  max_attempts = none;
  custom = [];
  trace_context = none;
  scheduled_at = none;
}

abbrev pub message : PbEnqueueRequest
message = record {
  queue = "emails";
  job_type = "send_welcome";
  payload = none;
  idempotency_key = none;
  priority = none;
  max_attempts = none;
  trace_context = none;
  custom = [];
  scheduled_at = none;
}

abbrev pub receipt : EnqueueAck
receipt = record { job_id = "job-1"; deduplicated = false }

-- One failure, one sleep of ten milliseconds, then a success.
abbrev pub rested : World scripted
rested = record { server = []; sleeps = 10000 ∷ []; draws = 0 }

pub enqueue_after_failure :
    enqueue_batch scripted client (request ∷ []) (world (unavailable ∷ []))
    ≡ (ok (acked receipt ∷ []), rested)
unfolding program
enqueue_after_failure = refl

pub atomic_after_failure :
    enqueue_atomic scripted client (request ∷ []) (world (unavailable ∷ []))
    ≡ (ok (receipt ∷ []), rested)
unfolding program
atomic_after_failure = refl

abbrev pub reserve_request : PbReserveRequest
reserve_request = record {
  queues = "emails" ∷ [];
  wait_timeout = record { seconds = pos 30; nanos = pos 0 };
  lease_duration = record { seconds = pos 60; nanos = pos 0 };
  worker_id = some "w1";
  max_jobs = none;
}

abbrev late : RpcError
late = record { code = deadline_exceeded; details = none }

keyless_enqueue_batch_example :
    enqueue_batch scripted client (request ∷ []) (world (deadline_exceeded ∷ []))
    ≡ (err (sepp (client_error (transport ""))), world [])
unfolding program
keyless_enqueue_batch_example =
    keyless_enqueue_batch scripted client (request ∷ []) (message ∷ [])
      (world (deadline_exceeded ∷ [])) (world []) late refl refl (inl refl) refl

abbrev pub poll : ReserveOptions
poll = record {
  queues = "emails" ∷ [];
  lease_duration = seconds 60;
  wait_timeout = seconds 30;
  worker_id = some "w1";
  max_jobs = none;
}

abbrev pub received : Job
received = record {
  payload = none;
  ctx = record {
    id = "job-1";
    queue = "emails";
    job_type = "send_welcome";
    priority = record { value = pos 5 };
    attempt = 1;
    max_attempts = 3;
    enqueued_at = utc (pos 1600000000000000);
    custom = ("tenant", Primitive.str "acme") ∷ [];
    trace_context = none;
    lease_expires_at = utc (pos 1600000060000000);
    scheduled_at = none;
    lease = some (record {
      job_id = "job-1";
      attempt = 1;
      worker_id = some "w1";
      known_expiry_ms = pos 1600000060000;
    });
  };
}

pub reserved : reserve scripted client poll (world []) ≡ (ok (some (received ∷ [])), world [])
unfolding program
reserved = refl

-- A wait timeout that leaves no room for the slack, and an attempt that does not fit its field.
too_late : reserve_deadline max_timedelta ≡ err overflow_error
unfolding reserve_deadline ◌+ℤ◌
too_late = refl

unsent :
    ack scripted client (record received.ctx { attempt = 4294967296 }) (world [])
    ≡ (err unfit, world [])
unfolding ack set_attempt
unsent = refl
