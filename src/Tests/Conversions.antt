-- ===== src/Tests/Conversions.antt =====
-- A job on its way to the server, to the worker, and back from the dead-letter queue.
use sepp_py.Common.{
  eq_iff, str_eq, Bool-cases, inl, inr, ◌-ℤ◌, pos, [], ◌∷◌, Dict, none, some, ok, IsOk, ◌≡◌, ◌≢◌,
  ◌↔◌, refl,
}
use sepp_py.Types.Time.{utc}
use sepp_py.Types.Priority.{make_priority}
use sepp_py.Types.Trace.{
  TraceContext, is_hex, is_zeros, split_hyphen, check_fields, check_parts, validate_traceparent,
  make_trace_context,
}
use sepp_py.Types.Requests.{coerce_priority, Primitive, str, float, EnqueueRequest}
use sepp_py.Types.Jobs.{Job, DeadLetterCause, DeadLetterRecord, to_enqueue_request}
use sepp_py.Wire.Messages.{PbPrimitiveValue, PbEnqueueRequest, PbDeadLetterRecord}
use sepp_py.Convert.Decode.{IsDecodable, job_from_pb_iff}
use sepp_py.Common.{IsOk, ◌↔◌}
use sepp_py.Convert.Time.{timestamp_to_datetime, datetime_to_millis}
use sepp_py.Convert.Values.{
  primitive_to_pb, primitive_from_pb, payload_to_pb, payload_from_pb, trace_context_to_pb,
  trace_context_from_pb,
}
use sepp_py.Convert.Outgoing.{set_uint32, scheduled_at_to_pb, custom_to_pb, enqueue_request_to_pb}
use sepp_py.Convert.Incoming.{
  scheduled_at_from_pb, priority_from_pb, make_lease, cause_from_pb, custom_from_pb, job_from_pb,
  dead_letter_record_from_pb,
}
use sepp_py.Convert.Custom.Reordered.{SameMap, custom_from_pb-SameMap}
use sepp_py.Convert.Echo.{Grant, leased, KeepsPriority, job_from_pb-enqueue_request_to_pb}
use sepp_py.Convert.Replay.{Resent, to_enqueue_request_iff, to_enqueue_request-Resent}
use sepp_py.Tests.Reference.{reference, reference-IsLawful, noon, minute_later, job_1}

abbrev custom : Dict Primitive
custom = ("tenant", str "acme") ∷ ("rate", float 7) ∷ []

abbrev custom_sent : Dict PbPrimitiveValue
custom_sent =
    ("tenant", PbPrimitiveValue.string_value "acme")
    ∷ ("rate", PbPrimitiveValue.double_value 7)
    ∷ []

program : Unit {0}
unfolding custom_to_pb custom_from_pb enqueue_request_to_pb job_from_pb dead_letter_record_from_pb
    to_enqueue_request validate_traceparent check_parts split_hyphen check_fields is_hex is_zeros
    make_trace_context set_uint32 primitive_to_pb primitive_from_pb payload_to_pb payload_from_pb
    trace_context_to_pb trace_context_from_pb scheduled_at_to_pb scheduled_at_from_pb
    priority_from_pb make_priority coerce_priority make_lease cause_from_pb timestamp_to_datetime
    datetime_to_millis ◌-ℤ◌
program = tt

-- The same entries the other way round.
abbrev custom_reordered : Dict PbPrimitiveValue
custom_reordered =
    ("rate", PbPrimitiveValue.double_value 7)
    ∷ ("tenant", PbPrimitiveValue.string_value "acme")
    ∷ []

reordered-SameMap : SameMap custom_reordered custom_sent
reordered-SameMap k = elim (Bool-cases (str_eq "rate" k)) [
  | inl eq ↦ rw⁻¹ ((eq_iff "rate" k).0 eq) refl
  | inr ne ↦ rw ne refl
]

custom_from_pb-SameMap_example :
    (d : Dict Primitive) × (custom_from_pb [] custom_reordered ≡ ok d) × SameMap d custom
unfolding program
custom_from_pb-SameMap_example =
    custom_from_pb-SameMap reference custom custom_sent custom_reordered reference-IsLawful
      (refl, (refl, tt)) refl (refl, (refl, tt)) reordered-SameMap

abbrev trace : TraceContext
trace = record {
  traceparent = "00-4bf92f3577b34da6a3ce929d0e0e4736-00f067aa0ba902b7-01";
  tracestate = none;
}

abbrev request : EnqueueRequest
request = record {
  queue = "emails";
  job_type = "send_welcome";
  payload = some (record { body = 104 ∷ 105 ∷ []; encoding = "text/plain" });
  idempotency_key = none;
  priority = some (record { value = pos 7 });
  max_attempts = some (pos 4);
  custom = custom;
  trace_context = some trace;
  scheduled_at = none;
}

abbrev message : PbEnqueueRequest
message = record {
  queue = "emails";
  job_type = "send_welcome";
  payload = some (record { body = 104 ∷ 105 ∷ []; encoding = "text/plain" });
  idempotency_key = none;
  priority = some 7;
  max_attempts = some 4;
  trace_context = some (record {
    traceparent = "00-4bf92f3577b34da6a3ce929d0e0e4736-00f067aa0ba902b7-01";
    tracestate = none;
  });
  custom = custom_sent;
  scheduled_at = none;
}

abbrev grant : Grant
grant = record {
  id = "job-7";
  attempt = 1;
  enqueued_at = noon;
  lease_expires_at = minute_later;
  default_priority = 5;
  default_max_attempts = 3;
}

abbrev received : Job
received = record {
  payload = some (record { body = 104 ∷ 105 ∷ []; encoding = "text/plain" });
  ctx = record {
    id = "job-7";
    queue = "emails";
    job_type = "send_welcome";
    priority = record { value = pos 7 };
    attempt = 1;
    max_attempts = 4;
    enqueued_at = utc (pos 1600000000000000);
    custom = custom;
    trace_context = some trace;
    lease_expires_at = utc (pos 1600000060000000);
    scheduled_at = none;
    lease = some (record {
      job_id = "job-7";
      attempt = 1;
      worker_id = some "w1";
      known_expiry_ms = pos 1600000060000;
    });
  };
}

sent_message : enqueue_request_to_pb reference request ≡ ok message
unfolding program
sent_message = refl

valid_trace : validate_traceparent trace.traceparent ≡ ok tt
unfolding program
valid_trace = refl

received_job : job_from_pb reference (leased message grant) (some "w1") ≡ ok received
unfolding program
received_job = refl

job_from_pb-enqueue_request_to_pb_example :
    (received.payload ≡ request.payload)
    × (received.ctx.queue ≡ request.queue)
    × (received.ctx.job_type ≡ request.job_type)
    × (received.ctx.custom ≡ request.custom)
    × (received.ctx.trace_context ≡ request.trace_context)
    × KeepsPriority request.priority received.ctx.priority
job_from_pb-enqueue_request_to_pb_example =
    job_from_pb-enqueue_request_to_pb reference request message grant (some "w1") received
      reference-IsLawful (refl, (refl, tt)) valid_trace sent_message received_job

job_from_pb_iff_example : IsOk (job_from_pb reference job_1 none) ↔ IsDecodable reference job_1
job_from_pb_iff_example = job_from_pb_iff reference job_1 none

abbrev dead : PbDeadLetterRecord
dead = record {
  job = some job_1;
  cause = 1;
  failed_at = minute_later;
  final_attempt = 3;
  last_reason = some "no such user";
}

abbrev dead_record : DeadLetterRecord
dead_record = record {
  queue = "emails";
  job_id = "job-1";
  job_type = "send_welcome";
  payload = none;
  priority = record { value = pos 5 };
  max_attempts = 3;
  custom = ("tenant", str "acme") ∷ [];
  trace_context = none;
  enqueued_at = utc (pos 1600000000000000);
  scheduled_at = none;
  cause = DeadLetterCause.attempts_exhausted;
  failed_at = utc (pos 1600000060000000);
  final_attempt = 3;
  last_reason = some "no such user";
}

abbrev replay : EnqueueRequest
replay = record {
  queue = "emails";
  job_type = "send_welcome";
  payload = none;
  idempotency_key = none;
  priority = some (record { value = pos 5 });
  max_attempts = some (pos 3);
  custom = ("tenant", str "acme") ∷ [];
  trace_context = none;
  scheduled_at = none;
}

abbrev replay_message : PbEnqueueRequest
replay_message = record {
  queue = "emails";
  job_type = "send_welcome";
  payload = none;
  idempotency_key = none;
  priority = some 5;
  max_attempts = some 3;
  trace_context = none;
  custom = ("tenant", PbPrimitiveValue.string_value "acme") ∷ [];
  scheduled_at = none;
}

to_enqueue_request_iff_example : IsOk (to_enqueue_request dead_record) ↔ (job_1.queue ≢ "")
unfolding program
to_enqueue_request_iff_example = to_enqueue_request_iff reference dead job_1 dead_record refl refl

to_enqueue_request-Resent_example : Resent job_1 replay_message
unfolding program
to_enqueue_request-Resent_example =
    to_enqueue_request-Resent reference dead job_1 dead_record replay replay_message
      reference-IsLawful refl refl refl refl
