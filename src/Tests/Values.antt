-- ===== src/Tests/Values.antt =====
-- The constructors, the trace context, the code sets and the times.
use sepp_py.Common.{pos, true, [], ◌∷◌, String, none, some, ok, ◌≡◌, ◌≢◌, ◌↔◌, refl}
use sepp_py.Types.Time.{Datetime, seconds}
use sepp_py.Types.Faults.{PyArg}
use sepp_py.Types.Priority.{Priority, make_priority}
use sepp_py.Types.Trace.{codes, validate_traceparent}
use sepp_py.Types.Trace.Shape.{IsTraceparent, validate_traceparent_iff}
use sepp_py.Types.Requests.{EnqueueArgs, bare_int, ReserveOptions}
use sepp_py.Errors.Codes.{RpcError, cancelled, failed_precondition, retryable_codes}
use sepp_py.Errors.Mapping.{client_error_from_rpc}
use sepp_py.Errors.Laws.{IsTransient, retryable_codes_iff}

abbrev top_priority : Priority
top_priority = record { value = pos 9 }

make_priority_nine : make_priority (PyArg.int (pos 9)) ≡ ok top_priority
unfolding make_priority
make_priority_nine = refl

abbrev welcome : EnqueueArgs
welcome = record {
  queue = "emails";
  job_type = "send_welcome";
  payload = none;
  idempotency_key = none;
  priority = bare_int (pos 10);
  max_attempts = none;
  custom = [];
  trace_context = none;
  scheduled_at = none;
}

abbrev poll : ReserveOptions
poll = record {
  queues = "emails" ∷ [];
  lease_duration = seconds 60;
  wait_timeout = seconds 30;
  worker_id = none;
  max_jobs = some (pos 4);
}

abbrev header : String
header = "00-4bf92f3577b34da6a3ce929d0e0e4736-00f067aa0ba902b7-01"

validate_traceparent_iff_example :
    (validate_traceparent header ≡ ok tt) ↔ IsTraceparent (codes header)
validate_traceparent_iff_example = validate_traceparent_iff header

abbrev refused : RpcError
refused = record { code = failed_precondition; details = none }

retryable_codes_iff_example :
    (retryable_codes failed_precondition ≡ true)
    ↔ (IsTransient (client_error_from_rpc refused) × (failed_precondition ≢ cancelled))
retryable_codes_iff_example = retryable_codes_iff refused

-- Noon at two hours east of Greenwich.
abbrev east : Datetime
east = record { wall = pos 1600000000000001; tzinfo = some (seconds 7200) }

abbrev scheduled : Datetime
scheduled = record { wall = pos 1600000000000000; tzinfo = some (seconds 7200) }
