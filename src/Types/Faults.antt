-- ===== src/Types/Faults.antt =====
-- The built-in exceptions that the constructors of types.py and worker.py raise: each message of
-- the source is a constructor with the values that the message shows.
use sepp_py.Common.{ℕ, ℤ, Bool}

-- An argument that the source tests with `isinstance(value, int)`: `bool` is a subclass of `int`.
pub data PyArg : Type 0 where
  int : ℤ → PyArg
  bool : Bool → PyArg
  other : PyArg

-- The messages of `TraceContextError`.
pub data TraceFault : Type 0 where
  wrong_field_count bad_version bad_trace_id zero_trace_id bad_span_id zero_span_id : TraceFault
  bad_flags : TraceFault

-- `ValueError` with its subclasses `PriorityOutOfRangeError` and `TraceContextError`.
pub data ValueError : Type 0 where
  priority_out_of_range : (value : PyArg) → ValueError
  trace_context_error : TraceFault → ValueError
  empty_queue_name empty_job_type : ValueError
  no_queues : ValueError
  empty_queue_at : (i : ℕ) → ValueError
  lease_duration_too_short max_jobs_too_small empty_worker_id wait_timeout_too_short : ValueError
