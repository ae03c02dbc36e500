-- ===== src/Types/Text.antt =====
-- The texts of the domain types: what `str(…)` gives, and the messages of their exceptions.
use Prim.Native.String.{◌++◌}
use sepp_py.Common.{ℕ, ℤ, String}
use sepp_py.Types.Faults.{
  PyArg, TraceFault, wrong_field_count, bad_version, bad_trace_id, zero_trace_id, bad_span_id,
  zero_span_id, bad_flags, ValueError, priority_out_of_range, trace_context_error, empty_queue_name,
  empty_job_type, no_queues, empty_queue_at, lease_duration_too_short, max_jobs_too_small,
  empty_worker_id, wait_timeout_too_short,
}
use sepp_py.Types.Priority.{Priority}
use sepp_py.Types.Jobs.{JobCtx}

-- How Python writes numbers and other arguments: `str(v)`.
pub record Shower : Type 0 where
  pub show : ℕ → String
  pub show_int : ℤ → String
  pub show_arg : PyArg → String

unfoldable pub trace_fault_text : TraceFault → String
trace_fault_text wrong_field_count = "invalid traceparent: expected 4 hyphen-separated fields"
trace_fault_text bad_version = "invalid traceparent: version must be 2 hex chars"
trace_fault_text bad_trace_id = "invalid traceparent: trace_id must be 32 hex chars"
trace_fault_text zero_trace_id = "invalid traceparent: trace_id must not be all zeros"
trace_fault_text bad_span_id = "invalid traceparent: span_id must be 16 hex chars"
trace_fault_text zero_span_id = "invalid traceparent: span_id must not be all zeros"
trace_fault_text bad_flags = "invalid traceparent: flags must be 2 hex chars"

module _ (s : Shower) where
  -- `Priority.__str__`
  unfoldable pub show_priority : Priority → String
  show_priority p = s.show_int p.value

  -- `JobCtx.__str__`
  unfoldable pub show_ctx : JobCtx → String
  show_ctx ctx =
      "JobCtx(id="
      ++ ctx.id
      ++ ", job_type="
      ++ ctx.job_type
      ++ ", attempt="
      ++ s.show ctx.attempt
      ++ "/"
      ++ s.show ctx.max_attempts
      ++ ", priority="
      ++ s.show_int ctx.priority.value
      ++ ")"

  unfoldable pub value_error_text : ValueError → String
  unfolding trace_fault_text
  value_error_text (priority_out_of_range value) = "priority must be 0-9, got " ++ s.show_arg value
  value_error_text (trace_context_error fault) = trace_fault_text fault
  value_error_text empty_queue_name = "queue name must not be empty"
  value_error_text empty_job_type = "job type must not be empty"
  value_error_text no_queues = "at least one queue must be specified"
  value_error_text (empty_queue_at i) = "queue name at index " ++ s.show i ++ " must not be empty"
  value_error_text lease_duration_too_short = "lease_duration must be at least 1ms"
  value_error_text max_jobs_too_small = "max_jobs must be at least 1"
  value_error_text empty_worker_id = "worker_id must not be empty when set"
  value_error_text wait_timeout_too_short = "wait_timeout must be at least 1ms"
