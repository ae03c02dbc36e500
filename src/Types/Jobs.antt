-- ===== src/Types/Jobs.antt =====
-- `JobCtx`, `Job` and `DeadLetterRecord`, and client.py's `Lease`, which a context carries.
use sepp_py.Common.{ℕ, ℤ, pos, String, Option, none, some, Dict, Result, ◌==◌, if◌then◌else◌}
use sepp_py.Types.Time.{Datetime}
use sepp_py.Types.Faults.{ValueError}
use sepp_py.Types.Priority.{Priority}
use sepp_py.Types.Trace.{TraceContext}
use sepp_py.Types.Requests.{Primitive, Payload, given, EnqueueRequest, make_enqueue_request}

-- `Lease`, less its reference to the client; its one mutable field is `known_expiry_ms`.
pub record Lease : Type 0 where
  pub job_id : String
  pub attempt : ℕ
  pub worker_id : Option String
  pub known_expiry_ms : ℤ

pub record JobCtx : Type 0 where
  pub id : String
  pub queue : String
  pub job_type : String
  pub priority : Priority
  pub attempt : ℕ
  pub max_attempts : ℕ
  pub enqueued_at : Datetime
  pub custom : Dict Primitive
  pub trace_context : Option TraceContext
  pub lease_expires_at : Datetime
  pub scheduled_at : Option Datetime
  pub lease : Option Lease

pub record Job : Type 0 where
  pub payload : Option Payload
  pub ctx : JobCtx

pub data DeadLetterCause : Type 0 where
  unspecified attempts_exhausted rejected lease_expired admin : DeadLetterCause

pub record DeadLetterRecord : Type 0 where
  pub queue : String
  pub job_id : String
  pub job_type : String
  pub payload : Option Payload
  pub priority : Priority
  pub max_attempts : ℕ
  pub custom : Dict Primitive
  pub trace_context : Option TraceContext
  pub enqueued_at : Datetime
  pub scheduled_at : Option Datetime
  pub cause : DeadLetterCause
  pub failed_at : Datetime
  pub final_attempt : ℕ
  pub last_reason : Option String

-- `n or None`
abbrev pub nonzero : ℕ → Option ℤ
nonzero n = if n == 0 then none else some (pos n)

unfoldable pub to_enqueue_request : DeadLetterRecord → Result ValueError EnqueueRequest
unfolding make_enqueue_request
to_enqueue_request r = make_enqueue_request (record {
  queue = r.queue;
  job_type = r.job_type;
  payload = r.payload;
  idempotency_key = none;
  priority = given r.priority;
  max_attempts = nonzero r.max_attempts;
  custom = r.custom;
  trace_context = r.trace_context;
  scheduled_at = none;
})
