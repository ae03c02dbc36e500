-- ===== src/Types/Requests.antt =====
-- `Payload`, `EnqueueRequest`, `EnqueueAck`, `ReserveOptions` and `ServerInfo`.
use sepp_py.Common.{
  ℕ, suc, ℤ, pos, leb_ℤ, ltb_ℤ, Bool, true, false, List, [], ◌∷◌, String, is_empty, Option, none,
  some, Dict, Result, ok, err, ◌>>=◌, ◌>>◌, raise_if, if◌then◌else◌,
}
use sepp_py.Types.Time.{Timedelta, Datetime, seconds}
use sepp_py.Types.Faults.{
  PyArg, ValueError, empty_queue_name, empty_job_type, no_queues, empty_queue_at,
  lease_duration_too_short, max_jobs_too_small, empty_worker_id,
}
use sepp_py.Types.Priority.{Priority, make_priority}
use sepp_py.Types.Trace.{TraceContext}

-- A value of a job's `custom` map. A float is its bit pattern, which the client only carries;
-- `foreign` is a value outside the annotated union, with its type's name.
pub data Primitive : Type 0 where
  str : String → Primitive
  int : ℤ → Primitive
  float : ℕ → Primitive
  bool : Bool → Primitive
  foreign : String → Primitive

pub record Payload : Type 0 where
  pub body : List ℕ  -- the field `data`
  pub encoding : String

-- What a caller may pass as `priority`: None, a Priority, or a bare int (a bool is one).
pub data PriorityArg : Type 0 where
  absent : PriorityArg
  given : Priority → PriorityArg
  bare_int : ℤ → PriorityArg
  bare_bool : Bool → PriorityArg

pub record EnqueueArgs : Type 0 where
  pub queue : String
  pub job_type : String
  pub payload : Option Payload
  pub idempotency_key : Option String
  pub priority : PriorityArg
  pub max_attempts : Option ℤ
  pub custom : Dict Primitive
  pub trace_context : Option TraceContext
  pub scheduled_at : Option Datetime

pub record EnqueueRequest : Type 0 where
  pub queue : String
  pub job_type : String
  pub payload : Option Payload
  pub idempotency_key : Option String
  pub priority : Option Priority
  pub max_attempts : Option ℤ
  pub custom : Dict Primitive
  pub trace_context : Option TraceContext
  pub scheduled_at : Option Datetime

-- The last test of `__post_init__`: a bare int is coerced.
unfoldable pub coerce_priority : PriorityArg → Result ValueError (Option Priority)
unfolding make_priority
coerce_priority absent = ok none
coerce_priority (given p) = ok (some p)
coerce_priority (bare_int v) = make_priority (PyArg.int v) >>= λ p. ok (some p)
coerce_priority (bare_bool b) = make_priority (PyArg.bool b) >>= λ p. ok (some p)

-- The dataclass constructor of `EnqueueRequest` with its `__post_init__`.
unfoldable pub make_enqueue_request : EnqueueArgs → Result ValueError EnqueueRequest
make_enqueue_request a = do
  raise_if (is_empty a.queue) empty_queue_name
  raise_if (is_empty a.job_type) empty_job_type
  priority ← coerce_priority a.priority
  ok (record {
    queue = a.queue;
    job_type = a.job_type;
    payload = a.payload;
    idempotency_key = a.idempotency_key;
    priority = priority;
    max_attempts = a.max_attempts;
    custom = a.custom;
    trace_context = a.trace_context;
    scheduled_at = a.scheduled_at;
  })

pub record EnqueueAck : Type 0 where
  pub job_id : String
  pub deduplicated : Bool

-- Also the arguments of its constructor, which keeps them all.
pub record ReserveOptions : Type 0 where
  pub queues : List String
  pub lease_duration : Timedelta
  pub wait_timeout : Timedelta
  pub worker_id : Option String
  pub max_jobs : Option ℤ

abbrev pub default_wait_timeout : Timedelta
default_wait_timeout = seconds 30

-- `for i, q in enumerate(self.queues)` from index `i`.
unfoldable pub check_queues : ℕ → List String → Result ValueError (Unit {0})
check_queues i [] = ok tt
check_queues i (q ∷ qs) =
    let later = check_queues (suc i) qs in if is_empty q then err (empty_queue_at i) else later

abbrev pub is_nil {ℓ} : {A : Type ℓ} → List A → Bool
is_nil [] = true
is_nil (x ∷ xs) = false

abbrev pub too_few : Option ℤ → Bool
too_few none = false
too_few (some n) = ltb_ℤ n (pos 1)

abbrev pub blank : Option String → Bool
blank none = false
blank (some s) = is_empty s

-- `ReserveOptions.__post_init__`
unfoldable pub make_reserve_options : ReserveOptions → Result ValueError ReserveOptions
unfolding check_queues
make_reserve_options o = do
  raise_if (is_nil o.queues) no_queues
  check_queues 0 o.queues
  raise_if (leb_ℤ o.lease_duration (pos 0)) lease_duration_too_short
  raise_if (too_few o.max_jobs) max_jobs_too_small
  raise_if (blank o.worker_id) empty_worker_id
  ok o

pub record ServerInfo : Type 0 where
  pub version : String
  pub supported_protocol_versions : List String
  pub server_time : Datetime
  pub restricts_encodings : Bool
  pub allowed_encodings : List String
  pub max_payload_bytes : ℕ
  pub max_custom_entries : ℕ
  pub max_custom_total_bytes : ℕ
  pub max_custom_key_bytes : ℕ
  pub max_queue_name_bytes : ℕ
  pub max_job_type_bytes : ℕ
  pub max_idempotency_key_bytes : ℕ
  pub max_schedule_horizon : Timedelta
  pub max_enqueue_batch : ℕ
  pub max_reserve_batch : ℕ
  pub max_reserve_queues : ℕ
  pub max_wait_timeout : Timedelta
  pub max_lease_duration : Timedelta
  pub strict_queues : Bool
  pub dead_letter_retention_enabled : Bool
