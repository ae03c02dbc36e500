-- ===== src/Convert/Outgoing.antt =====
-- Requests on their way to the server.
use sepp_py.Common.{
  ℕ, ℤ, pos, leb_ℤ, String, traverse, List, [], ◌∷◌, Dict, put, Option, none, some, Result, ok,
  ◌>>=◌, or_raise, if◌then◌else◌,
}
use mathlib.Core.Option
use sepp_py.Types.Time.{Datetime}
use sepp_py.Types.Priority.{Priority}
use sepp_py.Types.Requests.{Primitive, EnqueueRequest, ReserveOptions}
use sepp_py.Wire.WellKnown.{Timestamp}
use sepp_py.Wire.Messages.{PbPrimitiveValue, PbEnqueueRequest, PbReserveRequest}
use sepp_py.Wire.Runtime.{Runtime}
use sepp_py.Errors.Exceptions.{Raised, unfit}
use sepp_py.Convert.Time.{datetime_to_millis}
use sepp_py.Convert.Values.{primitive_to_pb, payload_to_pb, trace_context_to_pb}

-- `if v is not None: m.field = v` for an unsigned 32-bit field.
unfoldable pub set_uint32 : Runtime → Option ℤ → Result Raised (Option ℕ)
set_uint32 rt none = ok none
set_uint32 rt (some v) = or_raise (rt.uint32 v) unfit >>= λ n. ok (some n)

-- `int(req.priority)`
abbrev pub priority_value : Option Priority → Option ℤ
priority_value p = Option.map (λ q. q.value) p

-- The loop over `req.custom.items()`, into the map `m`.
unfoldable pub custom_to_pb :
    Runtime → Dict PbPrimitiveValue → Dict Primitive → Result Raised (Dict PbPrimitiveValue)
custom_to_pb rt m [] = ok m
custom_to_pb rt m ((key, value) ∷ items) =
    primitive_to_pb rt value >>= λ pv. custom_to_pb rt (put key pv m) items

-- Pre-epoch schedules are dropped.
unfoldable pub scheduled_at_to_pb : Runtime → Option Datetime → Option Timestamp
scheduled_at_to_pb rt none = none
scheduled_at_to_pb rt (some dt) =
    if leb_ℤ (pos 0) (datetime_to_millis dt) then some (rt.from_datetime dt) else none

unfoldable pub enqueue_request_to_pb : Runtime → EnqueueRequest → Result Raised PbEnqueueRequest
enqueue_request_to_pb rt req = do
  priority ← set_uint32 rt (priority_value req.priority)
  max_attempts ← set_uint32 rt req.max_attempts
  custom ← custom_to_pb rt [] req.custom
  ok (record {
    queue = req.queue;
    job_type = req.job_type;
    payload = Option.map payload_to_pb req.payload;
    idempotency_key = req.idempotency_key;
    priority = priority;
    max_attempts = max_attempts;
    trace_context = Option.map trace_context_to_pb req.trace_context;
    custom = custom;
    scheduled_at = scheduled_at_to_pb rt req.scheduled_at;
  })

-- Assignments of texts: one without a UTF-8 encoding is refused.
unfoldable pub set_text : Runtime → Option String → Result Raised (Option String)
set_text rt none = ok none
set_text rt (some s) = or_raise (rt.text s) unfit >>= λ t. ok (some t)

unfoldable pub texts_to_pb : Runtime → List String → Result Raised (List String)
texts_to_pb rt texts = traverse (λ s. or_raise (rt.text s) unfit) texts

unfoldable pub reserve_options_to_pb : Runtime → ReserveOptions → Result Raised PbReserveRequest
unfolding set_uint32 set_text texts_to_pb
reserve_options_to_pb rt opts = do
  queues ← texts_to_pb rt opts.queues
  worker_id ← set_text rt opts.worker_id
  max_jobs ← set_uint32 rt opts.max_jobs
  ok (record {
    queues = queues;
    wait_timeout = rt.from_timedelta opts.wait_timeout;
    lease_duration = rt.from_timedelta opts.lease_duration;
    worker_id = worker_id;
    max_jobs = max_jobs;
  })
