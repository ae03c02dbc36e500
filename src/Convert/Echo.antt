-- ===== src/Convert/Echo.antt =====
-- A job from the producer's request, over the wire, to the worker's context.
use sepp_py.Common.{
  ℕ, [], String, Option, none, some, Result, ok, ◌≡◌, refl, sym, ap, ◌∙◌, arith, inl, inr,
  Option-cases,
}
use mathlib.Core.Option
use sepp_py.Types.Priority.{Priority, make_priority}
use sepp_py.Types.Trace.{TraceContext, validate_traceparent, make_trace_context}
use sepp_py.Types.Requests.{Payload, EnqueueRequest}
use sepp_py.Types.Jobs.{Job}
use sepp_py.Wire.WellKnown.{Timestamp}
use sepp_py.Wire.Messages.{PbEnqueueRequest, PbJob}
use sepp_py.Wire.Runtime.{Runtime, IsLawful}
use sepp_py.Convert.Values.{
  payload_to_pb, payload_from_pb, trace_context_to_pb, trace_context_from_pb,
}
use sepp_py.Convert.Outgoing.{priority_value, set_uint32, custom_to_pb, enqueue_request_to_pb}
use sepp_py.Convert.Incoming.{
  make_lease, priority_from_pb, custom_from_pb, trace_context_field, job_from_pb,
}
use sepp_py.Convert.Custom.{Distinct, custom_from_pb-custom_to_pb}

-- What a server adds when it leases a job.
pub record Grant : Type 0 where
  pub id : String
  pub attempt : ℕ
  pub enqueued_at : Timestamp
  pub lease_expires_at : Timestamp
  pub default_priority : ℕ
  pub default_max_attempts : ℕ

abbrev or_default : ℕ → Option ℕ → ℕ
or_default d none = d
or_default d (some n) = n

-- The job that a server hands out for a request: the request's fields are copied.
abbrev pub leased : PbEnqueueRequest → Grant → PbJob
leased m g = record {
  id = g.id;
  job_type = m.job_type;
  payload = m.payload;
  priority = or_default g.default_priority m.priority;
  trace_context = m.trace_context;
  enqueued_at = g.enqueued_at;
  attempt = g.attempt;
  max_attempts = or_default g.default_max_attempts m.max_attempts;
  lease_expires_at = g.lease_expires_at;
  custom = m.custom;
  scheduled_at = m.scheduled_at;
  queue = m.queue;
}

-- A trace context that its constructor has accepted, if there is one.
abbrev pub IsValidTrace : Option TraceContext → Type 0
IsValidTrace none = Unit
IsValidTrace (some tc) = validate_traceparent tc.traceparent ≡ ok tt

-- The fields of a decoded job.
pub job_from_pb-fields :
    (rt : Runtime) (j : PbJob) (worker_id : Option String) {job : Job}
    → job_from_pb rt j worker_id ≡ ok job
    → record {
      payload : job.payload ≡ Option.map payload_from_pb j.payload;
      queue : job.ctx.queue ≡ j.queue;
      job_type : job.ctx.job_type ≡ j.job_type;
      trace_context : job.ctx.trace_context ≡ trace_context_field j.trace_context;
      custom : custom_from_pb [] j.custom ≡ ok job.ctx.custom;
      priority : priority_from_pb j.priority ≡ ok job.ctx.priority;
      lease : job.ctx.lease ≡ some (make_lease j.id j.attempt job.ctx.lease_expires_at worker_id);
    }
unfolding job_from_pb
job_from_pb-fields rt j worker_id h = ground arith

-- The fields of a request on the wire.
pub enqueue_request_to_pb-fields :
    (rt : Runtime) (req : EnqueueRequest) {m : PbEnqueueRequest}
    → enqueue_request_to_pb rt req ≡ ok m
    → record {
      payload : m.payload ≡ Option.map payload_to_pb req.payload;
      queue : m.queue ≡ req.queue;
      job_type : m.job_type ≡ req.job_type;
      trace_context : m.trace_context ≡ Option.map trace_context_to_pb req.trace_context;
      custom : custom_to_pb rt [] req.custom ≡ ok m.custom;
      priority : set_uint32 rt (priority_value req.priority) ≡ ok m.priority;
      idempotency_key : m.idempotency_key ≡ req.idempotency_key;
    }
unfolding enqueue_request_to_pb
enqueue_request_to_pb-fields rt req h = ground arith

ok-injective : {E A : Type 0} {a b : A} → Path (Result E A) (ok a) (ok b) → a ≡ b
ok-injective h = cc

payload_echo : (p : Option Payload) → Option.map payload_from_pb (Option.map payload_to_pb p) ≡ p
unfolding payload_from_pb payload_to_pb
payload_echo none = refl
payload_echo (some p) = refl

trace_context_echo :
    (tc : Option TraceContext)
    → IsValidTrace tc
    → trace_context_field (Option.map trace_context_to_pb tc) ≡ tc
unfolding trace_context_to_pb trace_context_from_pb make_trace_context
trace_context_echo none v = refl
trace_context_echo (some tc) v = ground arith

priority_echo :
    (rt : Runtime) (p q : Priority) (d : ℕ) (n : Option ℕ)
    → IsLawful rt
    → set_uint32 rt (some p.value) ≡ ok n
    → priority_from_pb (or_default d n) ≡ ok q
    → q ≡ p
unfolding set_uint32 priority_from_pb make_priority
priority_echo rt p q d n law h k = elim (Option-cases (rt.uint32 p.value)) [
  | inl e ↦ ground arith
  | inr (v, e) ↦ ground (arith, law.uint32_exact p.value v e)
]

-- The job has the priority that the request gave, if it gave one.
abbrev pub KeepsPriority : Option Priority → Priority → Type 0
KeepsPriority none q = Unit
KeepsPriority (some p) q = q ≡ p

priority_kept :
    (rt : Runtime) (p : Option Priority) (q : Priority) (d : ℕ) (n : Option ℕ)
    → IsLawful rt
    → set_uint32 rt (priority_value p) ≡ ok n
    → priority_from_pb (or_default d n) ≡ ok q
    → KeepsPriority p q
priority_kept rt none q d n law h k = tt
priority_kept rt (some p) q d n law h k = priority_echo rt p q d n law h k

-- What the producer put into a request reaches the worker's handler unchanged: the payload, the
-- queue, the job type, the custom map, a valid trace context, and a priority that was given. The
-- request is one that can be sent, and the job one that can be decoded.
pub job_from_pb-enqueue_request_to_pb :
    (rt : Runtime) (req : EnqueueRequest) (m : PbEnqueueRequest) (g : Grant)
    (worker_id : Option String) (job : Job)
    → IsLawful rt
    → Distinct req.custom
    → IsValidTrace req.trace_context
    → enqueue_request_to_pb rt req ≡ ok m
    → job_from_pb rt (leased m g) worker_id ≡ ok job
    → (job.payload ≡ req.payload)
      × (job.ctx.queue ≡ req.queue)
      × (job.ctx.job_type ≡ req.job_type)
      × (job.ctx.custom ≡ req.custom)
      × (job.ctx.trace_context ≡ req.trace_context)
      × KeepsPriority req.priority job.ctx.priority
job_from_pb-enqueue_request_to_pb rt req m g worker_id job law distinct valid sent read =
    let wire = enqueue_request_to_pb-fields rt req sent in
    let got = job_from_pb-fields rt (leased m g) worker_id read in
    (
      got.payload ∙ ap (Option.map payload_from_pb) wire.payload ∙ payload_echo req.payload,
      got.queue ∙ wire.queue,
      got.job_type ∙ wire.job_type,
      ok-injective (
          sym got.custom
          ∙ custom_from_pb-custom_to_pb rt req.custom m.custom law distinct wire.custom),
      got.trace_context
          ∙ ap trace_context_field wire.trace_context
          ∙ trace_context_echo req.trace_context valid,
      priority_kept rt req.priority job.ctx.priority g.default_priority m.priority law wire.priority
          got.priority,
    )
