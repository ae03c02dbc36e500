-- ===== src/Client/Enqueue/Traced.antt =====
-- The messages of a batch, with the trace context that each carries.
use sepp_py.Common.{
  List, [], ◌∷◌, map, String, Option, none, some, ok, ◌≡◌, refl, ap, inl, inr, Option-cases,
}
use sepp_py.Types.Requests.{EnqueueRequest}
use sepp_py.Wire.Messages.{PbTraceContext, PbEnqueueRequest}
use sepp_py.Convert.Outgoing.{enqueue_request_to_pb}
use sepp_py.Client.Env.{Env}
use sepp_py.Client.Trace.{truthy, current_trace_headers, inject_trace, inject_trace_into_jobs}

abbrev pub context_of : String × Option String → PbTraceContext
context_of (tp, ts) = record { traceparent = tp; tracestate = truthy ts }

-- The trace context of the span in which the call runs, where there is one.
abbrev pub span_context : (env : Env) → String → Option PbTraceContext
span_context env span = elim (current_trace_headers env span) [
  | none ↦ none
  | some headers ↦ some (context_of headers)
]

abbrev pub first_some : {A : Type 0} → Option A → Option A → Option A
first_some (some a) o = some a
first_some none o = o

-- The message of a job: its conversion, with the job's own trace context, and else the span's.
abbrev pub IsSent : Env → String → EnqueueRequest → PbEnqueueRequest → Type 0
IsSent env span job s =
    (pb : PbEnqueueRequest) × (enqueue_request_to_pb env.runtime job ≡ ok pb)
    × (s ≡ record pb { trace_context = first_some pb.trace_context (span_context env span) })

abbrev pub traced : (env : Env) → String → PbEnqueueRequest → PbEnqueueRequest
traced env span pb = record pb {
  trace_context = first_some pb.trace_context (span_context env span);
}

kept_trace : (o : Option PbTraceContext) → first_some o none ≡ o
kept_trace none = refl
kept_trace (some t) = refl

inject_trace-eq :
    (headers : String × Option String) (pb : PbEnqueueRequest)
    → inject_trace headers.0 headers.1 pb
      ≡ record pb { trace_context = first_some pb.trace_context (some (context_of headers)) }
unfolding inject_trace
inject_trace-eq headers pb = elim (Option-cases pb.trace_context) [
  | inl e ↦ rw (e, inject_trace) refl
  | inr (t, e) ↦ simp (e, inject_trace) (ap (λ o. record pb { trace_context = o }) e)
]

-- What the headers make of a message, and of the messages of a batch.
abbrev with_headers : Option (String × Option String) → PbEnqueueRequest → PbEnqueueRequest
with_headers h pb = record pb {
  trace_context =
      first_some pb.trace_context
        (elim h [ none ↦ none | some headers ↦ some (context_of headers) ]);
}

map-with_headers-none : (pbs : List PbEnqueueRequest) → pbs ≡ map (with_headers none) pbs
map-with_headers-none [] = refl
map-with_headers-none (pb ∷ pbs) =
    simp (kept_trace pb.trace_context) (ap (λ rest. pb ∷ rest) (map-with_headers-none pbs))

map-with_headers-some :
    (tp : String) (ts : Option String) (pbs : List PbEnqueueRequest)
    → map (inject_trace tp ts) pbs ≡ map (with_headers (some (tp, ts))) pbs
map-with_headers-some tp ts [] = refl
map-with_headers-some tp ts (pb ∷ pbs) =
    cc (inject_trace-eq (tp, ts) pb, map-with_headers-some tp ts pbs)

injected :
    (h : Option (String × Option String)) (pbs : List PbEnqueueRequest)
    → (elim h [
      | none ↦ pbs
      | some (traceparent, tracestate) ↦ map (inject_trace traceparent tracestate) pbs
    ])
      ≡ map (with_headers h) pbs
injected none pbs = map-with_headers-none pbs
injected (some (tp, ts)) pbs = map-with_headers-some tp ts pbs

pub inject_trace_into_jobs-traced :
    (env : Env) (span : String) (pbs : List PbEnqueueRequest)
    → inject_trace_into_jobs env span pbs ≡ map (traced env span) pbs
unfolding inject_trace_into_jobs
inject_trace_into_jobs-traced env span pbs = injected (current_trace_headers env span) pbs
