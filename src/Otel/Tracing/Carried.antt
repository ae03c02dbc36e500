-- ===== src/Otel/Tracing/Carried.antt =====
-- The trace context that a job carries from its producer to a worker.
use sepp_py.Common.{
  Bool, Dict, String, is_empty_iff, Option, none, some, get, if◌then◌else◌, ◌≡◌, ◌≢◌, refl, ap, sym,
  ◌∙◌, arith, true, false,
}
use sepp_py.Types.Requests.{EnqueueRequest}
use sepp_py.Wire.Messages.{PbEnqueueRequest}
use sepp_py.Convert.Values.{trace_context_from_pb}
use sepp_py.Convert.Incoming.{trace_context_field}
use sepp_py.Convert.Echo.{enqueue_request_to_pb-fields}
use sepp_py.Client.Env.{Env}
use sepp_py.Client.Trace.{truthy, headers_of, current_trace_headers}
use sepp_py.Client.Enqueue.Traced.{IsSent, context_of, span_context, first_some}
use sepp_py.Otel.Tracing.{context_of_headers, trace_context_from_current}

truthy-kept : (o : Option String) → o ≢ some "" → truthy o ≡ o
truthy-kept none h = refl
truthy-kept (some s) h = rw ((is_empty_iff s).1 (λ e. h (ap some e))) refl

-- The headers of a span, in a message and read again.
headers_carried :
    (h : Option (String × Option String))
    → ((tp : String) (ts : Option String) → h ≡ some (tp, ts) → ts ≢ some "")
    → trace_context_field (elim h [ none ↦ none | some headers ↦ some (context_of headers) ])
      ≡ context_of_headers h
unfolding trace_context_from_pb
headers_carried none k = refl
headers_carried (some (tp, ts)) k = rw (truthy-kept ts (k tp ts refl)) refl

headers_of-tracestate :
    (parent state : Option String) (tp : String) (ts : Option String)
    → ◌≡◌ {A = Option (String × Option String)}
        (elim parent [ none ↦ none | some p ↦ some (p, state) ])
        (some (tp, ts))
    → ts ≡ state
headers_of-tracestate none state tp ts h = cc
headers_of-tracestate (some p) state tp ts h = cc

headers-tracestate :
    (b : Bool) (carrier : Dict String) (tp : String) (ts : Option String)
    → (if b then headers_of carrier else none) ≡ some (tp, ts)
    → ts ≡ get "tracestate" carrier
headers-tracestate true carrier tp ts h =
    headers_of-tracestate (get "traceparent" carrier) (get "tracestate" carrier) tp ts h
headers-tracestate false carrier tp ts h = cc

-- For a job without a trace context of its own that is sent inside a span whose tracestate is not
-- the empty text: a worker that decodes the message's trace context gets what
-- `trace_context_from_current` gives the producer inside that span, also where it is none.
pub sent-trace_context_from_current :
    (env : Env) (span : String) (job : EnqueueRequest) (s : PbEnqueueRequest)
    → IsSent env span job s
    → job.trace_context ≡ none
    → get "tracestate" (env.inject span) ≢ some ""
    → trace_context_field s.trace_context ≡ trace_context_from_current env span
unfolding trace_context_from_current current_trace_headers
sent-trace_context_from_current env span job s (pb, made, same) bare stated =
    let wire = enqueue_request_to_pb-fields env.runtime job made in
    let none_own : pb.trace_context ≡ none = ground (arith, wire.trace_context, bare) in
    let carried : s.trace_context ≡ span_context env span =
      ap (λ m. m.trace_context) same ∙ ap (λ o. first_some o (span_context env span)) none_own in
    ap trace_context_field carried
    ∙ headers_carried (current_trace_headers env span) (λ tp ts h e.
      stated (sym (headers-tracestate env.otel_available (env.inject span) tp ts h) ∙ e))
