-- ===== src/Otel/Tracing.antt =====
-- Trace contexts between the library and OpenTelemetry, and the spans that it opens.
-- The headers that calls and jobs carry are in Client/Trace.antt.
pub mod Carried
use sepp_py.Common.{
  Bool, List, [], ◌∷◌, ◌++◌, String, Option, none, some, Dict, to_option, if◌then◌else◌,
}
use sepp_py.Types.Trace.{TraceContext, make_trace_context}
use sepp_py.Client.Env.{Env}
use sepp_py.Client.Trace.{entry, current_trace_headers}

pub data SpanKind : Type 0 where
  client_kind consumer_kind : SpanKind

-- What the library uses of OpenTelemetry: a context holds the current span, `extract` is that of
-- the W3C propagator, and `start_span` is the context inside a span that was just started.
pub record OpenTelemetry : Type 1 where
  pub available : Bool
  pub Context : Type 0
  pub SpanContext : Type 0
  pub extract : Dict String → Context
  pub span_context : Context → SpanContext
  pub is_valid : SpanContext → Bool
  pub start_span : String → SpanKind → List SpanContext → Context → Context

abbrev pub context_of_headers : Option (String × Option String) → Option TraceContext
context_of_headers none = none
context_of_headers (some (traceparent, tracestate)) =
    to_option (make_trace_context traceparent tracestate)

unfoldable pub trace_context_from_current : (env : Env) → String → Option TraceContext
trace_context_from_current env span = context_of_headers (current_trace_headers env span)

-- The carrier that `extract` reads.
unfoldable pub carrier_of : TraceContext → Dict String
carrier_of tc = ("traceparent", tc.traceparent) ∷ entry "tracestate" tc.tracestate

module _ (o : OpenTelemetry) where
  -- A `with` block: the body runs in another context, and the one before is current again after it,
  -- also where the body raises, which `A` may hold.
  abbrev pub within :
      {A : Type 0}
      → (o.Context → o.Context)
      → (o.Context → A × o.Context)
      → o.Context
      → A × o.Context
  within inside body ctx = ((body (inside ctx)).0, ctx)

  unfoldable pub attach_trace_context :
      {A : Type 0} → TraceContext → (o.Context → A × o.Context) → o.Context → A × o.Context
  unfolding carrier_of
  attach_trace_context tc body ctx =
      if o.available then within (λ outer. o.extract (carrier_of tc)) body ctx else body ctx

  abbrev pub valid_only : o.SpanContext → Option o.SpanContext
  valid_only sc = if o.is_valid sc then some sc else none

  unfoldable pub span_context_from_trace_context : TraceContext → Option o.SpanContext
  unfolding carrier_of
  span_context_from_trace_context tc =
      if o.available then valid_only (o.span_context (o.extract (carrier_of tc))) else none

  abbrev pub link_list : Option o.SpanContext → List o.SpanContext
  link_list none = []
  link_list (some sc) = sc ∷ []

  -- `links` of a consumer span, a link being the span context that it points to.
  unfoldable pub links_to : Option TraceContext → List o.SpanContext
  unfolding span_context_from_trace_context
  links_to none = []
  links_to (some tc) = link_list (span_context_from_trace_context tc)

  unfoldable pub client_span :
      {A : Type 0} → String → (o.Context → A × o.Context) → o.Context → A × o.Context
  client_span name body ctx =
      if o.available then within (o.start_span name SpanKind.client_kind []) body ctx else body ctx

  unfoldable pub consumer_span :
      {A : Type 0}
      → String
      → Option TraceContext
      → (o.Context → A × o.Context)
      → o.Context
      → A × o.Context
  unfolding links_to
  consumer_span name producer body ctx =
      if o.available
      then within (o.start_span name SpanKind.consumer_kind (links_to producer)) body ctx
      else body ctx

-- `TraceContext.from_current_otel`, `attach_to_otel` and `otel_span_context`, in types.py.
unfoldable pub from_current_otel : (env : Env) → String → Option TraceContext
from_current_otel env span = trace_context_from_current env span

unfoldable pub attach_to_otel :
    (o : OpenTelemetry) {A : Type 0}
    → TraceContext
    → (o.Context → A × o.Context)
    → o.Context
    → A × o.Context
attach_to_otel o tc body ctx = attach_trace_context o tc body ctx

unfoldable pub otel_span_context : (o : OpenTelemetry) → TraceContext → Option o.SpanContext
otel_span_context o tc = span_context_from_trace_context o tc
