-- ===== src/Tests/Traces.antt =====
-- A job that is sent inside a span.
use sepp_py.Common.{true, [], ◌∷◌, get, none, some, ◌≡◌, ◌≢◌, refl}
use sepp_py.Wire.Messages.{PbEnqueueRequest}
use sepp_py.Convert.Incoming.{trace_context_field}
use sepp_py.Convert.Outgoing.{set_uint32, custom_to_pb, scheduled_at_to_pb, enqueue_request_to_pb}
use sepp_py.Client.Env.{Env}
use sepp_py.Client.Trace.{current_trace_headers}
use sepp_py.Client.Enqueue.Traced.{IsSent}
use sepp_py.Otel.Tracing.{trace_context_from_current}
use sepp_py.Otel.Tracing.Carried.{sent-trace_context_from_current}
use sepp_py.Tests.Reference.{scripted}
use sepp_py.Tests.Calls.{request, message}

abbrev traced : Env
traced = record scripted {
  otel_available = true;
  inject = λ span. ("traceparent", "00-0af7651916cd43dd8448eb211c80319c-b7ad6b7169203331-01") ∷ [];
}

abbrev sent : PbEnqueueRequest
sent = record message {
  trace_context = some (record {
    traceparent = "00-0af7651916cd43dd8448eb211c80319c-b7ad6b7169203331-01";
    tracestate = none;
  });
}

sent-IsSent : IsSent traced "sepp.enqueue" request sent
unfolding enqueue_request_to_pb set_uint32 custom_to_pb scheduled_at_to_pb current_trace_headers
sent-IsSent = (message, refl, refl)

no_tracestate : get "tracestate" (traced.inject "sepp.enqueue") ≢ some ""
no_tracestate e = cc

sent-trace_context_from_current_example :
    trace_context_field sent.trace_context ≡ trace_context_from_current traced "sepp.enqueue"
sent-trace_context_from_current_example =
    sent-trace_context_from_current traced "sepp.enqueue" request sent sent-IsSent refl
      no_tracestate
