-- ===== src/Convert/Values.antt =====
-- Primitives, payloads and trace contexts, both ways.
use sepp_py.Common.{Option, none, some, Result, ok, err, ◌>>=◌, or_raise, to_option}
use sepp_py.Types.Requests.{Primitive, Payload}
use sepp_py.Types.Trace.{TraceContext, make_trace_context}
use sepp_py.Wire.Messages.{PbPrimitiveValue, PbPayload, PbTraceContext}
use sepp_py.Wire.Runtime.{Runtime}
use sepp_py.Errors.Exceptions.{Raised, type_error, unfit}

unfoldable pub primitive_to_pb : Runtime → Primitive → Result Raised PbPrimitiveValue
primitive_to_pb rt (Primitive.bool b) = ok (PbPrimitiveValue.bool_value b)
primitive_to_pb rt (Primitive.int v) =
    or_raise (rt.int64 v) unfit >>= λ n. ok (PbPrimitiveValue.int_value n)
primitive_to_pb rt (Primitive.float x) = ok (PbPrimitiveValue.double_value x)
primitive_to_pb rt (Primitive.str s) = ok (PbPrimitiveValue.string_value s)
primitive_to_pb rt (Primitive.foreign name) = err (type_error name)

unfoldable pub primitive_from_pb : PbPrimitiveValue → Option Primitive
primitive_from_pb PbPrimitiveValue.unset = none
primitive_from_pb (PbPrimitiveValue.string_value s) = some (Primitive.str s)
primitive_from_pb (PbPrimitiveValue.double_value x) = some (Primitive.float x)
primitive_from_pb (PbPrimitiveValue.int_value n) = some (Primitive.int n)
primitive_from_pb (PbPrimitiveValue.bool_value b) = some (Primitive.bool b)

unfoldable pub payload_to_pb : Payload → PbPayload
payload_to_pb p = record { body = p.body; encoding = p.encoding }

unfoldable pub payload_from_pb : PbPayload → Payload
payload_from_pb p = record { body = p.body; encoding = p.encoding }

unfoldable pub trace_context_to_pb : TraceContext → PbTraceContext
trace_context_to_pb tc = record { traceparent = tc.traceparent; tracestate = tc.tracestate }

-- An invalid trace context is dropped.
unfoldable pub trace_context_from_pb : PbTraceContext → Option TraceContext
trace_context_from_pb m = to_option (make_trace_context m.traceparent m.tracestate)
