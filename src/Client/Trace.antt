-- ===== src/Client/Trace.antt =====
-- Trace headers (src/sepp/_otel.py) on calls and jobs, and a call of a stub method.
use sepp_py.Common.{
  List, [], ◌∷◌, ◌++◌, map, String, is_empty, Option, none, some, Dict, get, Result, map_err,
  if◌then◌else◌,
}
use sepp_py.Errors.Codes.{RpcError}
use sepp_py.Errors.Exceptions.{Raised, rpc_error}
use sepp_py.Wire.Messages.{PbEnqueueRequest}
use sepp_py.Client.Env.{Env, Rpc, Metadata}
use sepp_py.Client.Monad.{M}
use sepp_py.Client.Policy.{Client, World}

-- `carrier.get("tracestate")`, if it is truthy.
abbrev pub truthy : Option String → Option String
truthy none = none
truthy (some s) = if is_empty s then none else some s

abbrev pub entry : String → Option String → Metadata
entry k none = []
entry k (some v) = (k, v) ∷ []

-- `inject_context_metadata`, inside the named span: what it appends.
unfoldable pub context_metadata : (env : Env) → String → Metadata
context_metadata env span =
    if env.otel_available
    then (entry "traceparent" (get "traceparent" (env.inject span))
        ++ entry "tracestate" (truthy (get "tracestate" (env.inject span))))
    else []

abbrev pub headers_of : Dict String → Option (String × Option String)
headers_of carrier = elim (get "traceparent" carrier) [
  | none ↦ none
  | some tp ↦ some (tp, get "tracestate" carrier)
]

unfoldable pub current_trace_headers : (env : Env) → String → Option (String × Option String)
current_trace_headers env span = if env.otel_available then headers_of (env.inject span) else none

-- One round of the loop of `_inject_trace_into_jobs`: a job's own context is kept.
unfoldable pub inject_trace : String → Option String → PbEnqueueRequest → PbEnqueueRequest
inject_trace traceparent tracestate job = elim job.trace_context [
  | some tc ↦ job
  | none ↦ record job {
    trace_context = some (record { traceparent = traceparent; tracestate = truthy tracestate });
  }
]

unfoldable pub inject_trace_into_jobs :
    (env : Env) → String → List PbEnqueueRequest → List PbEnqueueRequest
inject_trace_into_jobs env span jobs = elim (current_trace_headers env span) [
  | none ↦ jobs
  | some (traceparent, tracestate) ↦ map (inject_trace traceparent tracestate) jobs
]

-- `_call_metadata()`
unfoldable pub call_metadata : (env : Env) → Client env → String → Metadata
unfolding context_metadata
call_metadata env client span = client.auth_metadata ++ context_metadata env span

abbrev pub reply :
    {env : Env} {A : Type 0}
    → World env
    → Result RpcError A × env.Server
    → Result Raised A × World env
reply w (r, server) = (map_err rpc_error r, record w { server = server })

-- `self._stub.Method(req, timeout=…, metadata=self._call_metadata())`
unfoldable pub call :
    (env : Env) {Req Resp : Type 0}
    → Client env
    → Rpc env.Server env.Float Req Resp
    → env.Float
    → String
    → Req
    → M (World env) Resp
call env client method timeout span req w =
    reply {env = env} w
      (method req (record { timeout = timeout; metadata = call_metadata env client span }) w.server)
