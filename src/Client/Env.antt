-- ===== src/Client/Env.antt =====
-- What client.py uses and does not implement: the gRPC stub with the server behind it, floats,
-- `random`, the event loop's `sleep`, and OpenTelemetry.
use sepp_py.Common.{ℕ, Bool, List, String, Dict, Result}
use sepp_py.Types.Time.{Timedelta}
use sepp_py.Errors.Codes.{RpcError}
use sepp_py.Wire.WellKnown.{Timestamp}
use sepp_py.Wire.Messages.{
  PbJob, PbEnqueueRequest, PbJobResult, PbEnqueueAtomicResponse, PbReserveRequest, PbAckRequest,
  PbNackRequest, PbExtendRequest, PbDeadLetterRecord, PbDrainDeadLettersRequest, PbServerInfo,
}
use sepp_py.Wire.Runtime.{Runtime}

-- gRPC metadata: a list of pairs, repeats allowed.
abbrev pub Metadata : Type 0
Metadata = List (String × String)

-- The options of one stub call.
pub record CallInfo (Float : Type 0) : Type 0 where
  pub timeout : Float
  pub metadata : Metadata

-- A call of a stub method: the request, the options and the state of the world outside.
abbrev pub Rpc : Type 0 → Type 0 → Type 0 → Type 0 → Type 0
Rpc Server Float Req Resp = Req → CallInfo Float → Server → Result RpcError Resp × Server

pub record Env : Type 1 where
  pub Server : Type 0
  pub Float : Type 0
  pub runtime : Runtime
  -- floats: `td.total_seconds()`, `timedelta(seconds=x)`, `x * y`, `min(x, y)`
  pub total_seconds : Timedelta → Float
  pub from_seconds : Float → Timedelta
  pub times : Float → Float → Float
  pub min_float : Float → Float → Float
  -- `0.5 + 0.5 * random.random()` at the n-th draw
  pub jitter_factor : ℕ → Float
  -- whether OpenTelemetry is installed, and what its propagator writes inside a span
  pub otel_available : Bool
  pub inject : (span : String) → Dict String
  -- the methods of `QueueServiceStub`
  pub stub_enqueue_batch : Rpc Server Float (List PbEnqueueRequest) (List PbJobResult)
  pub stub_enqueue_atomic : Rpc Server Float (List PbEnqueueRequest) PbEnqueueAtomicResponse
  pub stub_reserve : Rpc Server Float PbReserveRequest (List PbJob)
  pub stub_ack : Rpc Server Float PbAckRequest (Unit {0})
  pub stub_nack : Rpc Server Float PbNackRequest Bool
  pub stub_extend : Rpc Server Float PbExtendRequest Timestamp
  pub stub_drain_dead_letters : Rpc Server Float PbDrainDeadLettersRequest (List PbDeadLetterRecord)
  pub stub_get_server_info : Rpc Server Float (Unit {0}) PbServerInfo
