-- ===== src/Errors/Codes.antt =====
-- The gRPC status codes that errors.py names, and its three sets of codes.
use sepp_py.Common.{Bool, true, false, String, Option}

-- `grpc.StatusCode`, all of its members.
pub data StatusCode : Type 0 where
  status_ok cancelled unknown invalid_argument deadline_exceeded not_found already_exists :
      StatusCode
  permission_denied unauthenticated resource_exhausted failed_precondition aborted : StatusCode
  out_of_range unimplemented internal unavailable data_loss : StatusCode

-- What errors.py reads of a `grpc.aio.AioRpcError`: `code()` and `details()`.
pub record RpcError : Type 0 where
  pub code : StatusCode
  pub details : Option String

-- A frozenset of codes, by its membership test.
abbrev pub CodeSet : Type 0
CodeSet = StatusCode → Bool

unfoldable pub transport_codes : CodeSet
transport_codes unavailable = true
transport_codes deadline_exceeded = true
transport_codes aborted = true
transport_codes cancelled = true
transport_codes _ = false

unfoldable pub retryable_codes : CodeSet
retryable_codes unavailable = true
retryable_codes deadline_exceeded = true
retryable_codes aborted = true
retryable_codes resource_exhausted = true
retryable_codes _ = false

unfoldable pub keyless_enqueue_retryable_codes : CodeSet
keyless_enqueue_retryable_codes unavailable = true
keyless_enqueue_retryable_codes resource_exhausted = true
keyless_enqueue_retryable_codes _ = false
