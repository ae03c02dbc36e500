-- ===== src/Errors/Laws.antt =====
-- How the code sets and the maps of gRPC errors fit together.
use sepp_py.Common.{true, ◌≡◌, ◌≢◌, ◌↔◌, ◌⊎◌, or_empty, arith}
use sepp_py.Errors.Codes.{
  RpcError, cancelled, deadline_exceeded, aborted, not_found, failed_precondition, retryable_codes,
  keyless_enqueue_retryable_codes,
}
use sepp_py.Errors.Exceptions.{
  ClientError, transport, overloaded, client_error, lease_error, reserve_error, job_not_found,
  attempt_mismatch, unknown_queues,
}
use sepp_py.Errors.Mapping.{client_error_from_rpc, lease_error_from_rpc, reserve_error_from_rpc}

-- The two client errors that are worth a retry.
abbrev pub IsTransient : ClientError → Type 0
IsTransient (transport m) = Unit
IsTransient (overloaded m) = Unit
IsTransient _ = ⊥

-- RETRYABLE_CODES has a code exactly when the error that `client_error_from_rpc` makes of it is a
-- transport error or an overload, except for CANCELLED, which is a transport error and is not in the
-- set.
pub retryable_codes_iff :
    (e : RpcError)
    → (retryable_codes e.code ≡ true)
      ↔ (IsTransient (client_error_from_rpc e) × (e.code ≢ cancelled))
unfolding retryable_codes client_error_from_rpc
retryable_codes_iff e = ground arith

-- For an enqueue with a keyless job exactly the two codes are taken out that may hide a commit.
keyless_enqueue_retryable_codes_iff :
    (e : RpcError)
    → (keyless_enqueue_retryable_codes e.code ≡ true)
      ↔ ((retryable_codes e.code ≡ true) × (e.code ≢ deadline_exceeded) × (e.code ≢ aborted))
unfolding retryable_codes keyless_enqueue_retryable_codes
keyless_enqueue_retryable_codes_iff e = ground arith

-- A code is FAILED_PRECONDITION, which means a lost attempt to a lease call, undeclared queues to
-- a reserve call and an unexpected status elsewhere; or NOT_FOUND, which means a lost job to a
-- lease call alone; or any other code, with which the three maps agree.
error_maps_cases :
    (e : RpcError)
    → ((e.code ≡ failed_precondition)
        × (lease_error_from_rpc e ≡ lease_error attempt_mismatch)
        × (reserve_error_from_rpc e ≡ reserve_error (unknown_queues (or_empty e.details)))
        × (client_error_from_rpc e
            ≡ ClientError.unexpected_status failed_precondition (or_empty e.details)))
      ⊎ ((e.code ≡ not_found)
          × (lease_error_from_rpc e ≡ lease_error job_not_found)
          × (reserve_error_from_rpc e ≡ client_error (client_error_from_rpc e)))
      ⊎ ((e.code ≢ failed_precondition)
          × (e.code ≢ not_found)
          × (lease_error_from_rpc e ≡ client_error (client_error_from_rpc e))
          × (reserve_error_from_rpc e ≡ client_error (client_error_from_rpc e)))
unfolding lease_error_from_rpc reserve_error_from_rpc client_error_from_rpc
error_maps_cases e = ground arith
