-- ===== src/Errors/Mapping.antt =====
-- The functions that map a gRPC error onto the library's exceptions.
use sepp_py.Common.{String, or_empty, if◌then◌else◌}
use sepp_py.Errors.Codes.{
  StatusCode, RpcError, unauthenticated, permission_denied, resource_exhausted, invalid_argument,
  internal, data_loss, unknown, not_found, failed_precondition, transport_codes,
}
use sepp_py.Errors.Exceptions.{
  ClientError, SeppError, client_error, lease_error, reserve_error, job_not_found, attempt_mismatch,
  unknown_queues,
}

-- The tests after the first, which asks for a transport code.
unfoldable pub other_client_error : StatusCode → String → ClientError
other_client_error unauthenticated msg = ClientError.unauthenticated msg
other_client_error permission_denied msg = ClientError.unauthenticated msg
other_client_error resource_exhausted msg = ClientError.overloaded msg
other_client_error invalid_argument msg = ClientError.invalid_request msg
other_client_error internal msg = ClientError.server_internal msg
other_client_error data_loss msg = ClientError.server_internal msg
other_client_error unknown msg = ClientError.server_internal msg
other_client_error code msg = ClientError.unexpected_status code msg

unfoldable pub client_error_from_rpc : RpcError → ClientError
unfolding transport_codes other_client_error
client_error_from_rpc e =
    if transport_codes e.code
    then ClientError.transport (or_empty e.details)
    else other_client_error e.code (or_empty e.details)

lease_error_for : StatusCode → SeppError → SeppError
lease_error_for not_found other = lease_error job_not_found
lease_error_for failed_precondition other = lease_error attempt_mismatch
lease_error_for _ other = other

unfoldable pub lease_error_from_rpc : RpcError → SeppError
unfolding client_error_from_rpc lease_error_for
lease_error_from_rpc e = lease_error_for e.code (client_error (client_error_from_rpc e))

reserve_error_for : StatusCode → String → SeppError → SeppError
reserve_error_for failed_precondition msg other = reserve_error (unknown_queues msg)
reserve_error_for _ msg other = other

unfoldable pub reserve_error_from_rpc : RpcError → SeppError
unfolding client_error_from_rpc reserve_error_for
reserve_error_from_rpc e =
    reserve_error_for e.code (or_empty e.details) (client_error (client_error_from_rpc e))
