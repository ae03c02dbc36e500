-- ===== src/Client/Admin.antt =====
-- `get_server_info` and `drain_dead_letters`.
use sepp_py.Common.{ℤ, pos, max_ℤ, List, [], ◌∷◌, String, Option, Result, err, or_raise}
use sepp_py.Types.Requests.{ServerInfo}
use sepp_py.Types.Jobs.{DeadLetterRecord}
use sepp_py.Wire.Messages.{PbDeadLetterRecord}
use sepp_py.Wire.Runtime.{Runtime}
use sepp_py.Errors.Codes.{retryable_codes}
use sepp_py.Errors.Exceptions.{
  Raised, sepp, unfit, client_error, server_info_error, malformed_server_info,
}
use sepp_py.Errors.Mapping.{client_error_from_rpc}
use sepp_py.Convert.Incoming.{dead_letter_record_from_pb}
use sepp_py.Convert.Info.{server_info_from_pb}
use sepp_py.Client.Env.{Env}
use sepp_py.Client.Monad.{M, ◌>>=◌, return, lift, map_rpc_error}
use sepp_py.Client.Policy.{Client, World}
use sepp_py.Client.Reserve.{keep}
use sepp_py.Client.Retry.{with_retry}
use sepp_py.Client.Trace.{call}

-- `except errors.ServerInfoError as exc: raise errors.MalformedServerInfoError(exc)`
abbrev pub wrap_info : {A : Type 0} → Result Raised A → Result Raised A
wrap_info (err (sepp (server_info_error e))) = err (sepp (client_error (malformed_server_info e)))
wrap_info r = r

unfoldable pub get_server_info : (env : Env) → Client env → M (World env) ServerInfo
get_server_info env client = do
  resp ←
      map_rpc_error (λ e. client_error (client_error_from_rpc e))
        (with_retry env client.retry_policy retryable_codes
          (call env client env.stub_get_server_info client.rpc_timeout "sepp.get_server_info" tt))
  lift (wrap_info (server_info_from_pb env.runtime resp))

-- The loop over `resp.records`.
unfoldable pub records_from_pb : Runtime → List PbDeadLetterRecord → List DeadLetterRecord
records_from_pb rt [] = []
records_from_pb rt (r ∷ rs) = keep (dead_letter_record_from_pb rt r) (records_from_pb rt rs)

unfoldable pub drain_dead_letters :
    (env : Env) → Client env → Option String → ℤ → M (World env) (List DeadLetterRecord)
unfolding records_from_pb
drain_dead_letters env client queue max_records = do
  n ← lift (or_raise (env.runtime.uint32 (max_ℤ max_records (pos 1))) unfit)
  resp ←
      map_rpc_error (λ e. client_error (client_error_from_rpc e))
        (call env client env.stub_drain_dead_letters client.rpc_timeout "sepp.drain_dead_letters"
          (record { queue = queue; max_records = n }))
  return (records_from_pb env.runtime resp)
