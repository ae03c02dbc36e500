-- ===== src/Client/Lease.antt =====
-- `ack`, `nack`, `extend`, `Lease.extend` and `JobCtx.extend`.
pub mod Known
use sepp_py.Common.{
  ℕ, pos, Bool, String, is_empty, str_eq, Option, none, some, Result, ok, err, or_raise,
  if◌then◌else◌,
}
use sepp_py.Types.Time.{Timedelta, Datetime}
use sepp_py.Types.Jobs.{Lease, JobCtx}
use sepp_py.Wire.Messages.{PbNackRetry}
use sepp_py.Wire.Runtime.{Runtime}
use sepp_py.Errors.Codes.{retryable_codes}
use sepp_py.Errors.Exceptions.{
  Raised, sepp, client_error, malformed_response, assertion_error, no_lease_handle, unfit,
}
use sepp_py.Errors.Mapping.{lease_error_from_rpc}
use sepp_py.Convert.Time.{datetime_to_millis, timestamp_to_datetime}
use sepp_py.Client.Env.{Env}
use sepp_py.Client.Monad.{M, ◌>>=◌, return, raise, lift, map_rpc_error}
use sepp_py.Client.Policy.{RetryDirective, Client, World}
use sepp_py.Client.Retry.{with_retry}
use sepp_py.Client.Trace.{call}

-- `ctx._lease.worker_id if ctx._lease else None`
abbrev pub lease_worker : Option Lease → Option String
lease_worker none = none
lease_worker (some l) = l.worker_id

-- The field of a message is an unsigned 32-bit integer.
unfoldable pub set_attempt : Runtime → ℕ → Result Raised ℕ
set_attempt rt attempt = or_raise (rt.uint32 (pos attempt)) unfit

unfoldable pub ack : (env : Env) → Client env → JobCtx → M (World env) (Unit {0})
unfolding set_attempt
ack env client ctx = do
  attempt ← lift (set_attempt env.runtime ctx.attempt)
  map_rpc_error lease_error_from_rpc (
      with_retry env client.retry_policy retryable_codes (
        call env client env.stub_ack client.rpc_timeout "sepp.ack"
          (record { job_id = ctx.id; attempt = attempt; worker_id = lease_worker ctx.lease })))

abbrev pub delay_to_pb : Runtime → Option Timedelta → Result Raised PbNackRetry
delay_to_pb rt none = err assertion_error
delay_to_pb rt (some d) = ok (PbNackRetry.delay (rt.from_timedelta d))

-- The `NackRetry` that a directive stands for.
unfoldable pub nack_retry : Runtime → RetryDirective → Result Raised PbNackRetry
nack_retry rt retry =
    if str_eq retry.kind "after"
    then delay_to_pb rt retry.delay
    else if str_eq retry.kind "dead_letter"
    then ok PbNackRetry.dead_letter
    else ok PbNackRetry.default

abbrev pub present : Option String → Result Raised (Option String)
present none = err unfit
present (some s) = ok (some s)

-- An empty reason stays absent, and one with a lone surrogate has no UTF-8 encoding.
unfoldable pub reason_field : Runtime → String → Result Raised (Option String)
reason_field rt reason = if is_empty reason then ok none else present (rt.text reason)

unfoldable pub nack :
    (env : Env) → Client env → JobCtx → RetryDirective → String → M (World env) Bool
unfolding set_attempt reason_field
nack env client ctx retry reason = do
  nr ← lift (nack_retry env.runtime retry)
  attempt ← lift (set_attempt env.runtime ctx.attempt)
  reason ← lift (reason_field env.runtime reason)
  map_rpc_error lease_error_from_rpc (
      with_retry env client.retry_policy retryable_codes (
        call env client env.stub_nack client.rpc_timeout "sepp.nack" (record {
          job_id = ctx.id;
          attempt = attempt;
          reason = reason;
          retry = nr;
          worker_id = lease_worker ctx.lease;
        })))

-- `_extend_inner`
unfoldable pub extend_inner :
    (env : Env) → Client env → String → ℕ → Timedelta → Option String → M (World env) Datetime
unfolding set_attempt
extend_inner env client job_id attempt extension worker_id = do
  attempt ← lift (set_attempt env.runtime attempt)
  resp ← map_rpc_error lease_error_from_rpc (
      with_retry env client.retry_policy retryable_codes (
        call env client env.stub_extend client.rpc_timeout "sepp.extend" (record {
          job_id = job_id;
          attempt = attempt;
          lease_duration = env.runtime.from_timedelta extension;
          worker_id = worker_id;
        })))
  lift (
      or_raise (timestamp_to_datetime env.runtime resp)
        (sepp (client_error (malformed_response "extend returned an invalid lease_expires_at"))))

-- `SeppClient.extend`
unfoldable pub extend : (env : Env) → Client env → JobCtx → Timedelta → M (World env) Datetime
extend env client ctx extension =
    extend_inner env client ctx.id ctx.attempt extension (lease_worker ctx.lease)

-- `Lease.extend`: the new expiry, and the lease with `_known_expiry_ms` set.
unfoldable pub lease_extend :
    (env : Env) → Client env → Lease → Timedelta → M (World env) (Datetime × Lease)
lease_extend env client lease by = do
  new_expiry ← extend_inner env client lease.job_id lease.attempt by lease.worker_id
  return (new_expiry, record lease { known_expiry_ms = datetime_to_millis new_expiry })

abbrev pub with_lease : JobCtx → Datetime × Lease → Datetime × JobCtx
with_lease ctx (expiry, lease) = (expiry, record ctx { lease = some lease })

-- `JobCtx.extend`
unfoldable pub ctx_extend :
    (env : Env) → Client env → JobCtx → Timedelta → M (World env) (Datetime × JobCtx)
ctx_extend env client ctx extension = elim ctx.lease [
  | none ↦ raise no_lease_handle
  | some lease ↦ lease_extend env client lease extension >>= λ r. return (with_lease ctx r)
]
