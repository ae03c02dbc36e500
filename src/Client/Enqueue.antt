-- ===== src/Client/Enqueue.antt =====
-- `enqueue_batch`, `enqueue` and `enqueue_atomic`.
pub mod Traced
pub mod Exchange
pub mod Rows
pub mod Counts
pub mod Keyless
pub mod Single
use sepp_py.Common.{
  String, Bool, not, List, [], ◌∷◌, map, length, all, is_some, ◌==◌, Result, ok, err, traverse,
  if◌then◌else◌,
}
use sepp_py.Common
use sepp_py.Types.Requests.{EnqueueRequest, EnqueueAck, is_nil}
use sepp_py.Wire.Messages.{PbEnqueueRequest, PbJobResult, PbEnqueueAtomicResponse}
use sepp_py.Wire.Runtime.{Runtime}
use sepp_py.Errors.Codes.{CodeSet, retryable_codes, keyless_enqueue_retryable_codes}
use sepp_py.Errors.Rejection.{JobRejection}
use sepp_py.Errors.Exceptions.{
  Raised, sepp, index_error, client_error, empty_batch, batch_result_count_mismatch,
  malformed_response, job_rejected, batch_validation,
}
use sepp_py.Errors.Mapping.{client_error_from_rpc}
use sepp_py.Convert.Outgoing.{enqueue_request_to_pb}
use sepp_py.Convert.Rejection.{
  enqueue_ack_from_pb, job_rejection_from_pb, job_validation_error_from_pb,
}
use sepp_py.Client.Env.{Env, Rpc}
use sepp_py.Client.Monad.{M, ◌>>=◌, ◌>>◌, return, raise, raise_when, lift, map_rpc_error}
use sepp_py.Client.Policy.{Client, World}
use sepp_py.Client.Retry.{with_retry}
use sepp_py.Client.Trace.{inject_trace_into_jobs, call}

-- An entry of `enqueue_batch`'s result: `EnqueueAck | JobRejection`.
pub data Outcome : Type 0 where
  acked : EnqueueAck → Outcome
  refused : JobRejection → Outcome

-- `_enqueue_retryable_codes`
unfoldable pub enqueue_retryable_codes : List PbEnqueueRequest → CodeSet
enqueue_retryable_codes jobs =
    if all (λ j. is_some j.idempotency_key) jobs
    then retryable_codes
    else keyless_enqueue_retryable_codes

-- One round of the loop over `resp.results`.
unfoldable pub job_result_from_pb : Runtime → PbJobResult → Result Raised Outcome
job_result_from_pb rt (PbJobResult.success r) = ok (acked (enqueue_ack_from_pb r))
job_result_from_pb rt (PbJobResult.rejection r) =
    Common.◌>>=◌ (job_rejection_from_pb rt r) (λ x. ok (refused x))
job_result_from_pb rt PbJobResult.unset =
    err (sepp (client_error (malformed_response "missing outcome in job result")))

abbrev pub mismatch : {A B : Type 0} → List A → List B → Raised
mismatch sent got = sepp (client_error (batch_result_count_mismatch (length sent) (length got)))

-- The call with its retries; a gRPC error that is left is mapped.
unfoldable pub transmit :
    (env : Env) {Resp : Type 0}
    → Client env
    → String
    → Rpc env.Server env.Float (List PbEnqueueRequest) Resp
    → List PbEnqueueRequest
    → M (World env) Resp
transmit env client span method sent =
    map_rpc_error (λ e. client_error (client_error_from_rpc e))
      (with_retry env client.retry_policy (enqueue_retryable_codes sent)
        (call env client method client.rpc_timeout span sent))

-- The part that `enqueue_batch` and `enqueue_atomic` share: conversion, the empty batch, trace
-- headers and the call. `k` takes the jobs that were sent and the response.
unfoldable pub send_jobs :
    (env : Env) {Resp A : Type 0}
    → Client env
    → String
    → Rpc env.Server env.Float (List PbEnqueueRequest) Resp
    → List EnqueueRequest
    → (List PbEnqueueRequest → Resp → M (World env) A)
    → M (World env) A
send_jobs env client span method jobs k = do
  pb_jobs ← lift (traverse (enqueue_request_to_pb env.runtime) jobs)
  raise_when (is_nil pb_jobs) (sepp (client_error empty_batch))
  let sent = inject_trace_into_jobs env span pb_jobs
  resp ← transmit env client span method sent
  k sent resp

unfoldable pub read_batch :
    (env : Env) → List PbEnqueueRequest → List PbJobResult → M (World env) (List Outcome)
read_batch env sent results = do
  raise_when (not (length results == length sent)) (mismatch sent results)
  lift (traverse (job_result_from_pb env.runtime) results)

unfoldable pub enqueue_batch :
    (env : Env) → Client env → List EnqueueRequest → M (World env) (List Outcome)
unfolding send_jobs read_batch
enqueue_batch env client jobs =
    send_jobs env client "sepp.enqueue" env.stub_enqueue_batch jobs (read_batch env)

-- `result = results[0]`, and the test on it.
abbrev pub first_outcome : {W : Type 0} → List Outcome → M W EnqueueAck
first_outcome [] = raise index_error
first_outcome (acked a ∷ rest) = return a
first_outcome (refused r ∷ rest) = raise (sepp (job_rejected r))

unfoldable pub enqueue : (env : Env) → Client env → EnqueueRequest → M (World env) EnqueueAck
enqueue env client job = enqueue_batch env client (job ∷ []) >>= first_outcome

unfoldable pub read_atomic :
    (env : Env) → List PbEnqueueRequest → PbEnqueueAtomicResponse → M (World env) (List EnqueueAck)
read_atomic env sent (PbEnqueueAtomicResponse.success responses) = do
  raise_when (not (length responses == length sent)) (mismatch sent responses)
  return (map enqueue_ack_from_pb responses)
read_atomic env sent (PbEnqueueAtomicResponse.rejection errors) = do
  errs ← lift (traverse (job_validation_error_from_pb env.runtime) errors)
  raise (sepp (batch_validation errs))
read_atomic env sent PbEnqueueAtomicResponse.unset =
    raise (sepp (client_error (malformed_response "missing outcome in EnqueueAtomicResponse")))

unfoldable pub enqueue_atomic :
    (env : Env) → Client env → List EnqueueRequest → M (World env) (List EnqueueAck)
unfolding send_jobs read_atomic
enqueue_atomic env client jobs =
    send_jobs env client "sepp.enqueue_atomic" env.stub_enqueue_atomic jobs (read_atomic env)
