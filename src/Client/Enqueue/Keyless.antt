-- ===== src/Client/Enqueue/Keyless.antt =====
-- A failure of an enqueue with a keyless job that leaves its commit in doubt.
use sepp_py.Common.{
  Bool, false, List, [], ◌∷◌, map, all, is_some, or_empty, String, Option, ok, err, traverse, ◌≡◌,
  ◌⊎◌, refl, ap, ◌∙◌, arith, inl, inr, Option-cases, >>=-eq-ok, ◌>>=◌, ℕ, zero, suc,
}
use sepp_py.Types.Time.{Timedelta}
use sepp_py.Types.Requests.{EnqueueRequest, is_nil}
use sepp_py.Wire.Messages.{PbEnqueueRequest}
use sepp_py.Wire.Runtime.{Runtime}
use sepp_py.Errors.Codes.{
  RpcError, CodeSet, deadline_exceeded, aborted, transport_codes, keyless_enqueue_retryable_codes,
}
use sepp_py.Errors.Exceptions.{sepp, rpc_error, client_error, transport}
use sepp_py.Errors.Mapping.{client_error_from_rpc}
use sepp_py.Convert.Outgoing.{enqueue_request_to_pb}
use sepp_py.Convert.Echo.{enqueue_request_to_pb-fields}
use sepp_py.Client.Env.{Env, Rpc}
use sepp_py.Client.Monad.{M}
use sepp_py.Client.Policy.{RetryPolicy, Client, World}
use sepp_py.Client.Retry.{retry_loop, with_retry}
use sepp_py.Client.Trace.{current_trace_headers, inject_trace, inject_trace_into_jobs, call}
use sepp_py.Client.Enqueue.{
  enqueue_retryable_codes, read_batch, read_atomic, transmit, send_jobs, enqueue_batch,
  enqueue_atomic,
}

abbrev all_keyed : List PbEnqueueRequest → Bool
all_keyed jobs = all (λ j. is_some j.idempotency_key) jobs

all_keyed-traverse :
    (rt : Runtime) (jobs : List EnqueueRequest) (pb_jobs : List PbEnqueueRequest)
    → traverse (enqueue_request_to_pb rt) jobs ≡ ok pb_jobs
    → all_keyed pb_jobs ≡ all (λ j. is_some j.idempotency_key) jobs
all_keyed-traverse rt [] pb_jobs h = ground arith
all_keyed-traverse rt (j ∷ js) pb_jobs h =
    let (m, e, rest) =
      >>=-eq-ok (enqueue_request_to_pb rt j)
        (λ y. traverse (enqueue_request_to_pb rt) js >>= λ ys. ok (y ∷ ys)) h in
    let (ms, es, same) =
      >>=-eq-ok (traverse (enqueue_request_to_pb rt) js) (λ ys. ok (m ∷ ys)) rest in
    ground
      (arith, all_keyed-traverse rt js ms es, (enqueue_request_to_pb-fields rt j e).idempotency_key)

all_keyed-map :
    (tp : String) (ts : Option String) (jobs : List PbEnqueueRequest)
    → all_keyed (map (inject_trace tp ts) jobs) ≡ all_keyed jobs
unfolding inject_trace
all_keyed-map tp ts [] = refl
all_keyed-map tp ts (j ∷ js) = ground (arith, all_keyed-map tp ts js)

all_keyed-inject :
    (env : Env) (span : String) (jobs : List PbEnqueueRequest)
    → all_keyed (inject_trace_into_jobs env span jobs) ≡ all_keyed jobs
unfolding inject_trace_into_jobs
all_keyed-inject env span jobs = elim (Option-cases (current_trace_headers env span)) [
  | inl e ↦ rw (e, inject_trace_into_jobs) refl
  | inr ((tp, ts), e) ↦ rw (e, inject_trace_into_jobs) (all_keyed-map tp ts jobs)
]

fatal_loop :
    (env : Env) {A : Type 0} (policy : RetryPolicy env.Float) (codes : CodeSet)
    (factory : M (World env) A) (left : ℕ) (backoff : Timedelta) (w failed : World env)
    (e : RpcError)
    → factory w ≡ (err (rpc_error e), failed)
    → codes e.code ≡ false
    → retry_loop env policy codes factory left backoff w ≡ (err (rpc_error e), failed)
unfolding retry_loop
fatal_loop env policy codes factory zero backoff w failed e h c = h
fatal_loop env policy codes factory (suc left) backoff w failed e h c =
    rw (h, retry_loop) (rw c refl)

-- The enqueue calls wrap a sequence of a first attempt that fails with a code outside the set.
fatal_transmit :
    (env : Env) {Resp : Type 0} (client : Client env) (span : String)
    (method : Rpc env.Server env.Float (List PbEnqueueRequest) Resp) (sent : List PbEnqueueRequest)
    (w failed : World env) (e : RpcError)
    → call env client method client.rpc_timeout span sent w ≡ (err (rpc_error e), failed)
    → enqueue_retryable_codes sent e.code ≡ false
    → transmit env client span method sent w
      ≡ (err (sepp (client_error (client_error_from_rpc e))), failed)
unfolding transmit with_retry
fatal_transmit env client span method sent w failed e h c =
    rw
      (fatal_loop env client.retry_policy (enqueue_retryable_codes sent)
        (call env client method client.rpc_timeout span sent) _ client.retry_policy.initial_backoff
        w failed e h c)
      refl

-- The code of a call whose commit may or may not have happened.
abbrev pub IsInDoubt : RpcError → Type 0
IsInDoubt e = (e.code ≡ deadline_exceeded) ⊎ (e.code ≡ aborted)

keyless_codes :
    (sent : List PbEnqueueRequest) (e : RpcError)
    → all_keyed sent ≡ false
    → IsInDoubt e
    → enqueue_retryable_codes sent e.code ≡ false
unfolding enqueue_retryable_codes keyless_enqueue_retryable_codes
keyless_codes sent e h d = elim d [ inl x ↦ rw (h, x) refl | inr x ↦ rw (h, x) refl ]

in_doubt_transport :
    (e : RpcError) → IsInDoubt e → client_error_from_rpc e ≡ transport (or_empty e.details)
unfolding client_error_from_rpc transport_codes
in_doubt_transport e d = elim d [ inl x ↦ rw x refl | inr x ↦ rw x refl ]

keyless_some : (jobs : List PbEnqueueRequest) → all_keyed jobs ≡ false → is_nil jobs ≡ false
keyless_some [] h = cc
keyless_some (j ∷ js) h = refl

keyless_send :
    (env : Env) {Resp A : Type 0} (client : Client env) (span : String)
    (method : Rpc env.Server env.Float (List PbEnqueueRequest) Resp) (jobs : List EnqueueRequest)
    (pb_jobs : List PbEnqueueRequest) (k : List PbEnqueueRequest → Resp → M (World env) A)
    (w failed : World env) (e : RpcError)
    → traverse (enqueue_request_to_pb env.runtime) jobs ≡ ok pb_jobs
    → all (λ j. is_some j.idempotency_key) jobs ≡ false
    → IsInDoubt e
    → call env client method client.rpc_timeout span (inject_trace_into_jobs env span pb_jobs) w
      ≡ (err (rpc_error e), failed)
    → send_jobs env client span method jobs k w
      ≡ (err (sepp (client_error (transport (or_empty e.details)))), failed)
unfolding send_jobs
keyless_send env client span method jobs pb_jobs k w failed e conv keyless d h =
    let sent = inject_trace_into_jobs env span pb_jobs in
    let bare : all_keyed pb_jobs ≡ false =
      all_keyed-traverse env.runtime jobs pb_jobs conv ∙ keyless in
    let bare_sent : all_keyed sent ≡ false = all_keyed-inject env span pb_jobs ∙ bare in
    rw (conv, send_jobs)
      (rw
        (
          keyless_some pb_jobs bare,
          fatal_transmit env client span method sent w failed e h
              (keyless_codes sent e bare_sent d),
        )
        (ap (λ x. (err (sepp (client_error x)), failed)) (in_doubt_transport e d)))

-- If a batch converts, one of its jobs has no idempotency key, and the first call of
-- `EnqueueBatch` fails with DEADLINE_EXCEEDED or ABORTED, then `enqueue_batch` makes no second
-- call: it raises a TransportError in the world that the first call left.
pub keyless_enqueue_batch :
    (env : Env) (client : Client env) (jobs : List EnqueueRequest) (pb_jobs : List PbEnqueueRequest)
    (w failed : World env) (e : RpcError)
    → traverse (enqueue_request_to_pb env.runtime) jobs ≡ ok pb_jobs
    → all (λ j. is_some j.idempotency_key) jobs ≡ false
    → IsInDoubt e
    → call env client env.stub_enqueue_batch client.rpc_timeout "sepp.enqueue"
        (inject_trace_into_jobs env "sepp.enqueue" pb_jobs)
        w
      ≡ (err (rpc_error e), failed)
    → enqueue_batch env client jobs w
      ≡ (err (sepp (client_error (transport (or_empty e.details)))), failed)
unfolding enqueue_batch
keyless_enqueue_batch env client jobs pb_jobs w failed e =
    keyless_send env client "sepp.enqueue" env.stub_enqueue_batch jobs pb_jobs (read_batch env) w
      failed e

-- The same for `enqueue_atomic` and the call of `EnqueueAtomic`: a job without an idempotency key
-- and a first failure with DEADLINE_EXCEEDED or ABORTED give a TransportError after one call.
keyless_enqueue_atomic :
    (env : Env) (client : Client env) (jobs : List EnqueueRequest) (pb_jobs : List PbEnqueueRequest)
    (w failed : World env) (e : RpcError)
    → traverse (enqueue_request_to_pb env.runtime) jobs ≡ ok pb_jobs
    → all (λ j. is_some j.idempotency_key) jobs ≡ false
    → IsInDoubt e
    → call env client env.stub_enqueue_atomic client.rpc_timeout "sepp.enqueue_atomic"
        (inject_trace_into_jobs env "sepp.enqueue_atomic" pb_jobs)
        w
      ≡ (err (rpc_error e), failed)
    → enqueue_atomic env client jobs w
      ≡ (err (sepp (client_error (transport (or_empty e.details)))), failed)
unfolding enqueue_atomic
keyless_enqueue_atomic env client jobs pb_jobs w failed e =
    keyless_send env client "sepp.enqueue_atomic" env.stub_enqueue_atomic jobs pb_jobs
      (read_atomic env) w failed e
