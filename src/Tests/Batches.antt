-- ===== src/Tests/Batches.antt =====
-- Batches row by row, the sleeps of a retried call, and every operation of the client.
use sepp_py.Common.{ℕ, max_ℤ, ◌+ℤ◌, some, ◌≤◌, pos, List, [], ◌∷◌, ok, none, ◌≡◌, ◌≢◌, refl, arith}
use sepp_py.Wire.Messages.{
  PbJob, PbReserveRequest, PbDeadLetterRecord, PbEnqueueRequest, PbEnqueueResponse, PbJobResult,
  PbEnqueueAtomicResponse,
}
use sepp_py.Errors.Codes.{unavailable, retryable_codes}
use sepp_py.Convert.Rejection.{enqueue_ack_from_pb}
use sepp_py.Client.Policy.{World}
use sepp_py.Client.Retry.{with_retry}
use sepp_py.Client.Retry.Delays.{IsOrder, Delayed, with_retry-Delayed}
use sepp_py.Client.Trace.{call}
use sepp_py.Client.Enqueue.{acked, job_result_from_pb, transmit}
use sepp_py.Client.Enqueue.Traced.{IsSent}
use sepp_py.Client.Enqueue.Exchange.{Rows}
use sepp_py.Client.Enqueue.Rows.{enqueue_batch-Rows, enqueue_atomic-Rows}
use sepp_py.Client.Reserve.{reserve_deadline_slack, jobs_or_none}
use sepp_py.Client.Reserve.Once.{Kept, Answers, reserve-Kept, drain_dead_letters-Kept}
use sepp_py.Types.Jobs.{Job}
use sepp_py.Convert.Incoming.{job_from_pb, dead_letter_record_from_pb}
use sepp_py.Convert.Outgoing.{reserve_options_to_pb}
use sepp_py.Client.Admin.{records_from_pb, drain_dead_letters}
use sepp_py.Tests.Reference.{scripted, client, policy, world}
use sepp_py.Tests.Calls.{
  request, receipt, rested, enqueue_after_failure, atomic_after_failure, reserve_request, poll,
  received, reserved,
}

enqueue_batch-Rows_example :
    (request ∷ [] ≢ [])
    × (sent : List PbEnqueueRequest) × (results : List PbJobResult) × (transmit scripted client
          "sepp.enqueue" scripted.stub_enqueue_batch sent
          (world (unavailable ∷ []))
        ≡ (ok results, rested))
    × Rows
        (λ job s result out.
          IsSent scripted "sepp.enqueue" job s
          × (job_result_from_pb scripted.runtime result ≡ ok out))
        (request ∷ [])
        sent
        results
        (acked receipt ∷ [])
enqueue_batch-Rows_example =
    enqueue_batch-Rows scripted client (request ∷ []) (world (unavailable ∷ []))
      (acked receipt ∷ []) rested enqueue_after_failure

enqueue_atomic-Rows_example :
    (request ∷ [] ≢ [])
    × (sent : List PbEnqueueRequest) × (responses : List PbEnqueueResponse) × (transmit scripted
          client "sepp.enqueue_atomic" scripted.stub_enqueue_atomic sent
          (world (unavailable ∷ []))
        ≡ (ok (PbEnqueueAtomicResponse.success responses), rested))
    × Rows
        (λ job s response a.
          IsSent scripted "sepp.enqueue_atomic" job s × (a ≡ enqueue_ack_from_pb response))
        (request ∷ [])
        sent
        responses
        (receipt ∷ [])
enqueue_atomic-Rows_example =
    enqueue_atomic-Rows scripted client (request ∷ []) (world (unavailable ∷ [])) (receipt ∷ [])
      rested atomic_after_failure

-- The scripted floats are natural numbers.
scripted-IsOrder : IsOrder scripted (λ a b. a ≤ b)
scripted-IsOrder = record { min_float_right = λ a b. ground arith; from_seconds_mono = λ x d h. h }

call_awake :
    (w : World scripted)
    → (call scripted client scripted.stub_reserve 1 "sepp.reserve" reserve_request w).1.sleeps
      ≡ w.sleeps
unfolding call
call_awake w = refl

with_retry-Delayed_example :
    Delayed scripted
      (λ a b. a ≤ b)
      policy
      2
      (world (unavailable ∷ []))
      (with_retry scripted policy retryable_codes
        (call scripted client scripted.stub_reserve 1 "sepp.reserve" reserve_request)
        (world (unavailable ∷ [])))
with_retry-Delayed_example =
    with_retry-Delayed scripted (λ a b. a ≤ b) policy scripted-IsOrder retryable_codes
      (call scripted client scripted.stub_reserve 1 "sepp.reserve" reserve_request) call_awake
      (world (unavailable ∷ []))

reserve-Kept_example :
    (req : PbReserveRequest) × (messages : List PbJob) × (jobs : List Job) × (reserve_options_to_pb
        scripted.runtime poll
      ≡ ok req)
    × Answers scripted client scripted.stub_reserve
        (scripted.total_seconds (poll.wait_timeout +ℤ reserve_deadline_slack))
        "sepp.reserve"
        req
        (world [])
        messages
        (world [])
    × (some (received ∷ []) ≡ jobs_or_none jobs)
    × Kept (λ j. job_from_pb scripted.runtime j poll.worker_id) messages jobs
reserve-Kept_example =
    reserve-Kept scripted client poll (world []) (some (received ∷ [])) (world []) reserved

drained_none : drain_dead_letters scripted client none (pos 0) (world []) ≡ (ok [], (world []))
unfolding drain_dead_letters records_from_pb call
drained_none = refl

drain_dead_letters-Kept_example :
    (n : ℕ) × (messages : List PbDeadLetterRecord) × (scripted.runtime.uint32
        (max_ℤ (pos 0) (pos 1))
      ≡ some n)
    × Answers scripted client scripted.stub_drain_dead_letters client.rpc_timeout
        "sepp.drain_dead_letters"
        (record { queue = none; max_records = n })
        (world [])
        messages
        (world [])
    × Kept (dead_letter_record_from_pb scripted.runtime) messages []
drain_dead_letters-Kept_example =
    drain_dead_letters-Kept scripted client none (pos 0) (world []) [] (world []) drained_none
