-- ===== src/Tests/Beats.antt =====
-- The heartbeat of a running job, and how the job's task ends.
use sepp_py.Common.{pos, ◌+ℤ◌, ◌-ℤ◌, ◌<ℤ◌, [], ◌∷◌, none, ◌≡◌, refl, arith}
use sepp_py.Errors.Codes.{retryable_codes}
use sepp_py.Convert.Time.{now_millis, datetime_to_millis}
use sepp_py.Client.Policy.{World}
use sepp_py.Client.Lease.{ack, lease_extend, extend_inner}
use sepp_py.Client.Retry.{with_retry}
use sepp_py.Client.Trace.{call}
use sepp_py.Errors.Mapping.{lease_error_from_rpc}
use sepp_py.Worker.Client.{QueueClient, sepp_client}
use sepp_py.Worker.Handlers.{Handlers, handler_for}
use sepp_py.Worker.Heartbeat.{beat_interval, after_extend, heartbeat}
use sepp_py.Worker.Heartbeat.Deadline.{beat_interval_deadline}
use sepp_py.Worker.Process.{
  returned, Handler, processed, plain_outcome, guarded_outcome, completed, dispose, finish,
  run_handler, run_job,
}
use sepp_py.Worker.Process.Counted.{Counted, run_job-Counted}
use sepp_py.Tests.Runs.{config, extending, lease, job}
use sepp_py.Tests.Reference.{scripted, client, world}

beat_interval_deadline_example :
    now_millis (pos 1000000 +ℤ beat_interval extending lease (pos 1000000)) <ℤ pos 60000
unfolding now_millis datetime_to_millis ◌+ℤ◌ ◌-ℤ◌
beat_interval_deadline_example = beat_interval_deadline extending lease 1000000 refl (omega arith)

-- A handler that returns at once, and leaves a trace on the server.
abbrev worker_client : QueueClient (World scripted)
worker_client = sepp_client scripted client

abbrev handler : Handler (World scripted)
handler payload ctx w = (returned, record w { draws = 7 })

abbrev table : Handlers (Handler (World scripted))
table = record { table = ("send_welcome", handler) ∷ []; catch_all_handler = none }

program_of_beats : Unit {0}
unfolding handler_for heartbeat after_extend lease_extend extend_inner with_retry call
    retryable_codes lease_error_from_rpc
program_of_beats = tt

-- A job whose lease is kept, and which is acked.
acked_run :
    run_job worker_client config table job (pos 0) [] (world [])
    ≡ (completed (processed ∷ []), record (world []) { draws = 7 })
unfolding program_of_beats run_job run_handler guarded_outcome plain_outcome finish dispose ack
acked_run = refl

run_job-Counted_example :
    Counted worker_client job.ctx (processed ∷ []) (record (world []) { draws = 7 })
run_job-Counted_example =
    run_job-Counted worker_client config table job (pos 0) [] (world []) (processed ∷ [])
      (record (world []) { draws = 7 }) acked_run
