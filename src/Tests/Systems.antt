-- ===== src/Tests/Systems.antt =====
-- A worker with a client: one job reserved from the server, run and acked.
use sepp_py.Common.{String, ◌+ℤ◌, ◌-ℤ◌, pos, true, [], ◌∷◌, none, some, ok, ◌≡◌, ◌≢◌, refl, arith}
use sepp_py.Types.Time.{seconds, utc}
use sepp_py.Types.Requests.{Primitive, make_reserve_options, check_queues}
use sepp_py.Types.Jobs.{Job}
use sepp_py.Client.Policy.{World}
use sepp_py.Convert.Values.{primitive_from_pb}
use sepp_py.Convert.Time.{timestamp_to_datetime, datetime_to_millis}
use sepp_py.Convert.Outgoing.{reserve_options_to_pb, set_uint32, set_text, texts_to_pb}
use sepp_py.Convert.Incoming.{
  job_from_pb, custom_from_pb, priority_from_pb, scheduled_at_from_pb, make_lease,
}
use sepp_py.Types.Priority.{make_priority}
use sepp_py.Client.Trace.{call}
use sepp_py.Client.Retry.{with_retry}
use sepp_py.Client.Lease.{set_attempt, ack}
use sepp_py.Worker.Heartbeat.{heartbeat}
use sepp_py.Client.Reserve.{reserve_deadline, reserve, jobs_from_pb}
use sepp_py.Client.Reserve.Sized.{IsSizedServer}
use sepp_py.Client.Reserve.Leased.{IsLeasedTo}
use sepp_py.Otel.Metrics.{record_in_flight_delta, record_processed, record_reserve_ok}
use sepp_py.Wire.Runtime.{IsText}
use sepp_py.Worker.Client.{QueueClient, sepp_client}
use sepp_py.Worker.Handlers.{Handlers, handler_for}
use sepp_py.Worker.Config.{reserve_opts_with_capacity}
use sepp_py.Worker.Process.{
  Handler, completed, returned, processed, run_job, run_handler, guarded_outcome, plain_outcome,
  finish, dispose,
}
use sepp_py.Worker.Loop
use sepp_py.Worker.Loop.{enter, acquire, Phase, take_batch, task_done, spawn}
use sepp_py.Worker.Loop.Supplied.{IsSupplied}
use sepp_py.Worker.Loop.Gauge.{step_metrics}
use sepp_py.Worker.System.{
  System, is_local, waited, reserved, processed_job, reserve_ended, task_ended, after_reserve,
  count_reserve, count_metrics, count_end, Reach, begin, next,
}
use sepp_py.Worker.System.Leased.{Reach-IsLeasedTo}
use sepp_py.Worker.System.Survives.{HasDeadline, HasTexts, never_crashed}
use sepp_py.Worker.System.Counted.{IsCounted, Reach-IsCounted}
use sepp_py.Tests.Runs.{args, built_worker, config, options}
use sepp_py.Tests.Reference.{scripted, client, world, reference-IsLawful}

abbrev pub service : QueueClient (World scripted)
service = sepp_client scripted client

abbrev pub handler : Handler (World scripted)
handler payload ctx w = (returned, record w { draws = 7 })

abbrev pub table : Handlers (Handler (World scripted))
table = record { table = ("send_welcome", handler) ∷ []; catch_all_handler = none }

-- Nothing else happens meanwhile.
abbrev pub Outside : World scripted → World scripted → Type 0
Outside w w' = ⊥

abbrev Run : System (World scripted) → Type 0
Run = Reach service Outside config table true (world [])

abbrev pub before_reserve : System (World scripted)
before_reserve = record {
  loop = record (Loop.start config) {
    permits = 1;
    phase = Phase.reserving (options (some (pos 2)));
    reserves = 1;
  };
  world = world [];
  metrics = record {
    enabled = true;
    counts = record {
      processed = 0;
      nacked_retry = 0;
      nacked_dead_letter = 0;
      in_flight = pos 0;
      reserves_some = 0;
      reserves_empty = 0;
      reserves_failed = 0;
    };
  };
  ends = [];
}

to_before_reserve : Run before_reserve
unfolding reserve_opts_with_capacity make_reserve_options check_queues is_local step_metrics
to_before_reserve =
    next (next begin (waited (enter refl refl) refl))
      (waited (acquire (options (some (pos 2))) refl (omega arith) refl) refl)

-- The job that `job_1` is decoded to.
abbrev pub job : Job
job = record {
  payload = none;
  ctx = record {
    id = "job-1";
    queue = "emails";
    job_type = "send_welcome";
    priority = record { value = pos 5 };
    attempt = 1;
    max_attempts = 3;
    enqueued_at = utc (pos 1600000000000000);
    custom = ("tenant", Primitive.str "acme") ∷ [];
    trace_context = none;
    lease_expires_at = utc (pos 1600000060000000);
    scheduled_at = none;
    lease = some (record {
      job_id = "job-1";
      attempt = 1;
      worker_id = some "w1";
      known_expiry_ms = pos 1600000060000;
    });
  };
}

pub scripted-IsSizedServer : IsSizedServer scripted
scripted-IsSizedServer req info s s' js h = ground (arith, h)

program : Unit {0}
unfolding reserve reserve_deadline set_attempt set_text texts_to_pb jobs_from_pb call
    reserve_options_to_pb job_from_pb custom_from_pb set_uint32 make_priority priority_from_pb
    timestamp_to_datetime primitive_from_pb scheduled_at_from_pb make_lease datetime_to_millis
    with_retry ack run_job run_handler guarded_outcome plain_outcome finish dispose handler_for
    heartbeat reserve_ended task_ended after_reserve count_reserve count_metrics count_end
    take_batch task_done spawn record_in_flight_delta record_processed record_reserve_ok ◌+ℤ◌ ◌-ℤ◌
    is_local step_metrics
program = tt

reserved_run :
    reserve scripted client (options (some (pos 2))) (world []) ≡ (ok (some (job ∷ [])), world [])
unfolding program
reserved_run = refl

abbrev pub at_end : System (World scripted)
at_end = record {
  loop = record (Loop.start config) {
    phase = Phase.spawning [];
    permits = 2;
    reserves = 1;
    received = job ∷ [];
    finished = job ∷ [];
  };
  world = record (world []) { draws = 7 };
  metrics = record {
    enabled = true;
    counts = record {
      processed = 1;
      nacked_retry = 0;
      nacked_dead_letter = 0;
      in_flight = pos 0;
      reserves_some = 1;
      reserves_empty = 0;
      reserves_failed = 0;
    };
  };
  ends = completed (processed ∷ []) ∷ [];
}

to_in_flight : Run (
    reserve_ended
      (options (some (pos 2)))
      (seconds 1)
      (reserve scripted client (options (some (pos 2))) (world []))
      before_reserve)
to_in_flight = next to_before_reserve (reserved (options (some (pos 2))) (seconds 1) refl)

pub to_at_end : Run at_end
unfolding program
to_at_end = next to_in_flight (processed_job job [] [] (pos 0) [] refl)

Reach-IsLeasedTo_example :
    IsSupplied IsLeasedTo
      (some "w1")
      (reserve_ended
        (options (some (pos 2)))
        (seconds 1)
        (reserve scripted client (options (some (pos 2))) (world []))
        before_reserve).loop
Reach-IsLeasedTo_example = Reach-IsLeasedTo client to_in_flight

Reach-IsCounted_example : IsCounted at_end
Reach-IsCounted_example = Reach-IsCounted to_at_end

worker_named : (s : String) → some "w1" ≡ some s → IsText s
worker_named s h = let same : "w1" ≡ s = ground (arith, h) in rw⁻¹ same refl

due : HasDeadline config.opts.wait_timeout
unfolding ◌+ℤ◌
due = ground arith

named : HasTexts config.opts
named = ((refl, tt), worker_named)

never_crashed_example : at_end.loop.phase ≢ Phase.crashed
never_crashed_example =
    never_crashed args built_worker (omega arith) due named reference-IsLawful client to_at_end

-- The signal, and the drain with no task left.
abbrev returned_system : System (World scripted)
returned_system = record at_end {
  loop = record at_end.loop { phase = Phase.stopped; shutdown = true };
}
