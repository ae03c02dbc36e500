-- ===== src/Tests/Fleets.antt =====
-- A worker with one task at its own place in `_run_job`: its heartbeat loses the lease.
use sepp_py.Common.{◌+ℤ◌, ◌-ℤ◌, pos, true, [], ◌∷◌, Option, none, some, ◌≡◌, ◌≢◌, ◌⊎◌, refl, arith}
use sepp_py.Types.Time.{seconds}
use sepp_py.Types.Requests.{make_reserve_options, check_queues}
use sepp_py.Types.Priority.{make_priority}
use sepp_py.Types.Jobs.{Lease, Job}
use sepp_py.Errors.Codes.{not_found, retryable_codes}
use sepp_py.Errors.Mapping.{lease_error_from_rpc}
use sepp_py.Convert.Values.{primitive_from_pb}
use sepp_py.Convert.Time.{timestamp_to_datetime, datetime_to_millis, now_millis}
use sepp_py.Convert.Outgoing.{reserve_options_to_pb, set_uint32, set_text, texts_to_pb}
use sepp_py.Convert.Incoming.{
  job_from_pb, custom_from_pb, priority_from_pb, scheduled_at_from_pb, make_lease,
}
use sepp_py.Client.Policy.{World}
use sepp_py.Client.Trace.{call}
use sepp_py.Client.Retry.{with_retry}
use sepp_py.Client.Lease.{set_attempt, lease_extend, extend_inner}
use sepp_py.Client.Reserve.{reserve_deadline, reserve, jobs_from_pb}
use sepp_py.Worker.Config.{reserve_opts_with_capacity}
use sepp_py.Worker.Handlers.{handler_for}
use sepp_py.Worker.Heartbeat.{after_extend, beat_interval, heartbeat_interval, div_round}
use sepp_py.Worker.Process.{Ending, escaped, returned, lease_lost, completed, finish}
use sepp_py.Worker.Guard
use sepp_py.Worker.Loop.{signal, enter, acquire, Phase, take_batch, spawn}
use sepp_py.Worker.System.{is_local, after_reserve}
use sepp_py.Worker.Fleet.{
  Stage, created, guarded, settled, Fleet, with_first, is_still, Advance, begin_guarded, moves,
  ends_guarded, elsewhere, waited, reserved, advanced, Reach, begin, next,
}
use sepp_py.Worker.Fleet.Safe.{fleet-finish}
use sepp_py.Tests.Runs.{args, built_worker, config, extending, options}
use sepp_py.Tests.Reference.{scripted, world}
use sepp_py.Worker.Loop.Progress.{IsOver}
use sepp_py.Worker.Fleet.Return.{Returns, fleet_can_return}
use sepp_py.Tests.Systems
use sepp_py.Tests.Systems.{service, handler, table, before_reserve, job}

-- Every handler may do what it likes, and ends by returning.
abbrev Works : Job → World scripted → World scripted → Type 0
Works _ w w' = Unit

abbrev Acts : Job → World scripted → Lease → World scripted → Lease → Type 0
Acts _ w lease w' lease' = Unit

abbrev Ends : Job → Ending → Type 0
Ends _ e = e ≡ returned

abbrev Outside : World scripted → World scripted → Type 0
Outside w w' = Unit

abbrev Run : Fleet (World scripted) → Type 0
Run = Reach service config table Works Acts Ends Outside (world [])

abbrev reserving_fleet : Fleet (World scripted)
reserving_fleet = record { loop = before_reserve.loop; world = world []; runs = []; ends = [] }

to_reserving : Run reserving_fleet
unfolding reserve_opts_with_capacity make_reserve_options check_queues is_still is_local
to_reserving =
    next (next begin (waited (enter refl refl) refl))
      (waited (acquire (options (some (pos 2))) refl (omega arith) refl) refl)

-- The server gives the job out, and then refuses the next call.
abbrev with_stage : World scripted → Stage (World scripted) → Fleet (World scripted)
with_stage w stage = record {
  loop = record before_reserve.loop {
    in_flight = 1;
    tasks = job ∷ [];
    phase = Phase.spawning [];
    received = job ∷ [];
  };
  world = w;
  runs = record { job = job; stage = stage } ∷ [];
  ends = [];
}

program : Unit {0}
unfolding reserve reserve_deadline set_attempt set_text texts_to_pb jobs_from_pb call
    reserve_options_to_pb job_from_pb custom_from_pb set_uint32 make_priority priority_from_pb
    timestamp_to_datetime primitive_from_pb scheduled_at_from_pb make_lease datetime_to_millis
    after_reserve with_first take_batch spawn ◌+ℤ◌ ◌-ℤ◌ with_retry handler_for Guard.start
    Guard.hear after_extend lease_extend extend_inner beat_interval heartbeat_interval div_round
    retryable_codes lease_error_from_rpc Guard.verdict now_millis
program = tt

to_created : Run (with_stage (world (not_found ∷ [])) created)
unfolding program
to_created =
    next (next to_reserving (reserved (options (some (pos 2))) (seconds 1) refl))
      (elsewhere (world (not_found ∷ [])) tt)

abbrev job_lease : Lease
job_lease = record {
  job_id = "job-1";
  attempt = 1;
  worker_id = some "w1";
  known_expiry_ms = pos 1600000060000;
}

-- The last state of the guard: the lease is lost, and then the handler returns.
abbrev gone : Guard.Guard (World scripted)
gone = record {
  world = world [];
  lease = job_lease;
  clock = pos 1600000020000000;
  heart = Guard.over;
  is_lost = true;
  asked = true;
  ending = some returned;
  outcome = some lease_lost;
  calls = 1;
}

begun :
    Advance service config table Works Acts Ends job created
      (world (not_found ∷ []))
      (guarded (Guard.start extending job_lease (pos 1600000000000000) (world (not_found ∷ []))))
      (world (not_found ∷ []))
unfolding handler_for
begun = begin_guarded handler extending job_lease (pos 1600000000000000) refl refl refl

only : (e : Ending) → some returned ≡ some e → Ends job e
only e h = ground (arith, h)

never : (e : Ending) → ◌≡◌ {A = Option Ending} none (some e) → Ends job e
never e h = cc h

task :
    {stage stage' : Stage (World scripted)} {w w' : World scripted}
    → Advance service config table Works Acts Ends job stage w stage' w'
    → Run (with_stage w stage)
    → Run (with_stage w' stage')
task {stage'} {w'} a r = next r (advanced [] _ [] stage' w' refl a)

to_gone : Run (with_stage (world []) (guarded gone))
unfolding program
to_gone = task (moves extending refl (Guard.reaps returned refl refl) only) (
    task (moves extending refl (Guard.ends returned refl) only) (
      task (moves extending refl (Guard.hears _ refl) never) (
        task (moves extending refl (Guard.beats (pos 1600000020000000) refl (omega arith)) never)
          (task (moves extending refl (Guard.ticks 20000000) never) (task begun to_created)))))

to_settled : Run (with_stage (world []) (settled true lease_lost))
to_settled = task (ends_guarded lease_lost refl) to_gone

through : (j : Job) (e : Ending) → Ends j e → e ≢ escaped
through j e h x = ground (arith, h, x)

fleet-finish_example : finish service job.ctx (lease_lost, world []) ≡ (completed [], world [])
fleet-finish_example =
    fleet-finish service [] (record { job = job; stage = settled true lease_lost }) [] lease_lost
      (world []) through to_settled refl refl

abbrev at_end : Fleet (World scripted)
at_end = record {
  loop = record before_reserve.loop {
    permits = 2;
    phase = Phase.spawning [];
    received = job ∷ [];
    finished = job ∷ [];
  };
  world = world [];
  runs = [];
  ends = completed [] ∷ [];
}

-- The signal before the task has begun.
abbrev signalled : Fleet (World scripted)
signalled =
    let s = with_stage (world (not_found ∷ [])) created in
    record s { loop = record s.loop { shutdown = true } }

to_signalled : Run signalled
unfolding is_still is_local
to_signalled = next to_created (waited signal refl)

fleet_can_return_example :
    IsOver signalled.loop.phase ⊎ Returns service config table Works Acts Ends Outside signalled
fleet_can_return_example =
    fleet_can_return (λ j. (returned, refl)) args built_worker to_signalled refl
