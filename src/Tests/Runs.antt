-- ===== src/Tests/Runs.antt =====
-- A worker that was built, and runs of its poll loop with one job in flight.
use sepp_py.Common.{
  ◌+◌, ◌-◌, ◌≤◌, max, ℤ, pos, ◌≤ℤ◌, true, false, List, [], ◌∷◌, length, Option, none, some, ok, ◌≡◌,
  refl, arith,
}
use sepp_py.Types.Time.{seconds, utc}
use sepp_py.Types.Requests.{ReserveOptions, check_queues, make_reserve_options}
use sepp_py.Types.Jobs.{Lease, Job}
use sepp_py.Worker.Config.{
  WorkerArgs, AutoExtend, Config, auto_extend_of, built, make_worker, reserve_opts_with_capacity,
}
use sepp_py.Worker.Config.Capacity.{IsWithin, reserve_opts_with_capacity_bounds}
use sepp_py.Worker.Loop.{
  Phase, Loop, spawn, task_done, take_batch, Reach, begin, next, enter, acquire, reserve_jobs,
}
use sepp_py.Worker.Loop.Permits.{IsAccounted, Reach-IsAccounted}
use sepp_py.Worker.Loop.Shutdown.{Steps, here, then_step, one_more_reserve}

abbrev pub args : WorkerArgs
args = record {
  queues = "emails" ∷ [];
  lease_duration = seconds 60;
  wait_timeout = none;
  max_jobs = some (pos 4);
  max_in_flight = pos 2;
  reserve_error_backoff = seconds 1;
  auto_extend = true;
  auto_extend_interval = none;
  worker_id = some "w1";
  default_id = "host-1-0";
}

abbrev pub options : Option ℤ → ReserveOptions
options n = record {
  queues = "emails" ∷ [];
  lease_duration = seconds 60;
  wait_timeout = seconds 30;
  worker_id = some "w1";
  max_jobs = n;
}

abbrev pub extending : AutoExtend
extending = record { explicit_interval = none; extend_by = seconds 60 }

abbrev pub config : Config
config = record {
  opts = options (some (pos 4));
  max_in_flight = 2;
  reserve_error_backoff = seconds 1;
  auto_extend = some extending;
}

program : Unit {0}
unfolding make_worker built auto_extend_of make_reserve_options check_queues
    reserve_opts_with_capacity spawn task_done take_batch
program = tt

pub built_worker : make_worker args ≡ ok config
unfolding program
built_worker = refl

reserve_opts_with_capacity_bounds_example :
    (k : ℤ) × (reserve_opts_with_capacity config 1 ≡ ok (options (some k)))
    × (pos 1 ≤ℤ k)
    × (k ≤ℤ pos (max 1 (2 - 1)))
    × IsWithin (some (pos 4)) k
reserve_opts_with_capacity_bounds_example =
    reserve_opts_with_capacity_bounds args config 1 built_worker

abbrev pub lease : Lease
lease = record { job_id = "job-1"; attempt = 1; worker_id = some "w1"; known_expiry_ms = pos 60000 }

abbrev pub job : Job
job = record {
  payload = none;
  ctx = record {
    id = "job-1";
    queue = "emails";
    job_type = "send_welcome";
    priority = record { value = pos 5 };
    attempt = 1;
    max_attempts = 3;
    enqueued_at = utc (pos 0);
    custom = [];
    trace_context = none;
    lease_expires_at = utc (pos 60000000);
    scheduled_at = none;
    lease = some lease;
  };
}

-- A server that answers with one job at a time.
abbrev pub Serves : ReserveOptions → List Job → Type 0
Serves opts jobs = length jobs ≡ 1

abbrev pub running : Loop
running = record {
  permits = 1;
  in_flight = 1;
  tasks = job ∷ [];
  phase = Phase.spawning [];
  shutdown = false;
  reserves = 1;
  received = job ∷ [];
  finished = [];
}

pub to_running : Reach Serves config running
unfolding program
to_running =
    next
      (next (next begin (enter refl refl))
        (acquire (options (some (pos 2))) refl (omega arith) refl))
      (reserve_jobs (options (some (pos 2))) job [] refl refl)

Reach-IsAccounted_example : IsAccounted config running
Reach-IsAccounted_example = Reach-IsAccounted to_running

-- The signal comes while `run` waits for a permit, and the permit is there.
abbrev pub signalled : Loop
signalled = record {
  permits = 2;
  in_flight = 0;
  tasks = [];
  phase = Phase.acquiring;
  shutdown = true;
  reserves = 0;
  received = [];
  finished = [];
}

abbrev pub last_reserve : Loop
last_reserve = record {
  permits = 1;
  in_flight = 0;
  tasks = [];
  phase = Phase.reserving (options (some (pos 2)));
  shutdown = true;
  reserves = 1;
  received = [];
  finished = [];
}

tie : Steps Serves config signalled last_reserve
unfolding program
tie = then_step here (acquire (options (some (pos 2))) refl (omega arith) refl)

one_more_reserve_example : 1 ≤ 0 + 1
one_more_reserve_example = one_more_reserve tie refl
