-- ===== src/Tests/Waits.antt =====
-- The arguments of a worker, and its poll loop before the first permit.
use sepp_py.Common.{pos, ◌<ℤ◌, some, [], false, IsOk, ◌≡◌, ◌≢◌, ◌↔◌, ◌⊎◌, refl}
use sepp_py.Types.Construct.{AllNamed, IsMaxJobs, IsWorkerId}
use sepp_py.Worker.Config.{default_worker_id, make_worker}
use sepp_py.Worker.Config.Build.{IsWait, make_worker_iff}
use sepp_py.Worker.Loop.{Phase, Loop, Reach, begin, next, enter}
use sepp_py.Worker.Loop.Progress.{IsOver, Moves, Reach-Moves}
use sepp_py.Tests.Runs.{args, config, built_worker, Serves}

abbrev waiting_loop : Loop
waiting_loop = record {
  permits = 2;
  in_flight = 0;
  tasks = [];
  phase = Phase.acquiring;
  shutdown = false;
  reserves = 0;
  received = [];
  finished = [];
}

to_waiting : Reach Serves config waiting_loop
to_waiting = next begin (enter refl refl)

Reach-Moves_example : IsOver Phase.acquiring ⊎ Moves Serves config waiting_loop
Reach-Moves_example = Reach-Moves args built_worker to_waiting refl

made_up_id : args.default_id ≡ default_worker_id (some "host") "1" "0"
unfolding default_worker_id
made_up_id = refl

make_worker_iff_example : IsOk (make_worker args) ↔ (
    (args.queues ≢ [])
    × AllNamed args.queues
    × (pos 0 <ℤ args.lease_duration)
    × IsMaxJobs args.max_jobs
    × IsWait args.wait_timeout
    × IsWorkerId args.worker_id)
make_worker_iff_example = make_worker_iff args (some "host") "1" "0" made_up_id
