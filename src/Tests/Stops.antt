-- ===== src/Tests/Stops.antt =====
-- The shutdown signal before the first reservation, and the metrics of a first batch.
use sepp_py.Common.{
  ℤ, ◌≤ℤ◌, false, [], ◌∷◌, ◌≡◌, pos, some, ◌+◌, ◌*◌, ◌≤◌, List, length, refl, arith,
}
use sepp_py.Types.Requests.{ReserveOptions, make_reserve_options}
use sepp_py.Types.Jobs.{Job}
use sepp_py.Worker.Config.{reserve_opts_with_capacity}
use sepp_py.Worker.Loop.{
  Phase, Loop, take_batch, Reach, begin, next, signal, enter, acquire, reserve_jobs,
}
use sepp_py.Worker.Loop.Termination.{Takes, none_yet, one_more, shutdown_terminates}
use sepp_py.Worker.Loop.Batch.{batch_has_permits}
use sepp_py.Tests.Runs.{args, options, job, config, built_worker, Serves, signalled, last_reserve}

to_signalled : Reach Serves config signalled
to_signalled = next (next begin (enter refl refl)) signal

tie : Takes Serves config signalled 1 last_reserve
unfolding reserve_opts_with_capacity make_reserve_options
tie = one_more none_yet (acquire (options (some (pos 2))) refl (omega arith) refl) tt

single : (opts : ReserveOptions) (jobs : List Job) → Serves opts jobs → length jobs ≤ 1
single opts jobs h = ground (arith, h)

shutdown_terminates_example : 1 ≤ 2 * 1 + 5 + 2
shutdown_terminates_example = shutdown_terminates 1 single to_signalled refl tie

-- A batch of two jobs, of which the second is still to be started.
abbrev Fills : ReserveOptions → List Job → Type 0
Fills opts jobs = (k : ℤ) → opts.max_jobs ≡ some k → pos (length jobs) ≤ℤ k

abbrev half_started : Loop
half_started = record {
  permits = 1;
  in_flight = 1;
  tasks = job ∷ [];
  phase = Phase.spawning (job ∷ []);
  shutdown = false;
  reserves = 1;
  received = job ∷ job ∷ [];
  finished = [];
}

two_fit : Fills (options (some (pos 2))) (job ∷ job ∷ [])
two_fit k h = ground (arith, h)

to_half_started : Reach Fills config half_started
unfolding reserve_opts_with_capacity make_reserve_options take_batch
to_half_started =
    next
      (next (next begin (enter refl refl))
        (acquire (options (some (pos 2))) refl (omega arith) refl))
      (reserve_jobs (options (some (pos 2))) job (job ∷ []) refl two_fit)

batch_has_permits_example : length (job ∷ []) ≤ 1
batch_has_permits_example =
    batch_has_permits args built_worker (λ opts jobs k fits h. fits k h) (job ∷ []) to_half_started
      refl
