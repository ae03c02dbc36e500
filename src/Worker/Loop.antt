-- ===== src/Worker/Loop.antt =====
-- `run`, `_spawn` and `_or_shutdown`: the poll loop as a step relation between its await points.
-- The event loop, the server, the handlers and the caller choose which step comes next.
pub mod Permits
pub mod Drain
pub mod Shutdown
pub mod Progress
pub mod Termination
pub mod Gauge
pub mod Stop
pub mod Batch
pub mod Supplied
use sepp_py.Common.{
  ltb_ℤ, min_ℤ, if◌then◌else◌, ℕ, ◌+◌, ◌-◌, ◌<◌, Bool, true, false, List, [], ◌∷◌, ◌++◌, ◌≡◌, ok,
}
use sepp_py.Types.Time.{Timedelta, milliseconds}
use sepp_py.Types.Requests.{ReserveOptions}
use sepp_py.Types.Jobs.{Job}
use sepp_py.Worker.Heartbeat.{div_round}
use sepp_py.Worker.Config.{Config, reserve_opts_with_capacity}

-- Where the coroutine `run` stands.
pub data Phase : Type 0 where
  top : Phase  -- the test of `while not shutdown.is_shutdown`
  acquiring : Phase  -- awaiting `sem.acquire()`, racing shutdown
  reserving : ReserveOptions → Phase  -- awaiting `reserve(opts)`, racing shutdown
  resting : Phase  -- one of the two backoff sleeps, racing shutdown
  spawning : List Job → Phase  -- the loop over `jobs[1:]`, with the jobs that are left
  draining : Phase  -- awaiting the in-flight tasks
  stopped : Phase  -- `run` has returned
  crashed : Phase  -- `reserve` raised something else than a `SeppError`, and `run` raised it
  cancelled : (held : ℕ) → Phase  -- `run` was cancelled, with the permits that it held

-- Whether an empty answer came well short of the wait window.
unfoldable pub is_early_empty : Timedelta → ReserveOptions → Bool
unfolding div_round
is_early_empty elapsed opts =
    ltb_ℤ elapsed (min_ℤ (milliseconds 100) (div_round opts.wait_timeout 2))

-- `permits` is the semaphore's value. `reserves` counts the calls of `reserve`; `received` and
-- `finished` list the jobs that reserve calls returned and that tasks have ended, latest first.
pub record Loop : Type 0 where
  pub permits : ℕ
  pub in_flight : ℕ
  pub tasks : List Job
  pub phase : Phase
  pub shutdown : Bool
  pub reserves : ℕ
  pub received : List Job
  pub finished : List Job

abbrev pub start : Config → Loop
start c = record {
  permits = c.max_in_flight;
  in_flight = 0;
  tasks = [];
  phase = top;
  shutdown = false;
  reserves = 0;
  received = [];
  finished = [];
}

-- The permits that `run` itself holds: the one for the reservation.
abbrev pub held : Phase → ℕ
held (reserving opts) = 1
held crashed = 1
held (cancelled n) = n
held _ = 0

-- Whether `run` can be cancelled here: the places where it waits. In the loop its `except` clause
-- cancels the tasks; while draining `gather` does.
abbrev pub is_cancellable : Phase → Bool
is_cancellable acquiring = true
is_cancellable (reserving opts) = true
is_cancellable resting = true
is_cancellable (spawning jobs) = true
is_cancellable draining = true
is_cancellable _ = false

-- `_spawn` with a permit in hand: the task starts.
unfoldable pub spawn : Job → Loop → Loop
spawn job s = record s { in_flight = s.in_flight + 1; tasks = job ∷ s.tasks }

-- `_done`: the task leaves the set, its permit is released.
unfoldable pub task_done : Job → List Job → Loop → Loop
task_done job rest s = record s {
  tasks = rest;
  permits = s.permits + 1;
  in_flight = s.in_flight - 1;
  finished = job ∷ s.finished;
}

-- `received` gets the jobs of a batch; the first inherits the permit that is held.
unfoldable pub take_batch : Job → List Job → Loop → Loop
unfolding spawn
take_batch job jobs s =
    spawn job (record s { phase = spawning jobs; received = (job ∷ jobs) ++ s.received })

-- `Serves opts jobs` says that the server may answer a reserve call with these jobs, which are
-- well formed and at least one. Where an awaited call and the shutdown signal race, a step of
-- the call may come also after the signal, since the awaited result wins a tie.
module _ (Serves : ReserveOptions → List Job → Type 0) (c : Config) where
  pub data Step (s : Loop) : Loop → Type 0 where
    signal : Step s (record s { shutdown = true })
    end_task :
        (job : Job) (before behind : List Job)
        → s.tasks ≡ before ++ job ∷ behind
        → Step s (task_done job (before ++ behind) s)
    enter : s.phase ≡ top → s.shutdown ≡ false → Step s (record s { phase = acquiring })
    leave : s.phase ≡ top → s.shutdown ≡ true → Step s (record s { phase = draining })
    acquire :
        (opts : ReserveOptions)
        → s.phase ≡ acquiring
        → 0 < s.permits
        → reserve_opts_with_capacity c s.in_flight ≡ ok opts
        → Step s (record s {
          permits = s.permits - 1;
          phase = reserving opts;
          reserves = s.reserves + 1;
        })
    acquire_abandoned :
        s.phase ≡ acquiring → s.shutdown ≡ true → Step s (record s { phase = draining })
    reserve_failed :
        (opts : ReserveOptions)
        → s.phase ≡ reserving opts
        → Step s (record s { permits = s.permits + 1; phase = resting })
    reserve_abandoned :
        (opts : ReserveOptions)
        → s.phase ≡ reserving opts
        → s.shutdown ≡ true
        → Step s (record s { permits = s.permits + 1; phase = draining })
    reserve_crashed :
        (opts : ReserveOptions) → s.phase ≡ reserving opts → Step s (record s { phase = crashed })
    reserve_empty :
        (opts : ReserveOptions) (elapsed : Timedelta)
        → s.phase ≡ reserving opts
        → Step s (record s {
          permits = s.permits + 1;
          phase = if is_early_empty elapsed opts then resting else top;
        })
    reserve_jobs :
        (opts : ReserveOptions) (job : Job) (jobs : List Job)
        → s.phase ≡ reserving opts
        → Serves opts (job ∷ jobs)
        → Step s (take_batch job jobs s)
    spawn_next :
        (job : Job) (jobs : List Job)
        → s.phase ≡ spawning (job ∷ jobs)
        → 0 < s.permits
        → Step s (spawn job (record s { permits = s.permits - 1; phase = spawning jobs }))
    batch_done : s.phase ≡ spawning [] → Step s (record s { phase = top })
    rested : s.phase ≡ resting → Step s (record s { phase = top })
    rest_abandoned : s.phase ≡ resting → s.shutdown ≡ true → Step s (record s { phase = draining })
    drained : s.phase ≡ draining → s.tasks ≡ [] → Step s (record s { phase = stopped })
    cancel :
        is_cancellable s.phase ≡ true
        → Step s (record s {
          tasks = [];
          permits = s.permits + s.in_flight;
          in_flight = 0;
          phase = cancelled (held s.phase);
        })

  pub data Reach : Loop → Type 0 where
    begin : Reach (start c)
    next : {s t : Loop} → Reach s → Step s t → Reach t
