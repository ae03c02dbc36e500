-- ===== src/Worker/System.antt =====
-- `run` with the client, the handlers and the metrics: the steps of the poll loop in which the
-- calls of `reserve`, and the tasks with their calls of `ack`, `nack` and `extend`, are the ones
-- that the client makes on the world.
pub mod Refines
pub mod Leased
pub mod Tallied
pub mod Counted
pub mod Survives
pub mod Stopped
pub mod Return
use sepp_py.Common.{
  ℕ, ◌+◌, pos, negsuc, ℤ, Bool, true, false, List, [], ◌∷◌, ◌++◌, Option, none, some, Result, ok,
  err, ◌≡◌, if◌then◌else◌,
}
use sepp_py.Types.Time.{Timedelta}
use sepp_py.Types.Requests.{ReserveOptions}
use sepp_py.Types.Jobs.{Job}
use sepp_py.Errors.Exceptions.{Raised, sepp}
use sepp_py.Otel.Metrics.{
  WorkerMetrics, make_metrics, record_processed, record_nacked, record_in_flight_delta,
  record_reserve_ok, record_reserve_failed,
}
use sepp_py.Worker.Config.{Config}
use sepp_py.Worker.Handlers.{Handlers}
use sepp_py.Worker.Client.{QueueClient}
use sepp_py.Worker.Process.{Handler, Metric, TaskEnd, processed, nacked, completed, run_job}
use sepp_py.Worker.Loop
use sepp_py.Worker.Loop.{
  Phase, top, resting, reserving, is_early_empty, take_batch, task_done, end_task, reserve_failed,
  reserve_crashed, reserve_empty, reserve_jobs,
}
use sepp_py.Worker.Loop.Gauge.{step_metrics}

-- `ends` says how the tasks of `loop.finished` ended, in the same order; the done callback logs it.
pub record System (W : Type 0) : Type 0 where
  pub loop : Loop.Loop
  pub world : W
  pub metrics : WorkerMetrics
  pub ends : List TaskEnd

abbrev pub start : {W : Type 0} → Config → (otel_available : Bool) → W → System W
start c otel_available w = record {
  loop = Loop.start c;
  world = w;
  metrics = make_metrics otel_available;
  ends = [];
}

-- What `run` does with the end of its reserve call: `jobs[0]` raises for an empty list.
unfoldable pub after_reserve :
    ReserveOptions
    → (elapsed : Timedelta) → Result Raised (Option (List Job))
    → Loop.Loop
    → Loop.Loop
after_reserve opts elapsed (ok none) s = record s {
  permits = s.permits + 1;
  phase = if is_early_empty elapsed opts then resting else top;
}
after_reserve opts elapsed (ok (some [])) s = record s { phase = Phase.crashed }
after_reserve opts elapsed (ok (some (job ∷ jobs))) s = take_batch job jobs s
after_reserve opts elapsed (err (sepp e)) s = record s { permits = s.permits + 1; phase = resting }
after_reserve opts elapsed (err r) s = record s { phase = Phase.crashed }

-- What it counts, with the `_spawn` of the first job.
unfoldable pub count_reserve : Result Raised (Option (List Job)) → WorkerMetrics → WorkerMetrics
count_reserve (ok none) m = record_reserve_ok true m
count_reserve (ok (some [])) m = record_reserve_ok false m
count_reserve (ok (some (job ∷ jobs))) m =
    record_in_flight_delta (pos 1) (record_reserve_ok false m)
count_reserve (err (sepp e)) m = record_reserve_failed m
count_reserve (err r) m = m

unfoldable pub count_metrics : List Metric → WorkerMetrics → WorkerMetrics
count_metrics [] m = m
count_metrics (processed ∷ ms) m = count_metrics ms (record_processed m)
count_metrics (nacked dead ∷ ms) m = count_metrics ms (record_nacked dead m)

unfoldable pub count_end : TaskEnd → WorkerMetrics → WorkerMetrics
unfolding count_metrics
count_end (completed ms) m = count_metrics ms m
count_end _ m = m

module _ {W : Type 0} where
  unfoldable pub reserve_ended :
      ReserveOptions → Timedelta → Result Raised (Option (List Job)) × W → System W → System W
  unfolding after_reserve count_reserve
  reserve_ended opts elapsed (r, w) s = record s {
    loop = after_reserve opts elapsed r s.loop;
    world = w;
    metrics = count_reserve r s.metrics;
  }

  -- The task of a job has run, and then its done callback.
  unfoldable pub task_ended : Job → (rest : List Job) → TaskEnd × W → System W → System W
  unfolding count_end
  task_ended job rest (e, w) s = record s {
    loop = task_done job rest s.loop;
    world = w;
    metrics = record_in_flight_delta (negsuc 0) (count_end e s.metrics);
    ends = e ∷ s.ends;
  }

abbrev pub Nothing : ReserveOptions → List Job → Type 0
Nothing opts jobs = ⊥

-- A step of the poll loop in which neither a reserve call nor a task ends.
unfoldable pub is_local : {c : Config} {s t : Loop.Loop} → Loop.Step Nothing c s t → Bool
is_local (end_task job before behind e) = false
is_local (reserve_failed opts h) = false
is_local (reserve_crashed opts h) = false
is_local (reserve_empty opts elapsed h) = false
is_local (reserve_jobs opts job jobs h served) = false
is_local _ = true

-- `Outside w w'` says that the world may turn from `w` to `w'` meanwhile: the server, other
-- clients, and the coroutines that are waiting. A task runs in the step that ends it; `clock` and
-- `lates` are those of its heartbeat.
module _ {W : Type 0} (qc : QueueClient W) (Outside : W → W → Type 0) (c : Config)
    (hs : Handlers (Handler W)) where
  pub data Step (s : System W) : System W → Type 0 where
    elsewhere : (w : W) → Outside s.world w → Step s (record s { world = w })
    waited :
        {l : Loop.Loop} (x : Loop.Step Nothing c s.loop l)
        → is_local x ≡ true
        → Step s (record s { loop = l; metrics = step_metrics x s.metrics })
    reserved :
        (opts : ReserveOptions) (elapsed : Timedelta)
        → s.loop.phase ≡ reserving opts
        → Step s (reserve_ended opts elapsed (qc.reserve_jobs opts s.world) s)
    processed_job :
        (job : Job) (before behind : List Job) (clock : ℤ) (lates : List ℕ)
        → s.loop.tasks ≡ before ++ job ∷ behind
        → Step s (task_ended job (before ++ behind) (run_job qc c hs job clock lates s.world) s)

  pub data Reach (otel_available : Bool) (w : W) : System W → Type 0 where
    begin : Reach otel_available w (start c otel_available w)
    next : {s t : System W} → Reach otel_available w s → Step s t → Reach otel_available w t
