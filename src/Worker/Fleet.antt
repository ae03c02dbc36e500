-- ===== src/Worker/Fleet.antt =====
-- `run` with all of its tasks at once: each task in flight is at its own place in `_run_job`, and
-- the steps of the poll loop, of the handlers and of the heartbeats come in any order.
pub mod Refines
pub mod Fit
pub mod Lost
pub mod Safe
pub mod Ended
pub mod Begun
pub mod Return
use sepp_py.Common.{
  ◌+◌, ◌-◌, ◌<◌, ℤ, Bool, true, false, List, [], ◌∷◌, ◌++◌, map, Option, none, some, Result, ok,
  err, ◌≡◌,
}
use sepp_py.Types.Time.{Timedelta}
use sepp_py.Types.Requests.{ReserveOptions}
use sepp_py.Types.Jobs.{Lease, Job}
use sepp_py.Errors.Exceptions.{Raised}
use sepp_py.Client.Policy.{default}
use sepp_py.Worker.Config.{Config, AutoExtend}
use sepp_py.Worker.Handlers.{Handlers, handler_for}
use sepp_py.Worker.Client.{QueueClient}
use sepp_py.Worker.Process.{
  Ending, Handler, JobOutcome, no_lease, plain_outcome, TaskEnd, settle, finish,
}
use sepp_py.Worker.Guard
use sepp_py.Worker.Guard.{Guard}
use sepp_py.Worker.Loop
use sepp_py.Worker.Loop.{
  Phase, spawning, reserving, cancelled, held, is_cancellable, spawn, task_done, spawn_next, cancel,
}
use sepp_py.Worker.System.{Nothing, is_local, after_reserve}

-- Where the task of a job stands: before `_run_job`, in a handler without a heartbeat, in a handler
-- with one, or before `_dispose`, with the flag of a lost lease.
pub data Stage (W : Type 0) : Type 0 where
  created plain : Stage W
  guarded : Guard W → Stage W
  settled : (is_lost : Bool) → JobOutcome → Stage W

pub record Run (W : Type 0) : Type 0 where
  pub job : Job
  pub stage : Stage W

-- `runs` holds the tasks of `loop.tasks`, in the same order; `ends` says how tasks have ended.
pub record Fleet (W : Type 0) : Type 0 where
  pub loop : Loop.Loop
  pub world : W
  pub runs : List (Run W)
  pub ends : List TaskEnd

abbrev pub start : {W : Type 0} → Config → W → Fleet W
start c w = record { loop = Loop.start c; world = w; runs = []; ends = [] }

abbrev pub new_run : {W : Type 0} → Job → Run W
new_run job = record { job = job; stage = created }

-- The task that the end of a reserve call starts.
unfoldable pub with_first :
    {W : Type 0} → Result Raised (Option (List Job)) → List (Run W) → List (Run W)
with_first (ok (some (job ∷ jobs))) runs = new_run job ∷ runs
with_first _ runs = runs

-- A step of the poll loop in which no reserve call ends and the tasks stay the same.
unfoldable pub is_still : {c : Config} {s t : Loop.Loop} → Loop.Step Nothing c s t → Bool
unfolding is_local
is_still (spawn_next job jobs h free) = false
is_still (cancel h) = false
is_still x = is_local x

-- `Works job w w'`: the handler of a job may take the world from `w` to `w'` between two of its
-- await points; `Acts` says it of a handler with a heartbeat, which may extend its lease itself;
-- `Ends job e`: it may end this way.
module _ {W : Type 0} (qc : QueueClient W) (c : Config) (hs : Handlers (Handler W))
    (Works : Job → W → W → Type 0) (Acts : Job → W → Lease → W → Lease → Type 0)
    (Ends : Job → Ending → Type 0) where
  -- `_run_job` up to `_dispose`: `Advance job stage w stage' w'`.
  pub data Advance (job : Job) : Stage W → W → Stage W → W → Type 0 where
    begin_plain :
        {w : W} (h : Handler W)
        → handler_for job.ctx.job_type hs ≡ some h
        → c.auto_extend ≡ none
        → Advance job created w plain w
    begin_guarded :
        {w : W} (h : Handler W) (cfg : AutoExtend) (lease : Lease) (clock : ℤ)
        → handler_for job.ctx.job_type hs ≡ some h
        → c.auto_extend ≡ some cfg
        → job.ctx.lease ≡ some lease
        → Advance job created w (guarded (Guard.start cfg lease clock w)) w
    begin_unleased :
        {w : W} (h : Handler W) (cfg : AutoExtend)
        → handler_for job.ctx.job_type hs ≡ some h
        → c.auto_extend ≡ some cfg
        → job.ctx.lease ≡ none
        → Advance job created w (settled false no_lease) w
    works : {w w' : W} → Works job w w' → Advance job plain w plain w'
    ends_plain :
        {w : W} (e : Ending) → Ends job e → Advance job plain w (settled false (plain_outcome e)) w
    moves :
        {w : W} {g g' : Guard W} (cfg : AutoExtend)
        → c.auto_extend ≡ some cfg
        → Guard.Step qc cfg (Acts job) (record g { world = w }) g'
        → ((e : Ending) → g'.ending ≡ some e → Ends job e)
        → Advance job (guarded g) w (guarded g') g'.world
    ends_guarded :
        {w : W} {g : Guard W} (o : JobOutcome)
        → g.outcome ≡ some o
        → Advance job (guarded g) w (settled g.is_lost o) w

  -- The rest of `_run_job`, in one step.
  pub data Finish (job : Job) : Stage W → W → TaskEnd × W → Type 0 where
    unhandled :
        {w : W}
        → handler_for job.ctx.job_type hs ≡ none
        → Finish job created w
            (settle (λ _. []) (qc.nack_job job.ctx default "no handler registered for job_type" w))
    disposed :
        {w : W} (is_lost : Bool) (o : JobOutcome)
        → Finish job (settled is_lost o) w (finish qc job.ctx (o, w))

  pub data Step (Outside : W → W → Type 0) (s : Fleet W) : Fleet W → Type 0 where
    elsewhere : (w : W) → Outside s.world w → Step Outside s (record s { world = w })
    waited :
        {l : Loop.Loop} (x : Loop.Step Nothing c s.loop l)
        → is_still x ≡ true
        → Step Outside s (record s { loop = l })
    reserved :
        (opts : ReserveOptions) (elapsed : Timedelta)
        → s.loop.phase ≡ reserving opts
        → Step Outside s (record s {
          loop = after_reserve opts elapsed (qc.reserve_jobs opts s.world).0 s.loop;
          world = (qc.reserve_jobs opts s.world).1;
          runs = with_first (qc.reserve_jobs opts s.world).0 s.runs;
        })
    spawned :
        (job : Job) (jobs : List Job)
        → s.loop.phase ≡ spawning (job ∷ jobs)
        → 0 < s.loop.permits
        → Step Outside s (record s {
          loop = spawn job (record s.loop { permits = s.loop.permits - 1; phase = spawning jobs });
          runs = new_run job ∷ s.runs;
        })
    advanced :
        (before : List (Run W)) (r : Run W) (behind : List (Run W)) (stage : Stage W) (w : W)
        → s.runs ≡ before ++ r ∷ behind
        → Advance r.job r.stage s.world stage w
        → Step Outside s
            (record s { world = w; runs = before ++ record r { stage = stage } ∷ behind })
    ended :
        (before : List (Run W)) (r : Run W) (behind : List (Run W)) (o : TaskEnd × W)
        → s.runs ≡ before ++ r ∷ behind
        → Finish r.job r.stage s.world o
        → Step Outside s (record s {
          loop = task_done r.job (map (λ x. x.job) before ++ map (λ x. x.job) behind) s.loop;
          world = o.1;
          runs = before ++ behind;
          ends = o.0 ∷ s.ends;
        })
    cancelled_run :
        is_cancellable s.loop.phase ≡ true
        → Step Outside s (record s {
          loop = record s.loop {
            tasks = [];
            permits = s.loop.permits + s.loop.in_flight;
            in_flight = 0;
            phase = cancelled (held s.loop.phase);
          };
          runs = [];
        })

  pub data Reach (Outside : W → W → Type 0) (w : W) : Fleet W → Type 0 where
    begin : Reach Outside w (start c w)
    next : {s t : Fleet W} → Reach Outside w s → Step Outside s t → Reach Outside w t
