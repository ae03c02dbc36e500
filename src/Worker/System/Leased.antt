-- ===== src/Worker/System/Leased.antt =====
-- The jobs of a worker whose client is `SeppClient`, from the reserve call to the end of the task.
use sepp_py.Common.{Bool, String, Option, none, some, ◌≡◌, ◌≢◌, All, arith}
use sepp_py.Types.Requests.{Payload}
use sepp_py.Types.Jobs.{Job, JobCtx}
use sepp_py.Client.Env.{Env}
use sepp_py.Client.Policy.{Client, World}
use sepp_py.Client.Reserve.Leased.{IsLeasedTo, reserve-IsLeasedTo}
use sepp_py.Client.Reserve.Sized.{IsSizedServer, IsSized, reserve-IsSized}
use sepp_py.Wire.Runtime.{IsLawful}
use sepp_py.Worker.Config.{Config}
use sepp_py.Worker.Handlers.{Handlers, handler_for}
use sepp_py.Worker.Client.{sepp_client}
use sepp_py.Worker.Process.{Handler, TaskEnd, crashed, run_job}
use sepp_py.Worker.Process.Quiet.{IsProper, IsQuiet, sepp_client-IsTame, run_job-IsQuiet}
use sepp_py.Worker.Loop.Supplied.{All-split, IsSupplied, Reach-IsSupplied}
use sepp_py.Worker.System.{
  System, elsewhere, waited, reserved, processed_job, reserve_ended, task_ended, Reach, begin, next,
}
use sepp_py.Worker.System.Refines.{Reach-loop}

-- The task did not end by an exception.
abbrev pub IsCalm : TaskEnd → Type 0
IsCalm (crashed r) = ⊥
IsCalm _ = Unit

pub IsCalm-of_IsQuiet : {W : Type 0} (o : TaskEnd × W) → IsQuiet o → IsCalm o.0
IsCalm-of_IsQuiet (e, w) q = ground (arith, q)

pub leased_job :
    (worker_id : Option String) (job : Job) → IsLeasedTo worker_id job → job.ctx.lease ≢ none
leased_job worker_id job (id, type, lease) = ground (arith, lease)

module _ {env : Env} (client : Client env) {Outside : World env → World env → Type 0} {c : Config}
    {hs : Handlers (Handler (World env))} {otel_available : Bool} {w : World env} where
  -- Every job in flight, and every job that is left of a batch, has an id, a job type and a lease
  -- of its own attempt under the worker's own id.
  pub Reach-IsLeasedTo :
      {s : System (World env)}
      → Reach (sepp_client env client) Outside c hs otel_available w s
      → IsSupplied IsLeasedTo c.opts.worker_id s.loop
  Reach-IsLeasedTo r =
      Reach-IsSupplied IsLeasedTo
        (λ opts jobs (w₀, w₁, e). (reserve-IsLeasedTo env client opts w₀ jobs w₁ e).1)
        (Reach-loop (sepp_client env client) r)

  -- The same jobs have attempts that fit their field, where those from the wire have.
  Reach-IsSized :
      {s : System (World env)}
      → IsSizedServer env
      → Reach (sepp_client env client) Outside c hs otel_available w s
      → IsSupplied IsSized c.opts.worker_id s.loop
  Reach-IsSized sized r =
      Reach-IsSupplied IsSized
        (λ opts jobs (w₀, w₁, e). reserve-IsSized env client opts w₀ jobs w₁ sized e)
        (Reach-loop (sepp_client env client) r)

  -- Handlers that end properly never make a task of the worker end by an exception.
  pub ends-IsCalm :
      {s : System (World env)}
      → IsLawful env.runtime
      → IsSizedServer env
      → ((job_type : String) (h : Handler (World env)) (payload : Option Payload) (ctx : JobCtx)
            (w' : World env)
          → handler_for job_type hs ≡ some h
          → IsProper (h payload ctx w').0)
      → Reach (sepp_client env client) Outside c hs otel_available w s
      → All IsCalm s.ends
  unfolding reserve_ended task_ended
  ends-IsCalm lawful sized proper begin = tt
  ends-IsCalm lawful sized proper (next r (elsewhere w step)) = ends-IsCalm lawful sized proper r
  ends-IsCalm lawful sized proper (next r (waited x l)) = ends-IsCalm lawful sized proper r
  ends-IsCalm lawful sized proper (next r (reserved opts elapsed h)) =
      ends-IsCalm lawful sized proper r
  ends-IsCalm lawful sized proper (next {s} r (processed_job job before behind clock lates e)) =
      let supplied = Reach-IsLeasedTo r in
      let (leased, rest) =
        All-split (IsLeasedTo c.opts.worker_id) before job behind (rw e at supplied.tasks) in
      let (fits, others) =
        All-split (IsSized c.opts.worker_id) before job behind
          (rw e at (Reach-IsSized sized r).tasks) in
      (
        IsCalm-of_IsQuiet (run_job (sepp_client env client) c hs job clock lates s.world) (
            run_job-IsQuiet (sepp_client env client) (sepp_client-IsTame env client lawful) c hs job
              clock lates s.world (leased_job c.opts.worker_id job leased) fits
              (λ h w' found. proper job.ctx.job_type h job.payload job.ctx w' found)),
        ends-IsCalm lawful sized proper r,
      )
