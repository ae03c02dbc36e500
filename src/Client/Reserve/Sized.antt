-- ===== src/Client/Reserve/Sized.antt =====
-- The attempts of the jobs that a reserve call returns.
use sepp_py.Common.{◌<◌, ◌^◌, List, [], ◌∷◌, String, Option, some, ok, ◌≡◌, All, arith}
use sepp_py.Types.Requests.{ReserveOptions}
use sepp_py.Types.Jobs.{Job}
use sepp_py.Wire.Messages.{PbJob, PbReserveRequest}
use sepp_py.Wire.Runtime.{Runtime}
use sepp_py.Convert.Incoming.{job_from_pb}
use sepp_py.Client.Env.{Env, CallInfo}
use sepp_py.Client.Policy.{Client, World}
use sepp_py.Client.Reserve.{jobs_or_none, reserve}
use sepp_py.Client.Reserve.Once.{Kept, end, kept, skipped, reserve-Kept}

-- The attempt of a job that comes from the wire is that of an unsigned 32-bit field.
abbrev pub IsSizedServer : Env → Type 0
IsSizedServer env =
    (req : PbReserveRequest) (info : CallInfo env.Float) (s s' : env.Server) (js : List PbJob)
    → env.stub_reserve req info s ≡ (ok js, s')
    → All (λ j. j.attempt < 2 ^ 32) js

-- The worker id is that of the poll loop, and does not matter here.
abbrev pub IsSized : Option String → Job → Type 0
IsSized worker_id job = job.ctx.attempt < 2 ^ 32

job_from_pb-attempt :
    (rt : Runtime) (j : PbJob) (worker_id : Option String) (job : Job)
    → job_from_pb rt j worker_id ≡ ok job
    → job.ctx.attempt ≡ j.attempt
unfolding job_from_pb
job_from_pb-attempt rt j worker_id job h = ground (arith, h)

Kept-IsSized :
    (rt : Runtime) (worker_id : Option String) {js : List PbJob} {jobs : List Job}
    → Kept (λ j. job_from_pb rt j worker_id) js jobs
    → All (λ j. j.attempt < 2 ^ 32) js
    → All (IsSized worker_id) jobs
Kept-IsSized rt worker_id end h = tt
Kept-IsSized rt worker_id (kept {m} {v} e rest) (p, h) =
    (rw (job_from_pb-attempt rt m worker_id v e) p, Kept-IsSized rt worker_id rest h)
Kept-IsSized rt worker_id (skipped e rest) (p, h) = Kept-IsSized rt worker_id rest h

none_lost :
    (worker_id : Option String) (kept_jobs jobs : List Job)
    → some jobs ≡ jobs_or_none kept_jobs
    → All (IsSized worker_id) kept_jobs
    → All (IsSized worker_id) jobs
none_lost worker_id [] jobs e h = ground arith
none_lost worker_id (j ∷ js) jobs e h = let same : jobs ≡ j ∷ js = ground (arith, e) in rw same h

-- Where the jobs from the wire have attempts of an unsigned 32-bit field, so have those that
-- `reserve` returns.
pub reserve-IsSized :
    (env : Env) (client : Client env) (opts : ReserveOptions) (w : World env) (jobs : List Job)
    (w' : World env)
    → IsSizedServer env
    → reserve env client opts w ≡ (ok (some jobs), w')
    → All (IsSized opts.worker_id) jobs
reserve-IsSized env client opts w jobs w' sized h =
    let (req, messages, kept_jobs, e, (server, answer, same), out, decoded) =
      reserve-Kept env client opts w (some jobs) w' h in
    none_lost opts.worker_id kept_jobs jobs out (
      Kept-IsSized env.runtime opts.worker_id decoded (sized req _ w.server server messages answer))
