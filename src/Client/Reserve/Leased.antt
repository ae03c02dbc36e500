-- ===== src/Client/Reserve/Leased.antt =====
-- The jobs that a reserve call returns.
use sepp_py.Types.Time.{Timedelta}
use sepp_py.Errors.Exceptions.{overflow_error}
use sepp_py.Common.{
  ◌⊎◌, err, [], ◌∷◌, List, String, Option, some, ok, Result-cases, ◌≡◌, ◌≢◌, All, inl, inr, arith,
  ◌+ℤ◌, is_empty_iff,
}
use sepp_py.Types.Requests.{ReserveOptions}
use sepp_py.Types.Jobs.{Job}
use sepp_py.Wire.Messages.{PbJob}
use sepp_py.Wire.Runtime.{Runtime}
use sepp_py.Errors.Mapping.{reserve_error_from_rpc}
use sepp_py.Convert.Time.{datetime_to_millis}
use sepp_py.Convert.Outgoing.{reserve_options_to_pb}
use sepp_py.Convert.Incoming.{make_lease, job_from_pb}
use sepp_py.Client.Env.{Env}
use sepp_py.Client.Monad.{map_rpc_error, Outcome-cases, value-injective}
use sepp_py.Client.Policy.{Client, World}
use sepp_py.Client.Trace.{call}
use sepp_py.Client.Reserve.{
  reserve_deadline_slack, reserve_deadline, jobs_from_pb, jobs_or_none, reserve,
}

-- The deadline of a reserve call is out of range, or it is the wait timeout with the slack.
pub reserve_deadline-cases :
    (wait_timeout : Timedelta)
    → (reserve_deadline wait_timeout ≡ err overflow_error)
      ⊎ (reserve_deadline wait_timeout ≡ ok (wait_timeout +ℤ reserve_deadline_slack))
unfolding reserve_deadline
reserve_deadline-cases wait_timeout = ground arith

-- The job holds a lease of its own attempt, for the given worker, that is known to run until the
-- instant which the job itself shows.
abbrev pub IsLeasedTo : Option String → Job → Type 0
IsLeasedTo worker_id job =
    (job.ctx.id ≢ "")
    × (job.ctx.job_type ≢ "")
    × (job.ctx.lease
        ≡ some (record {
          job_id = job.ctx.id;
          attempt = job.ctx.attempt;
          worker_id = worker_id;
          known_expiry_ms = datetime_to_millis job.ctx.lease_expires_at;
        }))

job_from_pb-IsLeasedTo :
    (rt : Runtime) (j : PbJob) (worker_id : Option String) (job : Job)
    → job_from_pb rt j worker_id ≡ ok job
    → IsLeasedTo worker_id job
unfolding job_from_pb make_lease
job_from_pb-IsLeasedTo rt j worker_id job h =
    ground (arith, is_empty_iff j.id, is_empty_iff j.job_type)

jobs_from_pb-IsLeasedTo :
    (rt : Runtime) (worker_id : Option String) (js : List PbJob)
    → All (IsLeasedTo worker_id) (jobs_from_pb rt worker_id js)
unfolding jobs_from_pb
jobs_from_pb-IsLeasedTo rt worker_id [] = tt
jobs_from_pb-IsLeasedTo rt worker_id (j ∷ js) = elim (Result-cases (job_from_pb rt j worker_id)) [
  | inl (job, e) ↦
      rw (e, jobs_from_pb)
        (job_from_pb-IsLeasedTo rt j worker_id job e, jobs_from_pb-IsLeasedTo rt worker_id js)
  | inr (x, e) ↦ rw (e, jobs_from_pb) (jobs_from_pb-IsLeasedTo rt worker_id js)
]

some_jobs : (js jobs : List Job) → jobs_or_none js ≡ some jobs → (jobs ≢ []) × (js ≡ jobs)
some_jobs [] jobs h = ground arith
some_jobs (j ∷ js) jobs h = ground arith

-- Jobs that `reserve` returns are at least one, and each has an id, a job type and a lease for the
-- worker of the options.
pub reserve-IsLeasedTo :
    (env : Env) (client : Client env) (opts : ReserveOptions) (w : World env) (jobs : List Job)
    (w' : World env)
    → reserve env client opts w ≡ (ok (some jobs), w')
    → (jobs ≢ []) × All (IsLeasedTo opts.worker_id) jobs
unfolding reserve
reserve-IsLeasedTo env client opts w jobs w' h =
    elim (Result-cases (reserve_options_to_pb env.runtime opts)) [
      | inr (x, e) ↦ cc (rw (e, reserve) at h)
      | inl (req, e) ↦ elim (reserve_deadline-cases opts.wait_timeout) [
        | inl late ↦ cc (rw (e, late, reserve) at h)
        | inr d ↦
            elim (Outcome-cases (
              map_rpc_error reserve_error_from_rpc
                (call env client env.stub_reserve
                  (env.total_seconds (opts.wait_timeout +ℤ reserve_deadline_slack)) "sepp.reserve"
                  req)
                w)) [
                  | inr (r, w₁, f) ↦ cc (rw (e, d, f, reserve) at h)
                  | inl (resp, w₁, f) ↦
                      let js = jobs_from_pb env.runtime opts.worker_id resp in
                      let (some_job, same) =
                        some_jobs js jobs (value-injective (rw (e, d, f, reserve) at h)) in
                      let leased = jobs_from_pb-IsLeasedTo env.runtime opts.worker_id resp in
                      (some_job, rw same at leased)
                ]
      ]
    ]
