-- ===== src/Client/Reserve.antt =====
-- `reserve`: a long poll that is not retried.
pub mod Leased
pub mod Once
pub mod Sized
use sepp_py.Common.{
  List, [], ◌∷◌, String, Option, none, some, Result, ok, err, ◌+ℤ◌, leb_ℤ, if◌then◌else◌,
}
use sepp_py.Types.Time.{Timedelta, seconds, max_timedelta}
use sepp_py.Types.Requests.{ReserveOptions}
use sepp_py.Types.Jobs.{Job}
use sepp_py.Wire.Messages.{PbJob}
use sepp_py.Wire.Runtime.{Runtime}
use sepp_py.Errors.Exceptions.{Raised, JobConversionError, overflow_error}
use sepp_py.Errors.Mapping.{reserve_error_from_rpc}
use sepp_py.Convert.Outgoing.{reserve_options_to_pb}
use sepp_py.Convert.Incoming.{job_from_pb}
use sepp_py.Client.Env.{Env}
use sepp_py.Client.Monad.{M, ◌>>=◌, return, lift, map_rpc_error}
use sepp_py.Client.Policy.{Client, World}
use sepp_py.Client.Trace.{call}

abbrev pub reserve_deadline_slack : Timedelta
reserve_deadline_slack = seconds 10

-- `try: jobs.append(…) except JobConversionError: …`
abbrev pub keep : {A : Type 0} → Result JobConversionError A → List A → List A
keep (ok a) rest = a ∷ rest
keep (err e) rest = rest

-- The loop over `resp.jobs`: a malformed job is skipped.
unfoldable pub jobs_from_pb : Runtime → Option String → List PbJob → List Job
jobs_from_pb rt worker_id [] = []
jobs_from_pb rt worker_id (j ∷ js) =
    keep (job_from_pb rt j worker_id) (jobs_from_pb rt worker_id js)

-- `jobs or None`
abbrev pub jobs_or_none : List Job → Option (List Job)
jobs_or_none [] = none
jobs_or_none (j ∷ js) = some (j ∷ js)

-- The sum of two timedeltas is a timedelta, or is not representable.
unfoldable pub reserve_deadline : Timedelta → Result Raised Timedelta
reserve_deadline wait_timeout =
    if leb_ℤ (wait_timeout +ℤ reserve_deadline_slack) max_timedelta
    then ok (wait_timeout +ℤ reserve_deadline_slack)
    else err overflow_error

unfoldable pub reserve :
    (env : Env) → Client env → ReserveOptions → M (World env) (Option (List Job))
unfolding jobs_from_pb reserve_deadline
reserve env client opts = do
  req ← lift (reserve_options_to_pb env.runtime opts)
  deadline ← lift (reserve_deadline opts.wait_timeout)
  resp ←
      map_rpc_error reserve_error_from_rpc
        (call env client env.stub_reserve (env.total_seconds deadline) "sepp.reserve" req)
  return (jobs_or_none (jobs_from_pb env.runtime opts.worker_id resp))
