-- ===== src/Worker/Client.antt =====
-- What the worker uses of a client, as an interface; `SeppClient` fills it.
use sepp_py.Common.{List, String, Bool, Option}
use sepp_py.Types.Time.{Timedelta, Datetime}
use sepp_py.Types.Requests.{ReserveOptions}
use sepp_py.Types.Jobs.{Lease, Job, JobCtx}
use sepp_py.Client.Env.{Env}
use sepp_py.Client.Monad.{M}
use sepp_py.Client.Policy.{RetryDirective, Client, World}
use sepp_py.Client.Reserve.{reserve}
use sepp_py.Client.Lease.{ack, nack, lease_extend}

pub record QueueClient (W : Type 0) : Type 0 where
  pub reserve_jobs : ReserveOptions → M W (Option (List Job))
  pub ack_job : JobCtx → M W (Unit {0})
  pub nack_job : JobCtx → RetryDirective → String → M W Bool
  pub extend_lease : Lease → Timedelta → M W (Datetime × Lease)

abbrev pub sepp_client : (env : Env) → Client env → QueueClient (World env)
sepp_client env client = record {
  reserve_jobs = reserve env client;
  ack_job = ack env client;
  nack_job = nack env client;
  extend_lease = lease_extend env client;
}
