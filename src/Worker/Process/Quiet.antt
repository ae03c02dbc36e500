-- ===== src/Worker/Process/Quiet.antt =====
-- How a job's task ends.
use Prim.Native.String
use sepp_py.Wire.Runtime.{IsLawful, IsText}
use sepp_py.Common.{
  [], ◌<◌, ◌^◌, ℕ, ℤ, Option, none, some, Option-cases, List, String, Result, ok, err, ◌≡◌, ◌≢◌,
  refl, inl, inr, arith,
}
use sepp_py.Types.Jobs.{Job, JobCtx}
use sepp_py.Errors.Exceptions.{Raised, sepp}
use sepp_py.Client.Env.{Env}
use sepp_py.Client.Policy.{RetryDirective, default, Client}
use sepp_py.Client.Clean.{IsSepp, IsDirective, ack-IsSepp, nack-IsSepp}
use sepp_py.Worker.Config.{Config, AutoExtend}
use sepp_py.Worker.Handlers.{Handlers, handler_for}
use sepp_py.Worker.Client.{QueueClient, sepp_client}
use sepp_py.Worker.Heartbeat.{Pulse, beating, lost, died, heartbeat}
use sepp_py.Worker.Process.{
  Metric, Ending, returned, failed, raised, raised_unprintable, cancelled, escaped, Handler,
  JobOutcome, finished, lease_lost, cancelled_outside, uncaught, no_lease, plain_outcome,
  guarded_outcome, TaskEnd, crashed, settle, dispose, finish, with_ending, run_handler, run_job,
}

-- What the worker relies on: the calls that dispose of a job raise exceptions of the library only,
-- where the attempt fits its field and the reason has no lone surrogate.
pub record IsTame {W : Type 0} (qc : QueueClient W) : Type 0 where
  pub acks : (ctx : JobCtx) (w : W) → ctx.attempt < 2 ^ 32 → IsSepp (qc.ack_job ctx w)
  pub nacks :
      (ctx : JobCtx) (d : RetryDirective) (reason : String) (w : W)
      → ctx.attempt < 2 ^ 32
      → IsDirective d
      → IsText reason
      → IsSepp (qc.nack_job ctx d reason w)

pub sepp_client-IsTame :
    (env : Env) (client : Client env) → IsLawful env.runtime → IsTame (sepp_client env client)
sepp_client-IsTame env client lawful = record {
  acks = ack-IsSepp env client lawful;
  nacks = nack-IsSepp env client lawful;
}

-- An ending by an `Exception` with a text, or by a cancellation: the text that the nack sends of it
-- has no lone surrogate, and a `HandlerError` has a directive of `RetryDirective`'s constructors.
abbrev pub IsProper : Ending → Type 0
IsProper (failed e) = IsDirective e.directive × IsText e.reason
IsProper (raised text) = IsText (String.◌++◌ "handler raised: " text)
IsProper raised_unprintable = ⊥
IsProper escaped = ⊥
IsProper _ = Unit

-- The task was not ended by an exception.
abbrev pub IsQuiet : {W : Type 0} → TaskEnd × W → Type 0
IsQuiet (crashed r, w) = ⊥
IsQuiet _ = Unit

-- An outcome that leads to a call of the client or to none.
abbrev pub IsOrderly : {W : Type 0} → JobOutcome × W → Type 0
IsOrderly (finished e, w) = IsProper e
IsOrderly (uncaught, w) = ⊥
IsOrderly (no_lease, w) = ⊥
IsOrderly _ = Unit

pub settle-IsQuiet :
    {W A : Type 0} (f : A → List Metric) (o : Result Raised A × W) → IsSepp o → IsQuiet (settle f o)
settle-IsQuiet f (ok a, w) h = tt
settle-IsQuiet f (err (sepp e), w) h = tt
settle-IsQuiet f (err _, w) h = absurd h

with_ending-IsOrderly :
    {W : Type 0} (pulse : Pulse) (o : Ending × W)
    → IsProper o.0
    → IsOrderly (with_ending (guarded_outcome pulse) o)
unfolding guarded_outcome plain_outcome
with_ending-IsOrderly lost (e, w) h = ground (arith, h)
with_ending-IsOrderly (beating l) (e, w) h = ground (arith, h)
with_ending-IsOrderly (died r) (e, w) h = ground (arith, h)

plain-IsOrderly :
    {W : Type 0} (o : Ending × W) → IsProper o.0 → IsOrderly (with_ending plain_outcome o)
unfolding plain_outcome
plain-IsOrderly (e, w) h = ground (arith, h)

module _ {W : Type 0} (qc : QueueClient W) (tame : IsTame qc) where
  pub finish-IsQuiet :
      (ctx : JobCtx) (o : JobOutcome × W)
      → ctx.attempt < 2 ^ 32
      → IsOrderly o
      → IsQuiet (finish qc ctx o)
  unfolding finish dispose
  finish-IsQuiet ctx (finished returned, w) fits h = settle-IsQuiet _ _ (tame.acks ctx w fits)
  finish-IsQuiet ctx (finished (failed e), w) fits (d, t) =
      settle-IsQuiet _ _ (tame.nacks ctx e.directive e.reason w fits d t)
  finish-IsQuiet ctx (finished (raised text), w) fits h =
      settle-IsQuiet _ _ (tame.nacks ctx default _ w fits (inl refl) h)
  finish-IsQuiet ctx (finished raised_unprintable, w) fits h = absurd h
  finish-IsQuiet ctx (finished cancelled, w) fits h = tt
  finish-IsQuiet ctx (finished escaped, w) fits h = absurd h
  finish-IsQuiet ctx (lease_lost, w) fits h = tt
  finish-IsQuiet ctx (cancelled_outside, w) fits h = tt
  finish-IsQuiet ctx (uncaught, w) fits h = absurd h
  finish-IsQuiet ctx (no_lease, w) fits h = absurd h

  -- The nack of a job that no handler is registered for.
  pub unhandled-IsQuiet :
      (ctx : JobCtx) (w : W)
      → ctx.attempt < 2 ^ 32
      → IsQuiet (settle (λ _. []) (qc.nack_job ctx default "no handler registered for job_type" w))
  unhandled-IsQuiet ctx w fits =
      settle-IsQuiet _ _ (tame.nacks ctx default _ w fits (inl refl) refl)

  run_handler-IsOrderly :
      (cfg : Option AutoExtend) (h : Handler W) (job : Job) (clock : ℤ) (lates : List ℕ) (w : W)
      → job.ctx.lease ≢ none
      → ((w' : W) → IsProper (h job.payload job.ctx w').0)
      → IsOrderly (run_handler qc cfg h job clock lates w)
  unfolding run_handler
  run_handler-IsOrderly none h job clock lates w leased proper =
      plain-IsOrderly (h job.payload job.ctx w) (proper w)
  run_handler-IsOrderly (some cfg) h job clock lates w leased proper =
      elim (Option-cases job.ctx.lease) [
        | inl e ↦ absurd (leased e)
        | inr (lease, e) ↦
            let (pulse, w') = heartbeat qc cfg lates clock (beating lease) w in
            rw (e, run_handler) (with_ending-IsOrderly pulse (h job.payload job.ctx w') (proper w'))
      ]

  -- With a client whose calls raise exceptions of the library only, for a job with a lease and an
  -- attempt that fits its field, and where each handler ends properly: the job's task ends without
  -- an exception, whatever the handler and the server do.
  pub run_job-IsQuiet :
      (c : Config) (hs : Handlers (Handler W)) (job : Job) (clock : ℤ) (lates : List ℕ) (w : W)
      → job.ctx.lease ≢ none
      → job.ctx.attempt < 2 ^ 32
      → ((h : Handler W) (w' : W)
          → handler_for job.ctx.job_type hs ≡ some h
          → IsProper (h job.payload job.ctx w').0)
      → IsQuiet (run_job qc c hs job clock lates w)
  unfolding run_job
  run_job-IsQuiet c hs job clock lates w leased fits proper =
      elim (Option-cases (handler_for job.ctx.job_type hs)) [
        | inl e ↦ rw (e, run_job) (unhandled-IsQuiet job.ctx w fits)
        | inr (h, e) ↦
            rw (e, run_job)
              (finish-IsQuiet job.ctx (run_handler qc c.auto_extend h job clock lates w) fits (
                run_handler-IsOrderly c.auto_extend h job clock lates w leased
                  (λ w'. proper h w' e)))
      ]
