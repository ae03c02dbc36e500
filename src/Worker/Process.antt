-- ===== src/Worker/Process.antt =====
-- `_run_job` with `_run_plain`, `_run_with_auto_extend` and `_dispose`.
pub mod Quiet
pub mod LeaseLost
pub mod Counted
use Prim.Native.String
use sepp_py.Common.{ℕ, ℤ, Bool, List, [], ◌∷◌, String, Option, none, some, Result, ok, err}
use sepp_py.Types.Time.{Timedelta}
use sepp_py.Types.Requests.{Payload}
use sepp_py.Types.Jobs.{Job, JobCtx}
use sepp_py.Errors.Exceptions.{Raised, sepp, assertion_error, unprintable, base_exception}
use sepp_py.Client.Policy.{RetryDirective, default, after, dead_letter}
use sepp_py.Worker.Config.{Config, AutoExtend}
use sepp_py.Worker.Handlers.{Handlers, handler_for}
use sepp_py.Worker.Client.{QueueClient}
use sepp_py.Worker.Heartbeat.{Pulse, beating, lost, heartbeat}

pub record HandlerError : Type 0 where
  pub reason : String
  pub directive : RetryDirective

abbrev pub retry : String → HandlerError
retry reason = record { reason = reason; directive = default }

abbrev pub retry_after : String → Timedelta → HandlerError
retry_after reason delay = record { reason = reason; directive = after delay }

abbrev pub permanent : String → HandlerError
permanent reason = record { reason = reason; directive = dead_letter }

-- How a handler's coroutine ends. `raised` holds the text of any other `Exception`,
-- `raised_unprintable` is one whose text cannot be made, and `escaped` is any other exception that
-- is no `Exception`, such as SystemExit.
pub data Ending : Type 0 where
  returned : Ending
  failed : HandlerError → Ending
  raised : (text : String) → Ending
  raised_unprintable cancelled escaped : Ending

-- A handler is user code: it may change the world, and ends in one of these ways. A handler that
-- is cancelled may end in any way too.
abbrev pub Handler : Type 0 → Type 0
Handler W = Option Payload → JobCtx → W → Ending × W

-- The value that `_run_job` passes on, or the `CancelledError`, other exception that is no
-- `Exception`, or `AssertionError` that it lets through.
pub data JobOutcome : Type 0 where
  finished : Ending → JobOutcome
  lease_lost cancelled_outside uncaught no_lease : JobOutcome

-- `_run_plain`: what is no `Exception`, a `CancelledError` among others, goes through.
unfoldable pub plain_outcome : Ending → JobOutcome
plain_outcome cancelled = cancelled_outside
plain_outcome escaped = uncaught
plain_outcome e = finished e

-- The end of `_run_with_auto_extend`: the heartbeat's flag decides, except for an exception that no
-- `except` catches.
unfoldable pub guarded_outcome : Pulse → Ending → JobOutcome
unfolding plain_outcome
guarded_outcome lost escaped = uncaught
guarded_outcome lost e = lease_lost
guarded_outcome p e = plain_outcome e

-- The metrics that are counted while a job is disposed of.
pub data Metric : Type 0 where
  processed : Metric
  nacked : (dead_lettered : Bool) → Metric

-- How the task of a job ends: normally with the metrics that it counted, with an exception that
-- the done callback logs, or cancelled.
pub data TaskEnd : Type 0 where
  completed : List Metric → TaskEnd
  crashed : Raised → TaskEnd
  task_cancelled : TaskEnd

abbrev pub settle : {W A : Type 0} → (A → List Metric) → Result Raised A × W → TaskEnd × W
settle f (ok a, w) = (completed (f a), w)
settle f (err (sepp e), w) = (completed [], w)
settle f (err r, w) = (crashed r, w)

abbrev pub with_ending : {W : Type 0} → (Ending → JobOutcome) → Ending × W → JobOutcome × W
with_ending f (e, w) = (f e, w)

module _ {W : Type 0} (qc : QueueClient W) where
  -- `_dispose`: errors of the library are logged and dropped.
  unfoldable pub dispose : JobCtx → Ending → W → TaskEnd × W
  dispose ctx returned w = settle (λ _. processed ∷ []) (qc.ack_job ctx w)
  dispose ctx (failed e) w =
      settle (λ dead. nacked dead ∷ []) (qc.nack_job ctx e.directive e.reason w)
  dispose ctx (raised text) w =
      settle (λ dead. nacked dead ∷ [])
        (qc.nack_job ctx default (String.◌++◌ "handler raised: " text) w)
  dispose ctx raised_unprintable w = (crashed unprintable, w)
  dispose ctx cancelled w = (task_cancelled, w)
  dispose ctx escaped w = (crashed base_exception, w)

  unfoldable pub finish : JobCtx → JobOutcome × W → TaskEnd × W
  unfolding dispose
  finish ctx (finished e, w) = dispose ctx e w
  finish ctx (lease_lost, w) = (completed [], w)
  finish ctx (cancelled_outside, w) = (task_cancelled, w)
  finish ctx (uncaught, w) = (crashed base_exception, w)
  finish ctx (no_lease, w) = (crashed assertion_error, w)

  -- The beats that fall into the handler's run come first, then the handler's own effects.
  abbrev pub beats_then : Handler W → Job → Pulse × W → JobOutcome × W
  beats_then h job (pulse, w) = with_ending (guarded_outcome pulse) (h job.payload job.ctx w)

  -- `_run_with_auto_extend` asserts that the context holds a lease.
  unfoldable pub run_handler :
      Option AutoExtend → Handler W → Job → (clock : ℤ) → List ℕ → W → JobOutcome × W
  unfolding plain_outcome guarded_outcome
  run_handler none h job clock lates w = with_ending plain_outcome (h job.payload job.ctx w)
  run_handler (some cfg) h job clock lates w = elim job.ctx.lease [
    | none ↦ (no_lease, w)
    | some lease ↦ beats_then h job (heartbeat qc cfg lates clock (beating lease) w)
  ]

  -- `_run_job`; `clock` and `lates` are those of the heartbeat.
  unfoldable pub run_job :
      Config → Handlers (Handler W) → Job → (clock : ℤ) → List ℕ → W → TaskEnd × W
  unfolding finish run_handler handler_for
  run_job c hs job clock lates w = elim (handler_for job.ctx.job_type hs) [
    | none ↦ settle (λ _. []) (qc.nack_job job.ctx default "no handler registered for job_type" w)
    | some h ↦ finish job.ctx (run_handler c.auto_extend h job clock lates w)
  ]
