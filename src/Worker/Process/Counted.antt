-- ===== src/Worker/Process/Counted.antt =====
-- The metrics of a job against the calls that end it.
use sepp_py.Common.{
  ℕ, ℤ, Bool, String, List, [], ◌∷◌, Result, ok, err, ◌≡◌, ◌⊎◌, inl, inr, Option-cases,
}
use sepp_py.Types.Jobs.{Job, JobCtx}
use sepp_py.Errors.Exceptions.{Raised, sepp}
use sepp_py.Client.Policy.{RetryDirective, default}
use sepp_py.Worker.Config.{Config}
use sepp_py.Worker.Handlers.{Handlers, handler_for}
use sepp_py.Worker.Client.{QueueClient}
use sepp_py.Worker.Process.{
  Handler, Ending, returned, failed, raised, raised_unprintable, cancelled, escaped, JobOutcome,
  finished, lease_lost, cancelled_outside, uncaught, no_lease, Metric, processed, nacked, completed,
  settle, dispose, finish, run_handler, run_job,
}

settle-completed :
    {W A : Type 0} (f : A → List Metric) (o : Result Raised A × W) (ms : List Metric) (w' : W)
    → settle f o ≡ (completed ms, w')
    → (ms ≡ []) ⊎ ((a : A) × (o ≡ (ok a, w')) × (ms ≡ f a))
settle-completed f (ok a, w) ms w' h = inr (a, cc, cc)
settle-completed f (err (sepp e), w) ms w' h = inl cc
settle-completed f (err r, w) ms w' h = cc

module _ {W : Type 0} (qc : QueueClient W) where
  -- No metric; or one for an ack that returned last; or one for a nack that returned last, with
  -- what it said of the dead-letter queue.
  abbrev pub Counted : JobCtx → List Metric → W → Type 0
  Counted ctx ms w' =
      (ms ≡ [])
      ⊎ ((w : W) × (ms ≡ processed ∷ []) × (qc.ack_job ctx w ≡ (ok tt, w')))
      ⊎ ((w : W) × (d : RetryDirective) × (reason : String) × (dead : Bool) × (ms
            ≡ nacked dead ∷ [])
          × (qc.nack_job ctx d reason w ≡ (ok dead, w')))

  dispose-Counted :
      (ctx : JobCtx) (e : Ending) (w : W) (ms : List Metric) (w' : W)
      → dispose qc ctx e w ≡ (completed ms, w')
      → Counted ctx ms w'
  unfolding dispose
  dispose-Counted ctx returned w ms w' h =
      elim (settle-completed (λ _. processed ∷ []) (qc.ack_job ctx w) ms w' h) [
        | inl none_counted ↦ inl none_counted
        | inr (a, call, same) ↦ inr (inl (w, same, call))
      ]
  dispose-Counted ctx (failed e) w ms w' h =
      elim (settle-completed (λ dead. nacked dead ∷ []) (qc.nack_job ctx e.directive e.reason w) ms
        w' h) [
          | inl none_counted ↦ inl none_counted
          | inr (dead, call, same) ↦ inr (inr (w, e.directive, e.reason, dead, same, call))
        ]
  dispose-Counted ctx (raised text) w ms w' h =
      elim (settle-completed (λ dead. nacked dead ∷ []) (qc.nack_job ctx default _ w) ms w' h) [
        | inl none_counted ↦ inl none_counted
        | inr (dead, call, same) ↦ inr (inr (w, default, _, dead, same, call))
      ]
  dispose-Counted ctx raised_unprintable w ms w' h = cc
  dispose-Counted ctx cancelled w ms w' h = cc
  dispose-Counted ctx escaped w ms w' h = cc

  finish-Counted :
      (ctx : JobCtx) (o : JobOutcome × W) (ms : List Metric) (w' : W)
      → finish qc ctx o ≡ (completed ms, w')
      → Counted ctx ms w'
  unfolding finish
  finish-Counted ctx (finished e, w) ms w' h = dispose-Counted ctx e w ms w' h
  finish-Counted ctx (lease_lost, w) ms w' h = inl cc
  finish-Counted ctx (cancelled_outside, w) ms w' h = cc
  finish-Counted ctx (uncaught, w) ms w' h = cc
  finish-Counted ctx (no_lease, w) ms w' h = cc

  -- The task of a job that ends normally has counted no metric, or one: the job as processed, and
  -- then its last call was an ack that returned, or as nacked, and then its last call was a nack
  -- that returned, and it counts the answer on the dead-letter queue.
  pub run_job-Counted :
      (c : Config) (hs : Handlers (Handler W)) (job : Job) (clock : ℤ) (lates : List ℕ) (w : W)
      (ms : List Metric) (w' : W)
      → run_job qc c hs job clock lates w ≡ (completed ms, w')
      → Counted job.ctx ms w'
  unfolding run_job
  run_job-Counted c hs job clock lates w ms w' h =
      elim (Option-cases (handler_for job.ctx.job_type hs)) [
        | inl e ↦
            elim (settle-completed (λ _. []) (qc.nack_job job.ctx default _ w) ms w'
              (rw (e, run_job) at h)) [
                | inl none_counted ↦ inl none_counted
                | inr (dead, call, same) ↦ inl same
              ]
        | inr (handler, e) ↦
            finish-Counted job.ctx (run_handler qc c.auto_extend handler job clock lates w) ms w'
              (rw (e, run_job) at h)
      ]
