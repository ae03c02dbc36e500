-- ===== src/Worker/Process/LeaseLost.antt =====
-- A job whose lease is lost, and when a heartbeat gives a lease up.
use sepp_py.Common.{
  ℕ, ℤ, ◌≤ℤ◌, some, [], List, Result, ok, err, ◌≡◌, ◌≢◌, ◌⊎◌, ◌↔◌, inl, inr, refl, arith,
}
use sepp_py.Types.Time.{Datetime}
use sepp_py.Types.Jobs.{Lease, Job}
use sepp_py.Errors.Exceptions.{Raised, LeaseError, SeppError, sepp, lease_error}
use sepp_py.Convert.Time.{now_millis}
use sepp_py.Worker.Config.{Config, AutoExtend}
use sepp_py.Worker.Handlers.{Handlers, handler_for}
use sepp_py.Worker.Client.{QueueClient}
use sepp_py.Worker.Heartbeat.{beating, lost, after_extend, heartbeat}
use sepp_py.Worker.Process.{
  Ending, escaped, lease_lost, Handler, completed, finish, guarded_outcome, run_handler, run_job,
}

-- An extend call gives a lease up exactly if it raises a lease error, or another error of the
-- library when the clock has reached the known expiry.
after_extend_iff :
    (lease : Lease) (clock : ℤ) (r : Result Raised (Datetime × Lease))
    → (after_extend lease clock r ≡ lost) ↔ (
        ((e : LeaseError) × (r ≡ err (sepp (lease_error e))))
        ⊎ ((e : SeppError) × (r ≡ err (sepp e)) × (lease.known_expiry_ms ≤ℤ now_millis clock)))
unfolding after_extend
after_extend_iff lease clock (ok (d, l)) = ground arith
after_extend_iff lease clock (err (sepp (lease_error e))) = (λ h. inl (e, refl), λ h. refl)
after_extend_iff lease clock (err (sepp e)) = (
  λ h. inr (e, refl, ground (arith, h)),
  λ s. elim s [ inl (x, q) ↦ ground (arith, q) | inr (x, q, due) ↦ ground (arith, due) ],
)
after_extend_iff lease clock (err r) = ground arith

guarded_lost : (e : Ending) → e ≢ escaped → guarded_outcome lost e ≡ lease_lost
unfolding guarded_outcome
guarded_lost e h = ground (arith, h)

module _ {W : Type 0} (qc : QueueClient W) where
  -- If the heartbeat loses the lease while the handler runs, then however the handler ends, unless
  -- with an exception that is no `Exception`, the job's task counts no metric and makes no call after the handler: the world is the handler's.
  run_job_of_lost :
      (c : Config) (cfg : AutoExtend) (hs : Handlers (Handler W)) (h : Handler W) (job : Job)
      (lease : Lease) (clock : ℤ) (lates : List ℕ) (w w' : W)
      → c.auto_extend ≡ some cfg
      → job.ctx.lease ≡ some lease
      → handler_for job.ctx.job_type hs ≡ some h
      → heartbeat qc cfg lates clock (beating lease) w ≡ (lost, w')
      → (h job.payload job.ctx w').0 ≢ escaped
      → run_job qc c hs job clock lates w ≡ (completed [], (h job.payload job.ctx w').1)
  unfolding run_job run_handler finish
  run_job_of_lost c cfg hs h job lease clock lates w w' e1 e2 e3 e4 calm =
      rw (e3, run_job)
        (rw (e1, run_handler)
          (simp (e2, run_handler)
            (rw e4 (rw (guarded_lost (h job.payload job.ctx w').0 calm) refl))))
