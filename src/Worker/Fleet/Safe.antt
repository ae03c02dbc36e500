-- ===== src/Worker/Fleet/Safe.antt =====
-- The tasks of a worker whose client is `SeppClient`, in every order of their steps.
use sepp_py.Common.{true, List, [], ◌∷◌, ◌++◌, ◌≡◌, ◌≢◌, refl}
use sepp_py.Types.Jobs.{Lease, Job}
use sepp_py.Client.Env.{Env}
use sepp_py.Client.Policy.{Client}
use sepp_py.Worker.Config.{Config}
use sepp_py.Worker.Handlers.{Handlers}
use sepp_py.Worker.Client.{QueueClient}
use sepp_py.Worker.Process.{Ending, escaped, Handler, JobOutcome, completed, finish}
use sepp_py.Worker.Loop.Supplied.{All-split}
use sepp_py.Worker.Fleet.{Run, settled, Fleet, Reach}
use sepp_py.Worker.Fleet.Lost.{IsMarked, Reach-IsMarked}

module _ {W : Type 0} (qc : QueueClient W) {c : Config} {hs : Handlers (Handler W)}
    {Works : Job → W → W → Type 0} {Acts : Job → W → Lease → W → Lease → Type 0}
    {Ends : Job → Ending → Type 0} {Outside : W → W → Type 0} {w : W} where
  -- In every order of the steps of a worker with all of its tasks at once, with any client, whose
  -- handlers end by no exception but an `Exception` or a cancellation: a task whose heartbeat lost
  -- the lease before its outcome was settled makes no call and counts nothing when it ends, in
  -- whatever world that is.
  pub fleet-finish :
      {s : Fleet W} (before : List (Run W)) (run : Run W) (behind : List (Run W)) (o : JobOutcome)
      (w' : W)
      → ((job : Job) (e : Ending) → Ends job e → e ≢ escaped)
      → Reach qc c hs Works Acts Ends Outside w s
      → s.runs ≡ before ++ run ∷ behind
      → run.stage ≡ settled true o
      → finish qc run.job.ctx (o, w') ≡ (completed [], w')
  unfolding finish
  fleet-finish before run behind o w' through r e h =
      let (this, rest) =
        All-split (λ x. IsMarked x.stage) before run behind
          (rw e at (Reach-IsMarked qc through r)) in
      let marked = rw h at this in rw (marked refl, finish) refl
