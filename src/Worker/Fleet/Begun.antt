-- ===== src/Worker/Fleet/Begun.antt =====
-- Where a task has a heartbeat, the worker extends leases, in every order of the steps.
use sepp_py.Common.{List, [], ◌∷◌, Option, none, some, Result, ok, err, All, arith}
use sepp_py.Types.Jobs.{Lease, Job}
use sepp_py.Errors.Exceptions.{Raised}
use sepp_py.Worker.Config.{Config}
use sepp_py.Worker.Handlers.{Handlers}
use sepp_py.Worker.Client.{QueueClient}
use sepp_py.Worker.Process.{Ending, Handler}
use sepp_py.Worker.Guard
use sepp_py.Worker.Loop.Supplied.{All-split}
use sepp_py.Worker.Fleet.{
  Run, Stage, Fleet, with_first, Advance, begin_plain, begin_guarded, begin_unleased, works,
  ends_plain, moves, ends_guarded, elsewhere, waited, reserved, spawned, advanced, ended,
  cancelled_run, Reach, begin, next,
}
use sepp_py.Worker.Fleet.Fit.{All-insert}
use sepp_py.Worker.Fleet.Ended.{IsBegun}

with_first-IsBegun :
    {W : Type 0} (c : Config) (Ends : Job → Ending → Type 0) (r : Result Raised (Option (List Job)))
    (runs : List (Run W))
    → All (λ x. IsBegun c Ends x.job x.stage) runs
    → All (λ x. IsBegun c Ends x.job x.stage) (with_first r runs)
unfolding with_first
with_first-IsBegun c Ends (ok none) runs h = h
with_first-IsBegun c Ends (ok (some [])) runs h = h
with_first-IsBegun c Ends (ok (some (job ∷ jobs))) runs h = (tt, h)
with_first-IsBegun c Ends (err r) runs h = h

module _ {W : Type 0} {qc : QueueClient W} {c : Config} {hs : Handlers (Handler W)}
    {Works : Job → W → W → Type 0} {Acts : Job → W → Lease → W → Lease → Type 0}
    {Ends : Job → Ending → Type 0} where
  Advance-IsBegun :
      {job : Job} {stage : Stage W} {w : W} {stage' : Stage W} {w' : W}
      → Advance qc c hs Works Acts Ends job stage w stage' w'
      → IsBegun c Ends job stage
      → IsBegun c Ends job stage'
  unfolding Guard.start
  Advance-IsBegun (begin_plain h found off) i = tt
  Advance-IsBegun (begin_guarded h cfg lease clock found on has) i =
      ((cfg, on), λ e same. ground (arith, same))
  Advance-IsBegun (begin_unleased h cfg found on none_there) i = tt
  Advance-IsBegun (works step) i = tt
  Advance-IsBegun (ends_plain e may) i = tt
  Advance-IsBegun (moves cfg on x may) i = ((cfg, on), may)
  Advance-IsBegun (ends_guarded o h) i = tt

  pub Reach-IsBegun :
      {Outside : W → W → Type 0} {w : W} {s : Fleet W}
      → Reach qc c hs Works Acts Ends Outside w s
      → All (λ x. IsBegun c Ends x.job x.stage) s.runs
  Reach-IsBegun begin = tt
  Reach-IsBegun (next r (elsewhere w step)) = Reach-IsBegun r
  Reach-IsBegun (next r (waited x l)) = Reach-IsBegun r
  Reach-IsBegun (next {s} r (reserved opts elapsed h)) =
      with_first-IsBegun c Ends _ s.runs (Reach-IsBegun r)
  Reach-IsBegun (next r (spawned job jobs h free)) = (tt, Reach-IsBegun r)
  Reach-IsBegun (next r (advanced before run behind stage w e a)) =
      let (this, rest) =
        All-split (λ x. IsBegun c Ends x.job x.stage) before run behind
          (rw e at (Reach-IsBegun r)) in
      All-insert (λ x. IsBegun c Ends x.job x.stage) before (record run { stage = stage }) behind
        (Advance-IsBegun a this) rest
  Reach-IsBegun (next r (ended before run behind o e f)) =
      (All-split (λ x. IsBegun c Ends x.job x.stage) before run behind
        (rw e at (Reach-IsBegun r))).1
  Reach-IsBegun (next r (cancelled_run h)) = tt
